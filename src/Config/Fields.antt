-- ===== src/Config/Fields.antt =====
-- config/config.go: what each test of Validate asks of a field.
use blogengine.Prelude.{
  ℕ, zero, suc, ◌≤◌, ◌≡◌, refl, ap, ◌≢◌, ◌↔◌, ◌⊎◌, inl, inr, Bool, true, false, not, ◌&&◌, ◌||◌, [],
  ◌∷◌, Option, none, arith, Bool-cases,
}
use blogengine.Prelude.Int.{ℤ, pos, negsuc, ltb_ℤ, leb_ℤ}
use blogengine.Prelude.Text.{Text, codes, text_eq, text_eq_sound, text_eq_refl, is_empty}
use blogengine.Utils.Slug.{to_lower}
use blogengine.Config.Types.{default_secret}
use blogengine.Config.Validate.{Invalid, reject, is_bad_env, is_prod}

abbrev pub IsPositive : ℤ → Type 0
IsPositive z = (n : ℕ) × (z ≡ pos (suc n))

abbrev pub IsPort : ℤ → Type 0
IsPort z = (p : ℕ) × (z ≡ pos p) × (1024 ≤ p) × (p ≤ 65535)

-- in `prod` the secret is there and is not the default one
abbrev pub IsSecret : Text → Text → Type 0
IsSecret environment secret =
    (environment ≢ codes "prod") ⊎ ((secret ≢ []) × (secret ≢ default_secret))

pub nonempty_iff : (s : Text) → (is_empty s ≡ false) ↔ (s ≢ [])
nonempty_iff [] = ((λ h. absurd (ground arith)), λ h. absurd (h refl))
nonempty_iff (c ∷ s) = ((λ h e. ground arith), λ h. refl)

pub differs_iff : (s t : Text) → (text_eq s t ≡ false) ↔ (s ≢ t)
differs_iff s t = (
  λ h e. ground (arith, h, text_eq_refl t, ap (λ x. text_eq x t) e),
  λ h. elim (Bool-cases (text_eq s t)) [ inl e ↦ absurd (h (text_eq_sound s t e)) | inr e ↦ e ],
)

pub IsPositive-iff : (z : ℤ) → (leb_ℤ z 0 ≡ false) ↔ IsPositive z
IsPositive-iff (pos zero) = ground arith
IsPositive-iff (pos (suc n)) = ((λ h. (n, refl)), λ h. ground arith)
IsPositive-iff (negsuc n) = ground arith

pub IsPort-iff : (z : ℤ) → ((ltb_ℤ z 1024 || not (leb_ℤ z 65535)) ≡ false) ↔ IsPort z
IsPort-iff (pos n) = ((λ h. (n, refl, ground arith, ground arith)), λ (p, e, lo, hi). ground arith)
IsPort-iff (negsuc n) = ground arith

-- the environment in lower case is dev or prod
abbrev pub IsEnvironment : Text → Type 0
IsEnvironment s = (to_lower s ≡ codes "dev") ⊎ (to_lower s ≡ codes "prod")

pub IsEnvironment-iff : (s : Text) → (is_bad_env s ≡ false) ↔ IsEnvironment s
unfolding is_bad_env
IsEnvironment-iff s = (forth, back)
  where
    forth : is_bad_env s ≡ false → IsEnvironment s
    forth h = elim (Bool-cases (text_eq (to_lower s) (codes "dev"))) [
      | inl e ↦ inl (text_eq_sound (to_lower s) (codes "dev") e)
      | inr e ↦ inr (text_eq_sound (to_lower s) (codes "prod") (ground (arith, h, e)))
    ]

    back : IsEnvironment s → is_bad_env s ≡ false
    back (inl e) = rw (is_bad_env, e) refl
    back (inr e) = rw (is_bad_env, e) refl

pub IsSecret-iff :
    (environment secret : Text)
    → (((is_prod environment && is_empty secret) ≡ false)
        × ((is_prod environment && text_eq secret default_secret) ≡ false))
      ↔ IsSecret environment secret
IsSecret-iff environment secret = elim (Bool-cases (is_prod environment)) [
  | inr e ↦ (
    λ h. inl ((differs_iff environment (codes "prod")).0 e),
    λ h. (ground (arith, e), ground (arith, e)),
  )
  | inl e ↦ (
    λ (h, h'). inr (
      (nonempty_iff secret).0 (ground (arith, e, h)),
      (differs_iff secret default_secret).0 (ground (arith, e, h')),
    ),
    back e,
  )
]
  where
    back :
        is_prod environment ≡ true
        → IsSecret environment secret
        → ((is_prod environment && is_empty secret) ≡ false)
          × ((is_prod environment && text_eq secret default_secret) ≡ false)
    back e (inl n) = absurd (n (text_eq_sound environment (codes "prod") e))
    back e (inr (there, fresh)) = (
      ground (arith, e, (nonempty_iff secret).1 there),
      ground (arith, e, (differs_iff secret default_secret).1 fresh),
    )

pub reject-none :
    (test : Bool) (e : Invalid) (rest : Option Invalid)
    → reject test e rest ≡ none
    → (test ≡ false) × (rest ≡ none)
unfolding reject
reject-none test e rest h = ground arith

pub reject-pass :
    (test : Bool) (e : Invalid) (rest : Option Invalid)
    → test ≡ false
    → rest ≡ none
    → reject test e rest ≡ none
unfolding reject
reject-pass test e rest h h' = ground arith
