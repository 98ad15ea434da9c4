-- ===== src/Middleware/Assoc.antt =====
-- Go's maps with string keys, as lists of pairs with each key once.
use blogengine.Prelude.{
  ◌≡◌, refl, sym, ap, ◌∙◌, Bool, true, false, List, [], ◌∷◌, Option, none, some, inl, inr, arith,
  Bool-cases, if◌then◌else◌,
}
use blogengine.Prelude.Text.{Text, text_eq, text_eq_refl, text_eq_sound, text_eq_comm}

module _ {ℓ} {A : Type ℓ} where
  -- m[key], with its ok
  unfoldable pub lookup : Text → List (Text × A) → Option A
  lookup key [] = none
  lookup key ((k, v) ∷ m) = let rest = lookup key m in if text_eq k key then some v else rest

  -- m[key] = v
  unfoldable pub assign : Text → A → List (Text × A) → List (Text × A)
  assign key v [] = (key, v) ∷ []
  assign key v ((k, w) ∷ m) =
      let rest = assign key v m in if text_eq k key then (k, v) ∷ m else (k, w) ∷ rest

  -- delete(m, key) for each entry that the test tells to drop
  unfoldable pub drop_if : (A → Bool) → List (Text × A) → List (Text × A)
  drop_if test [] = []
  drop_if test ((k, v) ∷ m) = let rest = drop_if test m in if test v then rest else (k, v) ∷ rest

  pub lookup-assign :
      (key : Text) (v : A) (m : List (Text × A)) → lookup key (assign key v m) ≡ some v
  unfolding lookup assign
  lookup-assign key v [] = ground (arith, text_eq_refl key)
  lookup-assign key v ((k, w) ∷ m) = elim (Bool-cases (text_eq k key)) [
    | inl e ↦ ground (arith, e)
    | inr e ↦ ground (arith, e, lookup-assign key v m)
  ]

  pub lookup-assign_other :
      (key other : Text) (v : A) (m : List (Text × A))
      → text_eq key other ≡ false
      → lookup other (assign key v m) ≡ lookup other m
  unfolding lookup assign
  lookup-assign_other key other v [] h = ground (arith, h)
  lookup-assign_other key other v ((k, w) ∷ m) h = elim (Bool-cases (text_eq k key)) [
    | inl e ↦ rw (text_eq_sound k key e, text_eq_refl key, h) refl
    | inr e ↦ ground (arith, e, lookup-assign_other key other v m h)
  ]

  -- what the test does not drop is found as before
  pub lookup-drop_if :
      (test : A → Bool) (key : Text) (m : List (Text × A)) {v : A}
      → lookup key m ≡ some v
      → test v ≡ false
      → lookup key (drop_if test m) ≡ some v
  unfolding lookup drop_if
  lookup-drop_if test key [] h t = h
  lookup-drop_if test key ((k, w) ∷ m) {v} h t = elim (Bool-cases (text_eq k key)) [
    | inl e ↦ ground (arith, e, h, t)
    | inr e ↦ ground (arith, e, lookup-drop_if test key m {v = v} (ground (arith, e)) t)
  ]

  pub lookup-drop_if-none :
      (test : A → Bool) (key : Text) (m : List (Text × A))
      → lookup key m ≡ none
      → lookup key (drop_if test m) ≡ none
  unfolding lookup drop_if
  lookup-drop_if-none test key [] h = refl
  lookup-drop_if-none test key ((k, w) ∷ m) h = elim (Bool-cases (text_eq k key)) [
    | inl e ↦ absurd (ground (arith, e, h))
    | inr e ↦ ground (arith, e, h, lookup-drop_if-none test key m (ground (arith, e)))
  ]

  -- Every key stands once.
  abbrev pub IsMap : List (Text × A) → Type ℓ
  IsMap [] = Unit
  IsMap ((k, v) ∷ m) = (lookup k m ≡ none) × IsMap m

  pub lookup-drop_if_gone :
      (test : A → Bool) (key : Text) (m : List (Text × A)) {v : A}
      → IsMap m
      → lookup key m ≡ some v
      → test v ≡ true
      → lookup key (drop_if test m) ≡ none
  unfolding lookup drop_if
  lookup-drop_if_gone test key [] d h t = refl
  lookup-drop_if_gone test key ((k, w) ∷ m) {v} (n, d) h t = elim (Bool-cases (text_eq k key)) [
    | inl e ↦
        let same : k ≡ key = text_eq_sound k key e in
        let gone = lookup-drop_if-none test key m (ap (λ x. lookup x m) (sym same) ∙ n) in
        ground (arith, e, h, t, gone)
    | inr e ↦ ground (arith, e, lookup-drop_if_gone test key m {v = v} d (ground (arith, e)) t)
  ]

  pub IsMap-drop_if : (test : A → Bool) (m : List (Text × A)) → IsMap m → IsMap (drop_if test m)
  unfolding drop_if
  IsMap-drop_if test [] d = tt
  IsMap-drop_if test ((k, v) ∷ m) (n, d) = elim (Bool-cases (test v)) [
    | inl e ↦ rw e (IsMap-drop_if test m d)
    | inr e ↦ rw e (lookup-drop_if-none test k m n, IsMap-drop_if test m d)
  ]

  pub IsMap-assign : (key : Text) (v : A) (m : List (Text × A)) → IsMap m → IsMap (assign key v m)
  unfolding assign lookup
  IsMap-assign key v [] d = (refl, tt)
  IsMap-assign key v ((k, w) ∷ m) (n, d) = elim (Bool-cases (text_eq k key)) [
    | inl e ↦ rw e (n, d)
    | inr e ↦ rw e (
      lookup-assign_other key k v m (ground (arith, e, text_eq_comm key k)) ∙ n,
      IsMap-assign key v m d,
    )
  ]
