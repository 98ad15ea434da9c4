-- ===== src/Sqlite/Invariant/Tables.antt =====
-- INSERT and UPDATE keep the constraints of one table: its CHECKs, its unique indices, and keys
-- that were given out by AUTOINCREMENT.
use blogengine.Prelude.{
  ℕ, ◌≡◌, refl, Bool, true, false, not, ◌&&◌, ◌||◌, inl, inr, List, [], ◌∷◌, All, Distinct,
  All-mono, arith, Bool-cases,
}
use blogengine.Prelude.Int.{ℤ, ◌==ℤ◌, ltb_ℤ, leb_ℤ, ==ℤ_comm, ==ℤ_iff}
use blogengine.Sqlite.Table.{Schema, replace}

-- a key between 1 and the last one given out
abbrev pub is_given : ℕ → ℤ → Bool
is_given seq k = not (ltb_ℤ k 1) && leb_ℤ k seq

module _ {A : Type 0} (s : Schema A) where
  abbrev pub meets : A → A → Bool
  meets a b = s.id a ==ℤ s.id b || s.clash a b

  pub record IsSound (seq : ℕ) (rows : List A) : Type 0 where
    pub checked : All (λ r. s.check r ≡ true) rows
    pub distinct : Distinct meets rows
    pub given : All (λ r. is_given seq (s.id r) ≡ true) rows

  -- The index is symmetric.
  abbrev pub IsSymmetric : Type 0
  IsSymmetric = (a b : A) → s.clash a b ≡ s.clash b a

  pub All-replace {κ} :
      (P : A → Type κ) (r : A) (rows : List A) → P r → All P rows → All P (replace s r rows)
  unfolding replace
  All-replace P r [] p h = tt
  All-replace P r (x ∷ xs) p (h, hs) = elim (Bool-cases (s.id x ==ℤ s.id r)) [
    | inl e ↦ rw e (p, All-replace P r xs p hs)
    | inr e ↦ rw e (h, All-replace P r xs p hs)
  ]

  replace_absent :
      (r : A) (rows : List A)
      → All (λ x. (s.id x ==ℤ s.id r) ≡ false) rows
      → replace s r rows ≡ rows
  unfolding replace
  replace_absent r [] h = refl
  replace_absent r (x ∷ xs) (h, hs) = rw (h, replace_absent r xs hs)

  -- no row other than `r` falls together with it
  abbrev pub IsFree : A → A → Type 0
  IsFree r x = (not (s.id x ==ℤ s.id r) && s.clash r x) ≡ false

  absent_of_meets :
      (r x y : A) → (s.id x ==ℤ s.id r) ≡ true → meets x y ≡ false → (s.id y ==ℤ s.id r) ≡ false
  absent_of_meets r x y e h = ground (arith, ==ℤ_iff (s.id x) (s.id r), ==ℤ_comm (s.id y) (s.id x))

  free-meets : (r y : A) → IsFree r y → (s.id y ==ℤ s.id r) ≡ false → meets r y ≡ false
  free-meets r y h e = ground (arith, ==ℤ_comm (s.id y) (s.id r))

  module _ (symmetric : IsSymmetric) where
    meets-replaced : (r x : A) → IsFree r x → (s.id x ==ℤ s.id r) ≡ false → meets x r ≡ false
    meets-replaced r x h e = ground (arith, symmetric x r)

    pub Distinct-replace :
        (r : A) (rows : List A)
        → Distinct meets rows
        → All (IsFree r) rows
        → Distinct meets (replace s r rows)
    unfolding replace
    Distinct-replace r [] d f = tt
    Distinct-replace r (x ∷ xs) (dx, d) (fx, f) = elim (Bool-cases (s.id x ==ℤ s.id r)) [
      | inl e ↦
          let absent = All-mono (λ y. absent_of_meets r x y e) xs dx in
          rw (e, replace_absent r xs absent) (free_all xs f absent, d)
      | inr e ↦ rw e (
        All-replace (λ y. meets x y ≡ false) r xs (meets-replaced r x fx e) dx,
        Distinct-replace r xs d f,
      )
    ]
      where
        free_all :
            (ys : List A)
            → All (IsFree r) ys
            → All (λ y. (s.id y ==ℤ s.id r) ≡ false) ys
            → All (λ y. meets r y ≡ false) ys
        free_all [] g h = tt
        free_all (y ∷ ys) (g, gs) (h, hs) = (free-meets r y g h, free_all ys gs hs)
