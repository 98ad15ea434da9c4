-- ===== src/Prelude/Sort.antt =====
-- A list in descending order of a number, as ORDER BY … DESC and a stable sort give it: of equal
-- elements the first stays first. In SQL that order is open, and rows are kept the newest first.
use Prim.Native.Nat.{ℕ, zero, suc, ◌≤◌}
use mathlib.Core.Path.{◌≡◌, refl, ap, ◌∙◌}
use mathlib.Core.Logic.{inl, inr}
use mathlib.Core.Bool.{false}
use mathlib.Core.List.{List, [], ◌∷◌, ◌++◌, Perm}
use mathlib.Core.List.Perm
use native.Mathlib.Omega.{arith}
use blogengine.Prelude.{
  ltb, if◌then◌else◌, Bool-cases, take, drop, length, ltb→lt, All, All-mono, All-take, All-drop,
}

module _ {ℓ} {A : Type ℓ} (time : A → ℕ) where
  unfoldable pub insert_desc : A → List A → List A
  insert_desc a [] = a ∷ []
  insert_desc a (x ∷ xs) =
      let rest = insert_desc a xs in if ltb (time a) (time x) then x ∷ rest else a ∷ x ∷ xs

  unfoldable pub order_desc : List A → List A
  unfolding insert_desc
  order_desc [] = []
  order_desc (x ∷ xs) = insert_desc x (order_desc xs)

module _ {A : Type 0} (time : A → ℕ) where
  -- No row is later than one before it.
  abbrev pub IsDesc : List A → Type 0
  IsDesc [] = Unit
  IsDesc (x ∷ xs) = All (λ y. time y ≤ time x) xs × IsDesc xs

  pub All-insert_desc {κ} :
      (P : A → Type κ) (a : A) (xs : List A) → P a → All P xs → All P (insert_desc time a xs)
  unfolding insert_desc
  All-insert_desc P a [] p h = (p, tt)
  All-insert_desc P a (x ∷ xs) p (h, hs) = elim (Bool-cases (ltb (time a) (time x))) [
    | inl e ↦ rw e (h, All-insert_desc P a xs p hs)
    | inr e ↦ rw e (p, (h, hs))
  ]

  pub All-order_desc {κ} : (P : A → Type κ) (xs : List A) → All P xs → All P (order_desc time xs)
  unfolding order_desc
  All-order_desc P [] h = tt
  All-order_desc P (x ∷ xs) (h, hs) =
      All-insert_desc P x (order_desc time xs) h (All-order_desc P xs hs)

  not_lt : (a b : ℕ) → ltb a b ≡ false → b ≤ a
  not_lt a b h = ground arith

  insert_desc-IsDesc : (a : A) (xs : List A) → IsDesc xs → IsDesc (insert_desc time a xs)
  unfolding insert_desc
  insert_desc-IsDesc a [] d = (tt, tt)
  insert_desc-IsDesc a (x ∷ xs) (dx, d) = elim (Bool-cases (ltb (time a) (time x))) [
    | inl e ↦ rw e (
      All-insert_desc (λ y. time y ≤ time x) a xs (ground (arith, ltb→lt (time a) (time x))) dx,
      insert_desc-IsDesc a xs d,
    )
    | inr e ↦
        let first : time x ≤ time a = not_lt (time a) (time x) e in
        rw e ((first, All-mono (λ y h. omega arith) xs dx), (dx, d))
  ]

  pub order_desc-IsDesc : (xs : List A) → IsDesc (order_desc time xs)
  unfolding order_desc
  order_desc-IsDesc [] = tt
  order_desc-IsDesc (x ∷ xs) = insert_desc-IsDesc x (order_desc time xs) (order_desc-IsDesc xs)

  pub IsDesc-take : (n : ℕ) (xs : List A) → IsDesc xs → IsDesc (take n xs)
  IsDesc-take zero xs d = tt
  IsDesc-take (suc n) [] d = tt
  IsDesc-take (suc n) (x ∷ xs) (dx, d) =
      (All-take (λ y. time y ≤ time x) n xs dx, IsDesc-take n xs d)

  pub IsDesc-drop : (n : ℕ) (xs : List A) → IsDesc xs → IsDesc (drop n xs)
  IsDesc-drop zero xs d = d
  IsDesc-drop (suc n) [] d = tt
  IsDesc-drop (suc n) (x ∷ xs) (dx, d) = IsDesc-drop n xs d

  insert_desc-Perm : (a : A) (xs : List A) → Perm (insert_desc time a xs) (a ∷ xs)
  unfolding insert_desc
  insert_desc-Perm a [] = Perm.rfl
  insert_desc-Perm a (x ∷ xs) = elim (Bool-cases (ltb (time a) (time x))) [
    | inl e ↦ rw e (Perm.trans (Perm.cons x (insert_desc-Perm a xs)) (Perm.swap a x xs))
    | inr e ↦ rw e Perm.rfl
  ]

  pub order_desc-Perm : (xs : List A) → Perm (order_desc time xs) xs
  unfolding order_desc
  order_desc-Perm [] = Perm.rfl
  order_desc-Perm (x ∷ xs) =
      Perm.trans (insert_desc-Perm x (order_desc time xs)) (Perm.cons x (order_desc-Perm xs))

  -- what a prefix leaves out is no greater than what it has
  pub take-IsDesc :
      (n : ℕ) (xs : List A)
      → IsDesc xs
      → All (λ x. All (λ y. time y ≤ time x) (drop n xs)) (take n xs)
  take-IsDesc zero xs d = tt
  take-IsDesc (suc n) [] d = tt
  take-IsDesc (suc n) (x ∷ xs) (dx, d) =
      (All-drop (λ y. time y ≤ time x) n xs dx, take-IsDesc n xs d)

  length-insert_desc : (a : A) (xs : List A) → length (insert_desc time a xs) ≡ suc (length xs)
  unfolding insert_desc
  length-insert_desc a [] = refl
  length-insert_desc a (x ∷ xs) = elim (Bool-cases (ltb (time a) (time x))) [
    | inl e ↦ rw e (ap suc (length-insert_desc a xs))
    | inr e ↦ rw e refl
  ]

  pub length-order_desc : (xs : List A) → length (order_desc time xs) ≡ length xs
  unfolding order_desc
  length-order_desc [] = refl
  length-order_desc (x ∷ xs) =
      length-insert_desc x (order_desc time xs) ∙ ap suc (length-order_desc xs)

  pub take-append-drop : (n : ℕ) (xs : List A) → take n xs ++ drop n xs ≡ xs
  take-append-drop zero xs = refl
  take-append-drop (suc n) [] = refl
  take-append-drop (suc n) (x ∷ xs) = ap (λ ys. x ∷ ys) (take-append-drop n xs)
