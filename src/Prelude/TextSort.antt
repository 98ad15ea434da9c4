-- ===== src/Prelude/TextSort.antt =====
-- A list in descending order of a text, as ORDER BY … DESC gives it with the BINARY collation: texts
-- are compared byte by byte, and a prefix comes first. Of equal elements the first stays first.
use blogengine.Prelude.{
  ℕ, zero, suc, ◌≡◌, refl, inl, inr, Bool, true, false, ◌&&◌, ◌||◌, List, [], ◌∷◌, ltb, ◌==◌,
  if◌then◌else◌, Bool-cases, take, drop, All, All-mono, All-take, arith,
}
use blogengine.Prelude.Text.{Text}

-- s <= t
abbrev pub leb_text : Text → Text → Bool
leb_text [] t = true
leb_text (a ∷ s) [] = false
leb_text (a ∷ s) (b ∷ t) = ltb a b || (a == b && leb_text s t)

leb_text_total : (s t : Text) → leb_text s t ≡ false → leb_text t s ≡ true
leb_text_total [] t h = absurd (ground (arith, h))
leb_text_total (a ∷ s) [] h = refl
leb_text_total (a ∷ s) (b ∷ t) h = ground (arith, h, leb_text_total s t)

leb_text_trans : (r s t : Text) → leb_text r s ≡ true → leb_text s t ≡ true → leb_text r t ≡ true
leb_text_trans [] s t h k = refl
leb_text_trans (a ∷ r) [] t h k = absurd (ground (arith, h))
leb_text_trans (a ∷ r) (b ∷ s) [] h k = absurd (ground (arith, k))
leb_text_trans (a ∷ r) (b ∷ s) (c ∷ t) h k = ground (arith, h, k, leb_text_trans r s t)

module _ {A : Type 0} (text : A → Text) where
  unfoldable pub insert_last : A → List A → List A
  insert_last a [] = a ∷ []
  insert_last a (x ∷ xs) =
      let rest = insert_last a xs in if leb_text (text x) (text a) then a ∷ x ∷ xs else x ∷ rest

  unfoldable pub order_last : List A → List A
  unfolding insert_last
  order_last [] = []
  order_last (x ∷ xs) = insert_last x (order_last xs)

  -- No text is greater than one before it.
  abbrev pub IsLastFirst : List A → Type 0
  IsLastFirst [] = Unit
  IsLastFirst (x ∷ xs) = All (λ y. leb_text (text y) (text x) ≡ true) xs × IsLastFirst xs

  All-insert_last {κ} :
      (P : A → Type κ) (a : A) (xs : List A) → P a → All P xs → All P (insert_last a xs)
  unfolding insert_last
  All-insert_last P a [] p h = (p, tt)
  All-insert_last P a (x ∷ xs) p (h, hs) = elim (Bool-cases (leb_text (text x) (text a))) [
    | inl e ↦ rw e (p, (h, hs))
    | inr e ↦ rw e (h, All-insert_last P a xs p hs)
  ]

  pub All-order_last {κ} : (P : A → Type κ) (xs : List A) → All P xs → All P (order_last xs)
  unfolding order_last
  All-order_last P [] h = tt
  All-order_last P (x ∷ xs) (h, hs) = All-insert_last P x (order_last xs) h (All-order_last P xs hs)

  insert_last-IsLastFirst : (a : A) (xs : List A) → IsLastFirst xs → IsLastFirst (insert_last a xs)
  unfolding insert_last
  insert_last-IsLastFirst a [] d = (tt, tt)
  insert_last-IsLastFirst a (x ∷ xs) (dx, d) = elim (Bool-cases (leb_text (text x) (text a))) [
    | inl e ↦
        rw e ((e, All-mono (λ y h. leb_text_trans (text y) (text x) (text a) h e) xs dx), (dx, d))
    | inr e ↦ rw e (
      All-insert_last (λ y. leb_text (text y) (text x) ≡ true) a xs
          (leb_text_total (text x) (text a) e) dx,
      insert_last-IsLastFirst a xs d,
    )
  ]

  pub order_last-IsLastFirst : (xs : List A) → IsLastFirst (order_last xs)
  unfolding order_last
  order_last-IsLastFirst [] = tt
  order_last-IsLastFirst (x ∷ xs) =
      insert_last-IsLastFirst x (order_last xs) (order_last-IsLastFirst xs)

  pub IsLastFirst-take : (n : ℕ) (xs : List A) → IsLastFirst xs → IsLastFirst (take n xs)
  IsLastFirst-take zero xs d = tt
  IsLastFirst-take (suc n) [] d = tt
  IsLastFirst-take (suc n) (x ∷ xs) (dx, d) =
      (All-take (λ y. leb_text (text y) (text x) ≡ true) n xs dx, IsLastFirst-take n xs d)

  pub IsLastFirst-drop : (n : ℕ) (xs : List A) → IsLastFirst xs → IsLastFirst (drop n xs)
  IsLastFirst-drop zero xs d = d
  IsLastFirst-drop (suc n) [] d = tt
  IsLastFirst-drop (suc n) (x ∷ xs) (dx, d) = IsLastFirst-drop n xs d
