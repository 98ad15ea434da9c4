-- ===== src/Sqlite/Laws/Pages.antt =====
-- Ordering and paging of the rows of a query.
use blogengine.Prelude.{
  ℕ, zero, suc, ◌+◌, ◌≤◌, ◌≡◌, refl, sym, List, [], ◌∷◌, ◌++◌, All, All-take, All-drop, length,
  length-take, take, drop, arith,
}
use native.Mathlib.Nat.{zero-add, suc-add}
use blogengine.Prelude.Int.{ℤ, pos, negsuc}
use blogengine.Prelude.Text.{Text}
use blogengine.Prelude.TextSort.{IsLastFirst, IsLastFirst-take, IsLastFirst-drop}
use blogengine.Sqlite.Database.{limit_rows, offset_rows}

module _ {A : Type 0} (text : A → Text) where
  pub IsLastFirst-page :
      (offset limit : ℤ) (xs : List A)
      → IsLastFirst text xs
      → IsLastFirst text (limit_rows limit (offset_rows offset xs))
  unfolding limit_rows offset_rows
  IsLastFirst-page (pos o) (pos l) xs d =
      IsLastFirst-take text l (drop o xs) (IsLastFirst-drop text o xs d)
  IsLastFirst-page (pos o) (negsuc l) xs d = IsLastFirst-drop text o xs d
  IsLastFirst-page (negsuc o) (pos l) xs d = IsLastFirst-take text l xs d
  IsLastFirst-page (negsuc o) (negsuc l) xs d = d

module _ {A : Type 0} where
  pub All-page {κ} :
      (P : A → Type κ) (offset limit : ℤ) (xs : List A)
      → All P xs
      → All P (limit_rows limit (offset_rows offset xs))
  unfolding limit_rows offset_rows
  All-page P (pos o) (pos l) xs h = All-take P l (drop o xs) (All-drop P o xs h)
  All-page P (pos o) (negsuc l) xs h = All-drop P o xs h
  All-page P (negsuc o) (pos l) xs h = All-take P l xs h
  All-page P (negsuc o) (negsuc l) xs h = h

  pub length-limit : (n : ℕ) (xs : List A) → length (limit_rows (pos n) xs) ≤ n
  unfolding limit_rows
  length-limit n xs = omega (arith, length-take n xs)

  take-nil : (n : ℕ) → take {A = A} n [] ≡ []
  take-nil zero = refl
  take-nil (suc n) = refl

  drop-nil : (n : ℕ) → drop {A = A} n [] ≡ []
  drop-nil zero = refl
  drop-nil (suc n) = refl

  take-append-take : (m n : ℕ) (xs : List A) → take m xs ++ take n (drop m xs) ≡ take (m + n) xs
  take-append-take zero n xs = rw zero-add
  take-append-take (suc m) n [] = rw suc-add (take-nil n)
  take-append-take (suc m) n (x ∷ xs) = rw (suc-add, take-append-take m n xs)

  drop-drop : (m n : ℕ) (xs : List A) → drop (m + n) xs ≡ drop n (drop m xs)
  drop-drop zero n xs = rw zero-add
  drop-drop (suc m) n [] = rw suc-add (sym (drop-nil n))
  drop-drop (suc m) n (x ∷ xs) = rw suc-add (drop-drop m n xs)

  -- two pages that follow each other
  pub pages-append :
      (offset m n : ℕ) (xs : List A)
      → limit_rows (pos m) (offset_rows (pos offset) xs)
          ++ limit_rows (pos n) (offset_rows (pos (offset + m)) xs)
        ≡ limit_rows (pos (m + n)) (offset_rows (pos offset) xs)
  unfolding limit_rows offset_rows
  pages-append offset m n xs = rw (drop-drop offset m xs) (take-append-take m n (drop offset xs))
