-- ===== src/Sqlite/Invariant/Statements.antt =====
-- A table stays sound under the two statements that change it.
use blogengine.Prelude.{
  ℕ, suc, ◌≡◌, Bool, true, false, inl, inr, List, [], ◌∷◌, Option, some, find, All, any-eq-false,
  All-find, All-mono, arith, Option-cases,
}
use blogengine.Prelude.Int.{ℤ, pos, negsuc, ◌==ℤ◌, ==ℤ_comm}
use blogengine.Sqlite.Table.{Schema, done, replace, is_taken, insert, update}
use blogengine.Sqlite.Invariant.Tables.{
  is_given, meets, IsSound, IsSymmetric, IsFree, All-replace, Distinct-replace,
}

given-suc : (seq : ℕ) (k : ℤ) → is_given seq k ≡ true → is_given (suc seq) k ≡ true
given-suc seq (pos n) h = ground arith
given-suc seq (negsuc n) h = ground arith

given-next : (seq : ℕ) → is_given (suc seq) (pos (suc seq)) ≡ true
given-next seq = ground arith

pub next-fresh : (seq : ℕ) (k : ℤ) → is_given seq k ≡ true → (k ==ℤ pos (suc seq)) ≡ false
next-fresh seq (pos n) h = ground arith
next-fresh seq (negsuc n) h = ground arith

module _ {A : Type 0} (s : Schema A) where
  fresh-free :
      (seq : ℕ) (r : A) (rows : List A)
      → s.id r ≡ pos (suc seq)
      → All (λ x. is_given seq (s.id x) ≡ true) rows
      → All (IsFree s r) rows
      → All (λ x. meets s r x ≡ false) rows
  fresh-free seq r [] e g f = tt
  fresh-free seq r (x ∷ xs) e (gx, g) (fx, f) = (
    ground (arith, next-fresh seq (s.id x), ==ℤ_comm (s.id r) (s.id x)),
    fresh-free seq r xs e g f,
  )

  pub insert-IsSound :
      (seq : ℕ) (r : A) (refs : Bool) (rows : List A) {rows' : List A}
      → s.id r ≡ pos (suc seq)
      → IsSound s seq rows
      → insert s r refs rows ≡ done rows'
      → IsSound s (suc seq) rows'
  unfolding insert
  insert-IsSound seq r refs rows {rows'} e i h = subst_rows (ground arith) built
    where
      check_r : s.check r ≡ true
      check_r = ground arith

      free_r : is_taken s r rows ≡ false
      free_r = ground arith

      built : IsSound s (suc seq) (r ∷ rows)
      built = record {
        checked = (check_r, i.checked);
        distinct = (fresh-free seq r rows e i.given (any-eq-false _ rows free_r), i.distinct);
        given = (rw e (given-next seq), All-mono (λ x g. given-suc seq (s.id x) g) rows i.given);
      }

      subst_rows : rows' ≡ r ∷ rows → IsSound s (suc seq) (r ∷ rows) → IsSound s (suc seq) rows'
      subst_rows p b = rw p b

  module _ (symmetric : IsSymmetric s) (where_ : A → Bool) (assign trigger : A → A)
      (keeps : (x : A) → s.id (trigger (assign x)) ≡ s.id x) where
    replaced-IsSound :
        (seq : ℕ) (old : A) (rows : List A)
        → IsSound s seq rows
        → find where_ rows ≡ some old
        → s.check (trigger (assign old)) ≡ true
        → is_taken s (trigger (assign old)) rows ≡ false
        → IsSound s seq (replace s (trigger (assign old)) rows)
    replaced-IsSound seq old rows i found check free =
        let r = trigger (assign old) in
        record {
          checked = All-replace s (λ x. s.check x ≡ true) r rows check i.checked;
          distinct = Distinct-replace s symmetric r rows i.distinct (any-eq-false _ rows free);
          given =
              All-replace s (λ x. is_given seq (s.id x) ≡ true) r rows
                (rw (keeps old)
                  (All-find (λ x. is_given seq (s.id x) ≡ true) where_ rows i.given found))
                i.given;
        }

    pub update-IsSound :
        (seq : ℕ) (rows : List A) (hit : Option A) (rows' : List A)
        → IsSound s seq rows
        → update s where_ assign trigger rows ≡ done (hit, rows')
        → IsSound s seq rows'
    unfolding update
    update-IsSound seq rows hit rows' i h = elim (Option-cases (find where_ rows)) [
      | inl e ↦ keep (ground arith)
      | inr (old, e) ↦ moved old e
    ]
      where
        keep : rows' ≡ rows → IsSound s seq rows'
        keep p = rw p i

        moved : (old : A) → find where_ rows ≡ some old → IsSound s seq rows'
        moved old e =
            let p : rows' ≡ replace s (trigger (assign old)) rows = ground arith in
            rw p (replaced-IsSound seq old rows i e (ground arith) (ground arith))
