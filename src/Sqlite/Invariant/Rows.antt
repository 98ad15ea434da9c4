-- ===== src/Sqlite/Invariant/Rows.antt =====
-- What an INSERT or an UPDATE keeps of each row, and of the keys that are present.
use blogengine.Prelude.{
  ◌≡◌, refl, Bool, true, inl, inr, ◌⊎◌, List, [], ◌∷◌, Option, none, some, find, any, All, All-find,
  arith, Option-cases,
}
use blogengine.Prelude.Int.{ℤ, ◌==ℤ◌, ==ℤ_iff}
use blogengine.Errors.{Sentinel}
use blogengine.Sqlite.Table.{Schema, Reply, done, failed, replace, insert, update}
use blogengine.Sqlite.Database.{Call}
use blogengine.Sqlite.Query.{exec}
use blogengine.Sqlite.Invariant.Tables.{All-replace}

pub Reply-cases :
    {A : Type 0} (r : Reply A) → ((e : Sentinel) × (r ≡ failed e)) ⊎ ((a : A) × (r ≡ done a))
Reply-cases (done a) = inr (a, refl)
Reply-cases (failed e) = inl (e, refl)

pub exec-done : {A : Type 0} (c : Call) (r : Reply A) {a : A} → exec c r ≡ done a → r ≡ done a
exec-done c r h = ground arith

module _ {A : Type 0} (s : Schema A) where
  pub insert-done :
      (r : A) (refs : Bool) (rows : List A) {rows' : List A}
      → insert s r refs rows ≡ done rows'
      → (rows' ≡ r ∷ rows) × (refs ≡ true)
  unfolding insert
  insert-done r refs rows h = ground arith

  abbrev pub has_key : ℤ → List A → Bool
  has_key k = any (λ x. s.id x ==ℤ k)

  has_key-replace : (k : ℤ) (r : A) (rows : List A) → has_key k (replace s r rows) ≡ has_key k rows
  unfolding replace
  has_key-replace k r [] = refl
  has_key-replace k r (x ∷ xs) = ground (arith, has_key-replace k r xs, ==ℤ_iff (s.id x) (s.id r))

  module _ (where_ : A → Bool) (assign trigger : A → A) where
    pub update-done :
        (rows : List A) (hit : Option A) (rows' : List A)
        → update s where_ assign trigger rows ≡ done (hit, rows')
        → ((hit ≡ none) × (find where_ rows ≡ none) × (rows' ≡ rows))
          ⊎ ((old : A) × (find where_ rows ≡ some old)
              × (hit ≡ some (assign old))
              × (rows' ≡ replace s (trigger (assign old)) rows))
    unfolding update
    update-done rows hit rows' h = elim (Option-cases (find where_ rows)) [
      | inl e ↦ inl (ground arith, e, ground arith)
      | inr (old, e) ↦ inr (old, e, ground arith, ground arith)
    ]

    pub has_key-update :
        (k : ℤ) (rows : List A) (hit : Option A) (rows' : List A)
        → update s where_ assign trigger rows ≡ done (hit, rows')
        → has_key k rows' ≡ has_key k rows
    has_key-update k rows hit rows' h = elim (update-done rows hit rows' h) [
      | inl (_, _, p) ↦ rw p
      | inr (old, _, _, p) ↦ rw p (has_key-replace k (trigger (assign old)) rows)
    ]

    pub All-update {κ} :
        (P : A → Type κ)
        → ((x : A) → P x → P (trigger (assign x)))
        → (rows : List A) (hit : Option A) (rows' : List A) → All P rows
        → update s where_ assign trigger rows ≡ done (hit, rows')
        → All P rows'
    All-update P keeps rows hit rows' a h = elim (update-done rows hit rows' h) [
      | inl (_, _, p) ↦ rw p a
      | inr (old, found, _, p) ↦ rw p (
          All-replace s P (trigger (assign old)) rows (keeps old (All-find P where_ rows a found))
            a)
    ]
