-- ===== src/Middleware/GeoLaws.antt =====
-- middleware/geostats.go: what a visit counts, and that the cleanup cannot be seen in the counts.
use blogengine.Prelude.{
  ℕ, suc, ◌+◌, ◌≤◌, ◌≡◌, refl, sym, true, false, List, [], ◌∷◌, some, inl, inr, arith, Bool-cases,
  Option-cases, if◌then◌else◌,
}
use blogengine.Prelude.Text.{Text, is_empty, text_eq}
use blogengine.Middleware.Assoc.{
  lookup, assign, drop_if, lookup-assign, lookup-drop_if, lookup-drop_if-none, lookup-drop_if_gone,
  IsMap,
}
use blogengine.Middleware.Geo.{
  GeoStats, validity, is_expired, is_new, cleanup, record_visit, increment, code_or_unknown,
}

is_new_soon : (now later : ℕ) → later ≤ now + validity → is_new later (some now) ≡ false
unfolding is_new
is_new_soon now later h = ground arith

-- A second visit from one address within 24 hours of the first counts for no country.
pub record_visit_again :
    (ip code code' : Text) (now later : ℕ) (g : GeoStats)
    → later ≤ now + validity
    → (record_visit ip code' later (record_visit ip code now g)).countries
      ≡ (record_visit ip code now g).countries
unfolding record_visit
record_visit_again ip code code' now later g soon = elim (Bool-cases (is_empty ip)) [
  | inl e ↦ ground (arith, e)
  | inr e ↦
      let known = lookup-assign ip now g.visitors in
      ground (arith, e, known, is_new_soon now later soon)
]

abbrev pub total : List (Text × ℕ) → ℕ
total [] = 0
total ((k, n) ∷ m) = n + total m

total-increment : (code : Text) (m : List (Text × ℕ)) → total (increment code m) ≡ suc (total m)
unfolding increment lookup assign
total-increment code [] = refl
total-increment code ((k, n) ∷ m) = elim (Bool-cases (text_eq k code)) [
  | inl e ↦ ground (arith, e)
  | inr e ↦ ground (arith, e, total-increment code m)
]

-- A visit adds one to the sum of the counts if the address was not seen in the last 24 hours, and
-- nothing otherwise.
pub total-record_visit :
    (ip code : Text) (now : ℕ) (g : GeoStats)
    → is_empty ip ≡ false
    → total (record_visit ip code now g).countries
      ≡ (if is_new now (lookup ip g.visitors) then suc (total g.countries) else total g.countries)
unfolding record_visit
total-record_visit ip code now g e = elim (Bool-cases (is_new now (lookup ip g.visitors))) [
  | inl n ↦ ground (arith, e, n, total-increment (code_or_unknown code) g.countries)
  | inr n ↦ ground (arith, e, n)
]

expired_later :
    (now later t : ℕ) → now ≤ later → is_expired now t ≡ true → is_expired later t ≡ true
expired_later now later t h e = ground arith

is_new-cleanup :
    (ip : Text) (now later : ℕ) (visitors : List (Text × ℕ))
    → IsMap visitors
    → now ≤ later
    → is_new later (lookup ip (drop_if (is_expired now) visitors))
      ≡ is_new later (lookup ip visitors)
unfolding is_new
is_new-cleanup ip now later visitors d h = elim (Option-cases (lookup ip visitors)) [
  | inl n ↦ ground (arith, n, lookup-drop_if-none (is_expired now) ip visitors n)
  | inr (t, f) ↦ elim (Bool-cases (is_expired now t)) [
    | inl e ↦
        let gone = lookup-drop_if_gone (is_expired now) ip visitors {v = t} d f e in
        rw (gone, f) (sym (expired_later now later t h e))
    | inr e ↦ rw (f, lookup-drop_if (is_expired now) ip visitors {v = t} f e) refl
  ]
]

-- The cleanup forgets only visits that no later visit can meet: the counts after any later visit are
-- the same with and without it.
pub cleanup_unseen :
    (ip code : Text) (now later : ℕ) (g : GeoStats)
    → IsMap g.visitors
    → now ≤ later
    → (record_visit ip code later (cleanup now g)).countries
      ≡ (record_visit ip code later g).countries
unfolding record_visit cleanup
cleanup_unseen ip code now later g d h = ground (arith, is_new-cleanup ip now later g.visitors d h)
