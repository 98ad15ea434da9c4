-- ===== src/Sqlite/Laws/Validation.antt =====
-- The checks of the store against independent descriptions of what they accept.
use blogengine.Prelude.{
  ℕ, ◌≤◌, ◌≡◌, ◌↔◌, ◌⊎◌, inl, inr, Bool, true, false, [], ◌∷◌, ◌++◌, arith, Bool-cases,
}
use blogengine.Prelude.Text.{Text}
use blogengine.Sqlite.Validate.{is_slug_char, slug_run, valid_slug}

-- a letter a-z or a digit
abbrev pub IsSlugChar : ℕ → Type 0
IsSlugChar c = ((97 ≤ c) × (c ≤ 122)) ⊎ ((48 ≤ c) × (c ≤ 57))

-- [a-z0-9]+
pub data IsWord : Text → Type 0 where
  one : (c : ℕ) → IsSlugChar c → IsWord (c ∷ [])
  more : (c : ℕ) {s : Text} → IsSlugChar c → IsWord s → IsWord (c ∷ s)

-- ^[a-z0-9]+(?:-[a-z0-9]+)*$
pub data MatchesSlug : Text → Type 0 where
  word : {s : Text} → IsWord s → MatchesSlug s
  join : (w : Text) {s : Text} → IsWord w → MatchesSlug s → MatchesSlug (w ++ 45 ∷ s)

IsSlugChar-sound : (c : ℕ) → is_slug_char c ≡ true → IsSlugChar c
IsSlugChar-sound c h = ground arith

IsSlugChar-complete : (c : ℕ) → IsSlugChar c → is_slug_char c ≡ true
IsSlugChar-complete c h = ground arith

-- a match goes on by one more letter at its front
cons-MatchesSlug : (c : ℕ) {s : Text} → IsSlugChar c → MatchesSlug s → MatchesSlug (c ∷ s)
cons-MatchesSlug c h (word w) = word (more c h w)
cons-MatchesSlug c h (join w v m) = join (c ∷ w) (more c h v) m

-- what the automaton accepts before, and after, a letter
abbrev Accepted : Text → Type 0
Accepted s =
    (slug_run true s ≡ true → MatchesSlug s)
    × ((c : ℕ) → IsSlugChar c → slug_run false s ≡ true → MatchesSlug (c ∷ s))

Accepted-outside :
    (d : ℕ) (s : Text) → Accepted s → slug_run true (d ∷ s) ≡ true → MatchesSlug (d ∷ s)
unfolding slug_run
Accepted-outside d s ih h = elim (Bool-cases (is_slug_char d)) [
  | inl e ↦ ih.1 d (IsSlugChar-sound d e) (ground arith)
  | inr e ↦ absurd (ground arith)
]

Accepted-inside :
    (d : ℕ) (s : Text)
    → Accepted s
    → (c : ℕ) → IsSlugChar c
    → slug_run false (d ∷ s) ≡ true
    → MatchesSlug (c ∷ d ∷ s)
unfolding slug_run
Accepted-inside d s ih c k h = elim (Bool-cases (is_slug_char d)) [
  | inl e ↦ cons-MatchesSlug c k (ih.1 d (IsSlugChar-sound d e) (ground arith))
  | inr e ↦
      let same : d ≡ 45 = ground arith in
      let m : MatchesSlug s = ih.0 (ground arith) in rw same (join (c ∷ []) (one c k) m)
]

slug_run_sound : (s : Text) → Accepted s
unfolding slug_run
slug_run_sound [] = (λ h. ground arith, λ c k h. word (one c k))
slug_run_sound (d ∷ s) =
    let ih = slug_run_sound s in (Accepted-outside d s ih, Accepted-inside d s ih)

word_run : (need : Bool) {w : Text} → IsWord w → slug_run need w ≡ true
unfolding slug_run
word_run need (one c k) = rw (IsSlugChar-complete c k)
word_run need (more c k v) = rw (IsSlugChar-complete c k, word_run false v)

word_join :
    (need : Bool) {w : Text} (s : Text) → IsWord w → slug_run need (w ++ 45 ∷ s) ≡ slug_run true s
unfolding slug_run
word_join need s (one c k) = rw (IsSlugChar-complete c k)
word_join need s (more c k v) = rw (IsSlugChar-complete c k, word_join false s v)

slug_run_complete : {s : Text} → MatchesSlug s → slug_run true s ≡ true
slug_run_complete (word w) = word_run true w
slug_run_complete (join w {s} v m) = rw (word_join true s v) (slug_run_complete m)

-- The slug test accepts exactly the texts that the expression ^[a-z0-9]+(?:-[a-z0-9]+)*$ matches.
pub valid_slug_iff : (s : Text) → (valid_slug s ≡ true) ↔ MatchesSlug s
unfolding valid_slug
valid_slug_iff s = ((slug_run_sound s).0, slug_run_complete)
