-- ===== src/Middleware/Geo.antt =====
-- middleware/geostats.go: which country visitors come from, each counted once in a span of time.
-- Times are in nanoseconds; the order in which a map is iterated is an argument.
use blogengine.Prelude.{
  ℕ, suc, ◌+◌, ◌*◌, min, Bool, true, List, [], Option, none, some, take, length, ltb, if◌then◌else◌,
}
use blogengine.Prelude.Text.{Text, codes, is_empty}
use blogengine.Prelude.Sort.{order_desc}
use blogengine.Middleware.Assoc.{lookup, assign, drop_if}

pub record GeoStats : Type 0 where
  pub visitors : List (Text × ℕ)
  pub countries : List (Text × ℕ)

abbrev pub new_geo_stats : GeoStats
new_geo_stats = record { visitors = []; countries = [] }

-- 24 hours
abbrev pub validity : ℕ
validity = 24 * 3600 * 1000000000

-- lastSeen.Before(now - validity), and time.Since(lastSeen) > validity
abbrev pub is_expired : ℕ → ℕ → Bool
is_expired now last_seen = ltb (last_seen + validity) now

unfoldable pub cleanup : ℕ → GeoStats → GeoStats
cleanup now g = record g { visitors = drop_if (is_expired now) g.visitors }

-- a visitor that is not known, or not any more
unfoldable pub is_new : ℕ → Option ℕ → Bool
is_new now none = true
is_new now (some last_seen) = is_expired now last_seen

abbrev pub count_of : Option ℕ → ℕ
count_of none = 0
count_of (some n) = n

-- g.countries[code]++
unfoldable pub increment : Text → List (Text × ℕ) → List (Text × ℕ)
increment code m = assign code (suc (count_of (lookup code m))) m

abbrev pub code_or_unknown : Text → Text
code_or_unknown code = if is_empty code then codes "XX" else code

-- Record; `now` is the time of both calls of the clock
unfoldable pub record_visit : (ip country_code : Text) (now : ℕ) → GeoStats → GeoStats
unfolding is_new increment
record_visit ip country_code now g = if is_empty ip then g else record {
  visitors = assign ip now g.visitors;
  countries =
      if is_new now (lookup ip g.visitors)
      then increment (code_or_unknown country_code) g.countries
      else g.countries;
}

-- GetTopCountries, of the entries in the order of the iteration: slices.SortStableFunc sorts them
-- by descending count
unfoldable pub get_top_countries : ℕ → List (Text × ℕ) → List (Text × ℕ)
get_top_countries n entries =
    if ltb n 1 then [] else take (min n (length entries)) (order_desc (λ e. e.1) entries)
