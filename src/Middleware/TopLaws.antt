-- ===== src/Middleware/TopLaws.antt =====
-- middleware/geostats.go: what GetTopCountries returns, in whatever order the map is iterated.
use mathlib.Core.List.{Perm}
use blogengine.Prelude.{ℕ, ◌≤◌, ◌≡◌, min, List, ◌++◌, All, arith, length, take, drop, length-take}
use blogengine.Prelude.Text.{Text}
use blogengine.Prelude.Sort.{
  order_desc, IsDesc, IsDesc-take, order_desc-IsDesc, order_desc-Perm, take-IsDesc,
  length-order_desc, take-append-drop,
}
use blogengine.Middleware.Geo.{get_top_countries}

-- GetTopCountries returns as many countries as were asked for, or all of them if there are fewer, in
-- descending order of their counts; with those that it leaves out they are the countries of the map,
-- and no country that is left out has more visitors than one that is returned.
pub get_top_countries_lem :
    (n : ℕ) (entries : List (Text × ℕ))
    → 1 ≤ n
    → (length (get_top_countries n entries) ≡ min n (length entries))
      × IsDesc (λ e. e.1) (get_top_countries n entries)
      × ((rest : List (Text × ℕ)) × Perm (get_top_countries n entries ++ rest) entries
          × All (λ e. All (λ f. f.1 ≤ e.1) rest) (get_top_countries n entries))
unfolding get_top_countries
get_top_countries_lem n entries h =
    let sorted = order_desc (λ e. e.1) entries in
    let k = min n (length entries) in
    let desc = order_desc-IsDesc (λ e. e.1) entries in
    let same : get_top_countries n entries ≡ take k sorted = ground arith in
    rw same (
      omega (arith, length-take k sorted, length-order_desc (λ e. e.1) entries),
      IsDesc-take (λ e. e.1) k sorted desc,
      (
        drop k sorted,
        rw (take-append-drop (λ e. e.1) k sorted) (order_desc-Perm (λ e. e.1) entries),
        take-IsDesc (λ e. e.1) k sorted desc,
      ),
    )
