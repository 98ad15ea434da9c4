-- ===== src/Router/Laws.antt =====
-- internal/router/router.go: what a client that is refused gets, and which routes take forms.
use blogengine.Prelude.{◌≡◌, refl, ap, Bool, true, false, ◌||◌, List, [], ◌∷◌, arith}
use blogengine.Prelude.Text.{Text, codes, text_eq_sound}
use blogengine.Router.{
  Route, not_found, about, privacy, terms, contact, is_get, is_post, route_one, route_blogs, route,
  is_guarded, root_route,
}

route_one-guarded :
    (method s : Text) → is_guarded (route_one method s) ≡ true → is_post method ≡ true
unfolding route_one
route_one-guarded method s h = ground arith

route_blogs-guarded :
    (method : Text) (segs : List Text)
    → is_guarded (route_blogs method segs) ≡ true
    → is_post method ≡ true
unfolding route_blogs
route_blogs-guarded method [] h = ground arith
route_blogs-guarded method (a ∷ []) h = ground arith
route_blogs-guarded method (a ∷ b ∷ []) h = ground arith
route_blogs-guarded method (a ∷ b ∷ c ∷ []) h = ground arith
route_blogs-guarded method (a ∷ b ∷ c ∷ d ∷ []) h = ground arith
route_blogs-guarded method (a ∷ b ∷ c ∷ d ∷ e ∷ []) h = ground arith
route_blogs-guarded method (a ∷ b ∷ c ∷ d ∷ e ∷ f ∷ segs) h = ground arith

route-guarded :
    (method : Text) (segs : List Text)
    → is_guarded (route method segs) ≡ true
    → is_post method ≡ true
unfolding route
route-guarded method [] h = ground arith
route-guarded method (s ∷ []) h = route_one-guarded method s h
route-guarded method (s ∷ t ∷ []) h = ground (arith, route_blogs-guarded method (t ∷ []))
route-guarded method (s ∷ t ∷ u ∷ rest) h =
    ground (arith, route_blogs-guarded method (t ∷ u ∷ rest))

pub not_get : (method : Text) → is_post method ≡ true → is_get method ≡ false
not_get method h = ap is_get (text_eq_sound method (codes "POST") h)

-- the handlers of pages that show the same to every method
abbrev pub is_open : Route → Bool
is_open about = true
is_open privacy = true
is_open terms = true
is_open contact = true
is_open not_found = true
is_open _ = false

abbrev takes_post : Route → Bool
takes_post to = is_guarded to || is_open to

route_one-post : (method s : Text) → is_post method ≡ true → takes_post (route_one method s) ≡ true
unfolding route_one
route_one-post method s h = ground (arith, not_get method h, h)

route_blogs-post :
    (method : Text) (segs : List Text)
    → is_post method ≡ true
    → takes_post (route_blogs method segs) ≡ true
unfolding route_blogs
route_blogs-post method [] h = refl
route_blogs-post method (a ∷ []) h = ground (arith, not_get method h, h)
route_blogs-post method (a ∷ b ∷ []) h = ground (arith, not_get method h, h)
route_blogs-post method (a ∷ b ∷ c ∷ []) h = ground (arith, not_get method h, h)
route_blogs-post method (a ∷ b ∷ c ∷ d ∷ []) h = ground (arith, not_get method h, h)
route_blogs-post method (a ∷ b ∷ c ∷ d ∷ e ∷ []) h = ground (arith, not_get method h, h)
route_blogs-post method (a ∷ b ∷ c ∷ d ∷ e ∷ f ∷ segs) h = refl

route-post :
    (method : Text) (segs : List Text)
    → is_post method ≡ true
    → takes_post (route method segs) ≡ true
unfolding route
route-post method [] h = refl
route-post method (s ∷ []) h = route_one-post method s h
route-post method (s ∷ t ∷ []) h =
    ground (arith, not_get method h, route_blogs-post method (t ∷ []) h)
route-post method (s ∷ t ∷ u ∷ rest) h =
    ground (arith, not_get method h, route_blogs-post method (t ∷ u ∷ rest) h)

-- The five forms, which change accounts, sessions and comments, are reached by POST alone, behind the
-- strict limiter; and a POST reaches nothing else but the four pages of plain text and the page for
-- what is not found.
pub forms_take_post :
    (method : Text) (segs : List Text)
    → (is_guarded (root_route method segs) ≡ true → is_post method ≡ true)
      × (is_post method ≡ true
          → (is_guarded (root_route method segs) || is_open (root_route method segs)) ≡ true)
unfolding root_route
forms_take_post method [] = (λ h. route-guarded method [] h, λ h. route-post method [] h)
forms_take_post method (s ∷ []) = (
  λ h. ground (arith, h, route-guarded method (s ∷ [])),
  λ h. ground (arith, not_get method h, route-post method (s ∷ []) h),
)
forms_take_post method (s ∷ t ∷ rest) =
    (λ h. route-guarded method (s ∷ t ∷ rest) h, λ h. route-post method (s ∷ t ∷ rest) h)
