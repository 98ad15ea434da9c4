-- ===== src/Sqlite/Laws/Zones.antt =====
-- posts.go: how the queries of posts compare a stored time with CURRENT_TIMESTAMP.
use blogengine.Prelude.{ℕ, ◌≡◌, refl, not, ◌&&◌, [], ◌∷◌, ◌++◌, some, length, arith}
use blogengine.Prelude.Text.{Text, text_eq}
use blogengine.Prelude.TextSort.{leb_text}
use blogengine.Sqlite.Posts.Queries.{is_published}

-- Only the date and the time of day that are written in a post's time of publication decide whether its
-- time has come, and the rest, its fraction of a second and its zone, is ignored: the test passes if
-- that date and time come before CURRENT_TIMESTAMP as a text of the same length, and not in the same second.
pub zone_is_ignored :
    (date timestamp zone : Text) (c : ℕ)
    → length date ≡ length timestamp
    → is_published timestamp (some (date ++ c ∷ zone))
      ≡ (leb_text date timestamp && not (text_eq date timestamp))
zone_is_ignored [] [] zone c h = refl
zone_is_ignored [] (b ∷ t) zone c h = absurd (ground (arith, h))
zone_is_ignored (a ∷ d) [] zone c h = absurd (ground (arith, h))
zone_is_ignored (a ∷ d) (b ∷ t) zone c h =
    ground (arith, zone_is_ignored d t zone c (ground (arith, h)))
