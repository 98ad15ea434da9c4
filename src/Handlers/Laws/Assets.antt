-- ===== src/Handlers/Laws/Assets.antt =====
-- handlers/assets.go: which answer the URL of an image gets.
use blogengine.Prelude.{
  ℕ, ◌≡◌, refl, sym, ap, ◌∙◌, inl, inr, ◌⊎◌, Bool, true, false, [], ◌∷◌, ◌++◌, some, any, all, not,
  ◌==◌, arith, Bool-cases,
}
use blogengine.Prelude.Text.{Text, codes}
use blogengine.Strconv.{parse_int, digits_value, itoa, itoa_from}
use blogengine.Middleware.Assoc.{assign, lookup-assign, lookup-assign_other}
use blogengine.Http.{Headers, Writer, set_header, status, header}
use blogengine.Http.Headers.{fresh, status-write, header-write, body-write}
use blogengine.Storage.S3.{open_key, exists_key}
use blogengine.Content.Assets.{AssetManager, get_relative_path}
use blogengine.Content.Images.{variant_key}
use blogengine.Content.Processor.{Processor}
use blogengine.Handlers.Assets.{
  AssetHandler, split_on, two_parts, parse_key, supported_widths, retrieve, serve_hit, enqueue_all,
  send_original, serve_miss, serve, mime_type,
}

-- no underscore: the text of a UUID has digits, letters from a to f, and hyphens
abbrev pub is_plain : Text → Bool
is_plain s = all (λ c. not (c == b'_')) s

split_on-plain :
    (s t : Text) → is_plain s ≡ true → split_on b'_' (s ++ (b'_' ∷ t)) ≡ s ∷ split_on b'_' t
unfolding split_on
split_on-plain [] t h = refl
split_on-plain (c ∷ s) t h = rw (split_on-plain s t (ground (arith, h))) (ground (arith, h))

-- the widths by cases
supported_cases :
    (w : ℕ) → any (λ v. v == w) supported_widths ≡ true → (w ≡ 800) ⊎ ((w ≡ 1200) ⊎ (w ≡ 1920))
supported_cases w h = ground arith

parts_of_width :
    (id : Text) (w : ℕ)
    → any (λ v. v == w) supported_widths ≡ true
    → two_parts (id ∷ split_on b'_' (itoa w)) ≡ some (id, w)
unfolding split_on itoa itoa_from parse_int digits_value
parts_of_width id w k = elim (supported_cases w k) [
  | inl e ↦ rw e refl
  | inr (inl e) ↦ rw e refl
  | inr (inr e) ↦ rw e refl
]

pub parse_key_lem :
    (id : Text) (w : ℕ)
    → is_plain id ≡ true
    → any (λ v. v == w) supported_widths ≡ true
    → parse_key (id ++ (b'_' ∷ itoa w)) ≡ some (id, w)
unfolding parse_key
parse_key_lem id w h k = rw (split_on-plain id (itoa w) h) (parts_of_width id w k)

module _ {B : Type 0} (h : AssetHandler B) where
  -- the answer to a key whose variant is in the bucket: its bytes
  abbrev pub IsHit : Text → B → Writer → Type 0
  IsHit variant b r =
      (status r ≡ 200)
      × (header (codes "X-Cache") r ≡ some (codes "HIT"))
      × (header (codes "Content-Type") r ≡ some (codes "image/webp"))
      × (open_key h.bucket variant b ≡ some r.body)

  -- the answer to a key whose variant is not there: the bytes of the original
  abbrev pub IsMiss : (path source : Text) → Writer → Type 0
  IsMiss path source r =
      (status r ≡ 200)
      × (header (codes "X-Cache") r ≡ some (codes "MISS"))
      × (header (codes "Content-Type") r ≡ some (mime_type h path))
      × (r.body ≡ source)

  pub serve_hit-IsHit :
      (variant bytes : Text) (b : B) (hs : Headers)
      → open_key h.bucket variant b ≡ some bytes
      → IsHit variant b (serve_hit h variant b (fresh hs))
  unfolding serve_hit set_header
  serve_hit-IsHit variant bytes b hs e =
      let h1 = assign (codes "X-Cache") (codes "HIT") hs in
      let h2 = assign (codes "Content-Type") (codes "image/webp") h1 in
      let h3 = assign (codes "Cache-Control") (codes "public, max-age=31536000, immutable") h2 in
      rw (e, serve_hit)
        (
          status-write bytes h3,
          header-write (codes "X-Cache") bytes h3
              ∙ lookup-assign_other (codes "Cache-Control") (codes "X-Cache")
                  (codes "public, max-age=31536000, immutable") h2 refl
              ∙ lookup-assign_other (codes "Content-Type") (codes "X-Cache") (codes "image/webp") h1
                  refl
              ∙ lookup-assign (codes "X-Cache") (codes "HIT") hs,
          header-write (codes "Content-Type") bytes h3
              ∙ lookup-assign_other (codes "Cache-Control") (codes "Content-Type")
                  (codes "public, max-age=31536000, immutable") h2 refl
              ∙ lookup-assign (codes "Content-Type") (codes "image/webp") h1,
          ap some (sym (body-write bytes h3)),
        )

  send_original-IsMiss :
      (path uuid source : Text) (am : AssetManager) (b : B) (hs : Headers)
      → retrieve h uuid am b ≡ some source
      → IsMiss path source
          (send_original h path uuid am b (fresh (assign (codes "X-Cache") (codes "MISS") hs)))
  unfolding send_original set_header
  send_original-IsMiss path uuid source am b hs e =
      let h1 = assign (codes "X-Cache") (codes "MISS") hs in
      let h2 = assign (codes "Content-Type") (mime_type h path) h1 in
      rw (e, send_original)
        (
          status-write source h2,
          header-write (codes "X-Cache") source h2
              ∙ lookup-assign_other (codes "Content-Type") (codes "X-Cache") (mime_type h path) h1
                  refl
              ∙ lookup-assign (codes "X-Cache") (codes "MISS") hs,
          header-write (codes "Content-Type") source h2
              ∙ lookup-assign (codes "Content-Type") (mime_type h path) h1,
          body-write source h2,
        )

  retrieve_lem :
      (uuid path source : Text) (am : AssetManager) (b : B)
      → get_relative_path h.clean h.new_v5 h.nil_uuid uuid am ≡ some path
      → open_key h.bucket path b ≡ some source
      → retrieve h uuid am b ≡ some source
  unfolding retrieve
  retrieve_lem uuid path source am b known e = rw (known, retrieve) e

  module _ (done : ℕ → Bool) (uuid : Text) (w : ℕ) (am : AssetManager) (b : B) (hs : Headers)
      (p : Processor) (plain : is_plain uuid ≡ true)
      (listed : any (λ v. v == w) supported_widths ≡ true)
      (own : h.from_string uuid ≡ some uuid) where
    pub serve-hit :
        exists_key h.bucket (variant_key uuid w) b ≡ true
        → serve h done (uuid ++ (b'_' ∷ itoa w)) am b (fresh hs, p)
          ≡ (serve_hit h (variant_key uuid w) b (fresh hs), p)
    unfolding serve
    serve-hit e = rw (parse_key_lem uuid w plain listed, serve) (rw (own, serve) (rw e refl))

    pub serve-miss :
        {path : Text}
        → exists_key h.bucket (variant_key uuid w) b ≡ false
        → get_relative_path h.clean h.new_v5 h.nil_uuid uuid am ≡ some path
        → serve h done (uuid ++ (b'_' ∷ itoa w)) am b (fresh hs, p) ≡ (
          send_original h path uuid am b (fresh (assign (codes "X-Cache") (codes "MISS") hs)),
          enqueue_all h done path uuid supported_widths p,
        )
    unfolding serve serve_miss set_header
    serve-miss e known =
        rw (parse_key_lem uuid w plain listed, serve)
          (rw (own, serve) (rw (e, serve_miss) (rw (known, serve_miss) refl)))

  -- The URL of an image whose path is known, for each of the three widths, is answered with 200: with
  -- the bytes of the variant if it is in the bucket, and else with those of the original, and then the
  -- three variants are asked for. (The text of a UUID parses to itself and has no underscore, the
  -- original can be opened, and so can the variant if the bucket says that it is there.)
  pub serve_known_image :
      (done : ℕ → Bool) (uuid : Text) (w : ℕ) (path source : Text) (am : AssetManager) (b : B)
      (hs : Headers) (p : Processor)
      → is_plain uuid ≡ true
      → any (λ v. v == w) supported_widths ≡ true
      → h.from_string uuid ≡ some uuid
      → get_relative_path h.clean h.new_v5 h.nil_uuid uuid am ≡ some path
      → open_key h.bucket path b ≡ some source
      → (exists_key h.bucket (variant_key uuid w) b ≡ true
          → (bytes : Text) × (open_key h.bucket (variant_key uuid w) b ≡ some bytes))
      → let r = serve h done (uuid ++ (b'_' ∷ itoa w)) am b (fresh hs, p) in
        ((exists_key h.bucket (variant_key uuid w) b ≡ true)
          × IsHit (variant_key uuid w) b r.0
          × (r.1 ≡ p))
        ⊎ ((exists_key h.bucket (variant_key uuid w) b ≡ false)
            × IsMiss path source r.0
            × (r.1 ≡ enqueue_all h done path uuid supported_widths p))
  serve_known_image done uuid w path source am b hs p plain listed own known opened there =
      elim (Bool-cases (exists_key h.bucket (variant_key uuid w) b)) [
        | inl e ↦ inl (
            rw (serve-hit done uuid w am b hs p plain listed own e)
              (e, serve_hit-IsHit (variant_key uuid w) (there e).0 b hs (there e).1, refl))
        | inr e ↦ inr (
            rw (serve-miss done uuid w am b hs p plain listed own e known) (
              e,
              send_original-IsMiss path uuid source am b hs
                  (retrieve_lem uuid path source am b known opened),
              refl,
            ))
      ]
