-- ===== src/Handlers/Assets.antt =====
-- handlers/assets.go: the images of a post, by the UUID of their path and a width. uuid.FromString
-- followed by String, and mime.TypeByExtension, are parameters. A copy that is interrupted, the
-- counters and the spans are left out.
use blogengine.Prelude.{
  ℕ, Bool, not, ◌&&◌, ◌||◌, List, [], ◌∷◌, Option, none, some, any, ◌==◌, if◌then◌else◌,
}
use blogengine.Prelude.Int.{ℤ, pos, negsuc}
use blogengine.Prelude.Text.{Text, codes, is_empty}
use blogengine.Strconv.{parse_int}
use blogengine.Http.{Writer, set_header, write, http_error, http_not_found}
use blogengine.Storage.S3.{Bucket, open_key, exists_key}
use blogengine.Content.Assets.{AssetManager, get_relative_path}
use blogengine.Content.Images.{ImageJob, variant_key}
use blogengine.Content.Processor.{Processor, enqueue}

abbrev first_part : ℕ → List Text → List Text
first_part c [] = (c ∷ []) ∷ []
first_part c (part ∷ parts) = (c ∷ part) ∷ parts

-- strings.Split(s, sep), of one byte
unfoldable pub split_on : ℕ → Text → List Text
split_on sep [] = [] ∷ []
split_on sep (c ∷ s) =
    let rest = split_on sep s in if c == sep then [] ∷ rest else first_part c rest

abbrev is_separator : ℕ → Bool
is_separator c = c == b'.' || c == b'/'

-- filepath.Ext
unfoldable pub ext : Text → Text
ext [] = []
ext (c ∷ s) = let rest = ext s in if c == b'.' && not (any is_separator s) then c ∷ s else rest

abbrev pub supported_widths : List ℕ
supported_widths = 800 ∷ 1200 ∷ 1920 ∷ []

-- the width, if it is one of them
abbrev supported : Option ℤ → Option ℕ
supported (some (pos n)) = if any (λ w. w == n) supported_widths then some n else none
supported (some (negsuc n)) = none
supported none = none

abbrev with_width : Text → Option ℕ → Option (Text × ℕ)
with_width id none = none
with_width id (some width) = some (id, width)

abbrev pub two_parts : List Text → Option (Text × ℕ)
two_parts [] = none
two_parts (id ∷ []) = none
two_parts (id ∷ width ∷ []) = with_width id (supported (parse_int width))
two_parts (id ∷ width ∷ more ∷ parts) = none

-- "<uuid>_<width>": none where the handler answers 404
unfoldable pub parse_key : Text → Option (Text × ℕ)
unfolding split_on parse_int
parse_key key = two_parts (split_on b'_' key)

pub record AssetHandler (B : Type 0) : Type 0 where
  pub clean : Text → Text
  pub new_v5 : Text → Text
  pub nil_uuid : Text
  pub from_string : Text → Option Text
  pub type_by_extension : Text → Text
  pub bucket : Bucket B

module _ {B : Type 0} (h : AssetHandler B) where
  -- AssetManager.Retrieve; none is one of its errors
  unfoldable pub retrieve : Text → AssetManager → B → Option Text
  unfolding get_relative_path open_key
  retrieve uuid am b = elim (get_relative_path h.clean h.new_v5 h.nil_uuid uuid am) [
    | none ↦ none
    | some path ↦ open_key h.bucket path b
  ]

  -- AssetManager.RetrieveKey and Exists
  abbrev pub retrieve_key : Text → B → Option Text
  retrieve_key key b = open_key h.bucket key b

  abbrev pub exists : Text → B → Bool
  exists key b = exists_key h.bucket key b

  -- the variant is there
  unfoldable pub serve_hit : Text → B → Writer → Writer
  unfolding set_header write http_not_found
  serve_hit key b w =
      let v = set_header (codes "Cache-Control") (codes "public, max-age=31536000, immutable") (
        set_header (codes "Content-Type") (codes "image/webp")
          (set_header (codes "X-Cache") (codes "HIT") w)) in
      elim (retrieve_key key b) [ none ↦ http_not_found v | some bytes ↦ write bytes v ]

  abbrev pub job_of : (path uuid : Text) → ℕ → ImageJob
  job_of path uuid width = record { source_path = path; id = uuid; width = width }

  -- the loop over wantedWidths; `done` says of a width whether the context had ended
  unfoldable pub enqueue_all : (ℕ → Bool) → (path uuid : Text) → List ℕ → Processor → Processor
  unfolding enqueue
  enqueue_all done path uuid [] p = p
  enqueue_all done path uuid (width ∷ widths) p =
      enqueue_all done path uuid widths (enqueue (done width) (job_of path uuid width) p).1

  abbrev pub mime_type : Text → Text
  mime_type path =
      let known = h.type_by_extension (ext path) in
      if is_empty known then codes "application/octet-stream" else known

  -- the path is known: the original is sent
  unfoldable pub send_original : (path uuid : Text) → AssetManager → B → Writer → Writer
  unfolding retrieve set_header write http_not_found ext
  send_original path uuid am b w = elim (retrieve uuid am b) [
    | none ↦ http_not_found w
    | some bytes ↦ write bytes (set_header (codes "Content-Type") (mime_type path) w)
  ]

  -- the variant is not there
  unfoldable pub serve_miss :
      (ℕ → Bool) → Text → AssetManager → B → Writer × Processor → Writer × Processor
  unfolding send_original enqueue_all set_header http_not_found get_relative_path
  serve_miss done uuid am b (w, p) =
      let v = set_header (codes "X-Cache") (codes "MISS") w in
      elim (get_relative_path h.clean h.new_v5 h.nil_uuid uuid am) [
        | none ↦ (http_not_found v, p)
        | some path ↦
            (send_original path uuid am b v, enqueue_all done path uuid supported_widths p)
      ]

  -- ServeHTTP, of the path value "key"
  unfoldable pub serve :
      (ℕ → Bool) → Text → AssetManager → B → Writer × Processor → Writer × Processor
  unfolding parse_key serve_hit serve_miss http_error http_not_found
  serve done key am b (w, p) = elim (parse_key key) [
    | none ↦ (http_not_found w, p)
    | some (id, width) ↦ elim (h.from_string id) [
      | none ↦ (http_error (codes "bad request") 400 w, p)
      | some uuid ↦
          if exists (variant_key uuid width) b
          then (serve_hit (variant_key uuid width) b w, p)
          else serve_miss done uuid am b (w, p)
    ]
  ]
