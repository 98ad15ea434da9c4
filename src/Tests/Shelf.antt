-- ===== src/Tests/Shelf.antt =====
-- A bucket that is a list, a codec of images that are their sizes, and one job.
use blogengine.Prelude.{
  ℕ, ◌≡◌, refl, ap, inl, inr, List, [], ◌∷◌, ◌++◌, take, none, some, length, arith, is_some,
  Bool-cases, if◌then◌else◌,
}
use blogengine.Prelude.Text.{Text, codes, text_eq, trim_space, text_eq_sound}
use blogengine.Middleware.Assoc.{lookup, assign, lookup-assign, lookup-assign_other}
use blogengine.Storage.S3.{Bucket, IsBucket, open_key}
use blogengine.Content.Images.{
  Codec, IsCodec, ImageJob, variant_key, generate_variant, resize_image,
}
use blogengine.Content.ProcessorLaws.{last_byte, last_byte-worker_key}
use blogengine.Content.JobLaws.{IsForeign, IsReady}

abbrev pub Objects : Type 0
Objects = List (Text × Text)

unfoldable pub remove : Text → Objects → Objects
remove key [] = []
remove key ((k, v) ∷ m) = let rest = remove key m in if text_eq k key then rest else (k, v) ∷ rest

abbrev pub shelf : Bucket Objects
shelf = record {
  get_object = λ k b. lookup k b;
  head_object = λ k b. is_some (lookup k b);
  put_object = λ k v b. (none, assign k v b);
  delete_object = λ k b. (none, remove k b);
}

pub lookup-remove : (k : Text) (b : Objects) → lookup k (remove k b) ≡ none
unfolding lookup remove
lookup-remove k [] = refl
lookup-remove k ((l, v) ∷ b) = elim (Bool-cases (text_eq l k)) [
  | inl e ↦ ground (arith, e, lookup-remove k b)
  | inr e ↦ ground (arith, e, lookup-remove k b)
]

pub shelf-IsBucket : IsBucket shelf
shelf-IsBucket = record {
  get-put = λ k v b h. lookup-assign k v b;
  head-put = λ k v b h. ap is_some (lookup-assign k v b);
  get-put_other = λ k l v b h. lookup-assign_other k l v b h;
  head-put_other = λ k l v b h. ap is_some (lookup-assign_other k l v b h);
  head-delete = λ k b h. ap is_some (lookup-remove k b);
}

-- an image is its two sides; a file is as wide as it has bytes, and two rows high
abbrev pub squares : Codec (ℕ × ℕ)
squares = record {
  decode = λ s. some (length s, 2);
  dx = λ i. i.0;
  dy = λ i. i.1;
  scale = λ w h i. (w, h);
  encode = λ i. some (codes "webp");
}

pub squares-IsCodec : IsCodec squares
squares-IsCodec = record { dx-scale = λ w h i. refl; dy-scale = λ w h i. refl }

pub png-IsForeign : IsForeign (codes "a.png")
png-IsForeign id width = elim (Bool-cases (text_eq (variant_key id width) (codes "a.png"))) [
  | inr e ↦ e
  | inl e ↦
      let job : ImageJob = record { source_path = []; id = id; width = width } in
      let same = ap last_byte (text_eq_sound (variant_key id width) (codes "a.png") e) in
      absurd (ground (arith, same, last_byte-worker_key job))
]

abbrev pub small_job : ImageJob
small_job = record { source_path = codes "a.png"; id = codes "ua.png"; width = 800 }

abbrev pub objects : Objects
objects = (codes "a.png", codes "pixels") ∷ []

pub small_job-IsReady : IsReady squares shelf objects small_job
unfolding open_key trim_space lookup generate_variant resize_image
small_job-IsReady = record {
  visible = refl;
  foreign = png-IsForeign;
  source = codes "pixels";
  opened = refl;
  webp = codes "webp";
  made = refl;
}

abbrev pub spelled : Text → Text
spelled path = b'u' ∷ path

-- sixteen bytes for each path; two long paths may have the same
abbrev pub sixteen : Text → Text
sixteen path = take 16 (path ++ codes "----------------")

abbrev pub nil_uuid : Text
nil_uuid = codes "0000000000000000"

abbrev pub as_is : Text → Text
as_is path = path
