-- ===== src/Content/Images.antt =====
-- content/webp_processor.go: what a worker does with one job. Decoding, scaling and encoding are
-- parameters, on a type of images. Products of widths and heights fit in Go's int.
use blogengine.Prelude.{
  ℕ, ◌*◌, ◌/◌, ◌≡◌, Bool, ◌++◌, ◌∷◌, Option, none, some, ltb, leb, if◌then◌else◌,
}
use blogengine.Prelude.Text.{Text, codes}
use blogengine.Strconv.{itoa}
use blogengine.Storage.S3.{Bucket, open_key, exists_key, save}

pub record ImageJob : Type 0 where
  pub source_path : Text
  pub id : Text
  pub width : ℕ

-- image.Decode, Bounds().Dx() and Dy(), BiLinear.Scale into a new image of a width and a height, and
-- webp.Encode with its options
pub record Codec (I : Type 0) : Type 0 where
  pub decode : Text → Option I
  pub dx : I → ℕ
  pub dy : I → ℕ
  pub scale : ℕ → ℕ → I → I
  pub encode : I → Option Text

-- image.NewRGBA has the bounds that it is made with.
pub record IsCodec {I : Type 0} (c : Codec I) : Type 0 where
  pub dx-scale : (w h : ℕ) (i : I) → c.dx (c.scale w h i) ≡ w
  pub dy-scale : (w h : ℕ) (i : I) → c.dy (c.scale w h i) ≡ h

-- the key of the variant, "%s_%d.webp"
abbrev pub variant_key : Text → ℕ → Text
variant_key id width = id ++ (b'_' ∷ (itoa width ++ codes ".webp"))

module _ {I : Type 0} (c : Codec I) where
  unfoldable pub resize_image : I → ℕ → I
  resize_image source max_width =
      if leb (c.dx source) max_width
      then source
      else c.scale max_width (c.dy source * max_width / c.dx source) source

  -- generateVariant, of the bytes that it reads; `ended` says that the context has ended
  unfoldable pub generate_variant : (ended : Bool) → Text → ℕ → Option Text
  unfolding resize_image
  generate_variant ended source width = elim (c.decode source) [
    | none ↦ none
    | some img ↦
        if ended
        then none
        else c.encode (if ltb width (c.dx img) then resize_image img width else img)
  ]

  module _ {B : Type 0} (m : Bucket B) where
    -- what follows the opening of the source
    unfoldable pub store_variant : (ended : Bool) → ImageJob → Text → B → B
    unfolding generate_variant save
    store_variant ended job source b = elim (generate_variant ended source job.width) [
      | none ↦ b
      | some webp ↦ (save m (variant_key job.id job.width) webp b).1
    ]

    -- ProcessJob; it returns nothing, and logs its errors
    unfoldable pub process_job : (ended : Bool) → ImageJob → B → B
    unfolding store_variant open_key exists_key
    process_job ended job b =
        if exists_key m (variant_key job.id job.width) b
        then b
        else if ended
        then b
        else elim (open_key m job.source_path b) [
          | none ↦ b
          | some source ↦ store_variant ended job source b
        ]
