-- ===== src/Tests/Assets.antt =====
-- The handler of assets on the shelf, before and after the work on its jobs.
use blogengine.Prelude.{
  ℕ, ◌≡◌, refl, inl, inr, true, false, [], ◌∷◌, ◌++◌, some, length, All, arith, ◌⊎◌, Option-cases,
}
use blogengine.Prelude.Text.{Text, codes, trim_space}
use blogengine.Middleware.Assoc.{lookup}
use blogengine.Storage.S3.{open_key, exists_key}
use blogengine.Http.Headers.{fresh}
use blogengine.Strconv.{itoa, itoa_from}
use blogengine.Content.Assets.{AssetManager, get_relative_path}
use blogengine.Content.Images.{variant_key, generate_variant, resize_image}
use blogengine.Content.Processor.{new_processor, rounds}
use blogengine.Handlers.Assets.{AssetHandler, supported_widths, enqueue_all, serve}
use blogengine.Handlers.Laws.Assets.{IsHit, IsMiss, serve_known_image}
use blogengine.Handlers.Laws.AssetCache.{IsServable, hits_after_work}
use blogengine.Tests.Shelf.{
  spelled, as_is, Objects, shelf, shelf-IsBucket, squares, png-IsForeign, objects,
}

abbrev pub handler : AssetHandler Objects
handler = record {
  clean = as_is;
  new_v5 = spelled;
  nil_uuid = [];
  from_string = λ s. some s;
  type_by_extension = λ e. codes "image/png";
  bucket = shelf;
}

abbrev pub one_asset : AssetManager
one_asset = record {
  uuid_to_path = (codes "ua.png", codes "a.png") ∷ [];
  path_to_uuid = (codes "a.png", codes "ua.png") ∷ [];
}

one_asset_leads :
    get_relative_path as_is spelled [] (codes "ua.png") one_asset ≡ some (codes "a.png")
unfolding get_relative_path lookup
one_asset_leads = refl

original_opens : open_key shelf (codes "a.png") objects ≡ some (codes "pixels")
unfolding open_key lookup trim_space
original_opens = refl

no_variant : exists_key shelf (variant_key (codes "ua.png") 800) objects ≡ false
unfolding exists_key lookup trim_space itoa itoa_from
no_variant = refl

serve_known_image_example :
    let r =
      serve handler
        (λ _. false)
        (codes "ua.png" ++ (b'_' ∷ itoa 800))
        one_asset
        objects
        (fresh [], new_processor) in
    ((exists_key shelf (variant_key (codes "ua.png") 800) objects ≡ true)
      × IsHit handler (variant_key (codes "ua.png") 800) objects r.0
      × (r.1 ≡ new_processor))
    ⊎ ((exists_key shelf (variant_key (codes "ua.png") 800) objects ≡ false)
        × IsMiss handler (codes "a.png") (codes "pixels") r.0
        × (r.1
            ≡ enqueue_all handler
                (λ _. false)
                (codes "a.png")
                (codes "ua.png")
                supported_widths
                new_processor))
serve_known_image_example =
    serve_known_image handler (λ _. false) (codes "ua.png") 800 (codes "a.png") (codes "pixels")
      one_asset objects [] new_processor refl refl refl one_asset_leads original_opens
      (λ e. absurd (ground (arith, no_variant, e)))

pixels_made :
    (w : ℕ) → (webp : Text) × (generate_variant squares false (codes "pixels") w ≡ some webp)
unfolding generate_variant resize_image
pixels_made w = (codes "webp", refl)

servable :
    IsServable handler squares (codes "a.png") (codes "ua.png") (codes "pixels") one_asset objects
unfolding trim_space
servable = record {
  plain = refl;
  visible = refl;
  own = refl;
  known = one_asset_leads;
  opened = original_opens;
  foreign = png-IsForeign;
  made = (pixels_made 800, (pixels_made 1200, (pixels_made 1920, tt)));
}

reads_shelf :
    (b : Objects) (k : Text)
    → shelf.head_object k b ≡ true
    → (v : Text) × (shelf.get_object k b ≡ some v)
reads_shelf b k h = elim (Option-cases (lookup k b)) [
  | inl n ↦ absurd (ground (arith, n, h))
  | inr e ↦ e
]

hits_after_work_example :
    let first =
      serve handler
        (λ _. false)
        (codes "ua.png" ++ (b'_' ∷ itoa 800))
        one_asset
        objects
        (fresh [], new_processor) in
    let later = rounds squares shelf (length first.1.jobs) (first.1, objects) in
    All
      (λ v.
        IsHit handler
          (variant_key (codes "ua.png") v)
          later.1
          (serve handler
            (λ _. false)
            (codes "ua.png" ++ (b'_' ∷ itoa v))
            one_asset
            later.1
            (fresh [], later.0)).0)
      supported_widths
hits_after_work_example =
    hits_after_work handler squares (codes "a.png") (codes "ua.png") (codes "pixels") one_asset
      objects [] new_processor 800 shelf-IsBucket (λ k v b. refl) reads_shelf servable
      (refl, (refl, (refl, (refl, tt)))) refl no_variant
