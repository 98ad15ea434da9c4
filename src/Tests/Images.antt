-- ===== src/Tests/Images.antt =====
-- The images: their variants, their links and their copies in the object store.
use mathlib.Core.Path.{subst}
use blogengine.Middleware.Assoc.{lookup}
use blogengine.Prelude.{
  ◌≡◌, ◌⊎◌, inl, inr, refl, sym, ap, ◌∙◌, Bool-cases, Bool, ◌||◌, true, false, List, [], ◌∷◌, none,
  some, All, arith, ◌<◌, ◌≤◌, ◌*◌, ◌+◌,
}
use blogengine.Prelude.Text.{Text, codes, text_eq, text_eq_sound, trim_space}
use blogengine.Storage.S3.{exists_key}
use blogengine.Content.Sync.{Entry, sync_assets}
use blogengine.Content.SyncLaws.{IsWalkable, IsSynced, sync_complete}
use blogengine.Content.Assets.{new_asset_manager}
use blogengine.Content.AssetLaws.{new_asset_manager-IsConsistent, IsConsistent}
use blogengine.Content.Markdown.{Node, image, heading, other, is_external_link, transform}
use blogengine.Content.MarkdownLaws.{AtHand, IsCollisionFree, Rewritten, Each, images_resolve}
use blogengine.Content.Images.{resize_image}
use blogengine.Content.ImageLaws.{resize_image_fits}
use blogengine.Content.Processor.{Processor, rounds}
use blogengine.Content.JobLaws.{has_variant}
use blogengine.Content.Liveness.{variants_made}
use blogengine.Tests.Shelf.{
  sixteen, nil_uuid, as_is, shelf, shelf-IsBucket, squares, squares-IsCodec, small_job, objects,
  small_job-IsReady,
}

resize_image_fits_example :
    let r = resize_image squares (1000, 600) 800 in
    (r.0 ≤ 800)
    × (r.0 ≤ 1000)
    × (r.1 ≤ 600)
    × (r.1 * 1000 ≤ 600 * r.0)
    × (600 * r.0 < (r.1 + 1) * 1000)
resize_image_fits_example = resize_image_fits squares (1000, 600) 800 squares-IsCodec (omega arith)

abbrev one_job : Processor
one_job = record { jobs = small_job ∷ []; in_flight = [] }

variants_made_example :
    let r = rounds squares shelf 1 (one_job, objects) in
    (r.0.jobs ≡ []) × ((has_variant squares shelf r.1 small_job ≡ true) × Unit {0})
variants_made_example =
    variants_made squares shelf one_job objects shelf-IsBucket (λ k v b. refl)
      (small_job-IsReady, tt)

abbrev document : List Node
document =
    heading 1
    ∷ image (codes "a.png") []
    ∷ image (codes "https://example.org/b.png") (codes "b")
    ∷ other
    ∷ image (codes "c.png") []
    ∷ []

abbrev InDocument : Text → Type 0
InDocument = AtHand as_is sixteen nil_uuid document new_asset_manager

either : (a b : Bool) → (a || (b || false)) ≡ true → a ≡ false → b ≡ true
either a b h f = ground (arith, h, f)

in_document : (p : Text) → InDocument p → (codes "a.png" ≡ p) ⊎ (codes "c.png" ≡ p)
unfolding lookup is_external_link
in_document p (inl (u, h)) = absurd (ground (arith, h))
in_document p (inr h) = elim (Bool-cases (text_eq (codes "a.png") p)) [
  | inl t ↦ inl (text_eq_sound (codes "a.png") p t)
  | inr f ↦ inr (
      text_eq_sound (codes "c.png") p
        (either (text_eq (codes "a.png") p) (text_eq (codes "c.png") p) h f))
]

document_apart : IsCollisionFree as_is sixteen nil_uuid InDocument
document_apart p q hp hq same = apart (in_document p hp) (in_document q hq)
  where
    apart :
        (codes "a.png" ≡ p) ⊎ (codes "c.png" ≡ p)
        → (codes "a.png" ≡ q) ⊎ (codes "c.png" ≡ q)
        → p ≡ q
    apart (inl a) (inl b) = sym a ∙ b
    apart (inr a) (inr b) = sym a ∙ b
    apart (inl a) (inr b) = absurd (ground (arith, ap sixteen a ∙ same ∙ sym (ap sixteen b)))
    apart (inr a) (inl b) = absurd (ground (arith, ap sixteen a ∙ same ∙ sym (ap sixteen b)))

document_real : (p : Text) → InDocument p → text_eq (sixteen p) nil_uuid ≡ false
document_real p h = elim (in_document p h) [
  | inl a ↦ subst (λ x. text_eq (sixteen x) nil_uuid ≡ false) a refl
  | inr a ↦ subst (λ x. text_eq (sixteen x) nil_uuid ≡ false) a refl
]

images_resolve_example :
    let r = transform as_is sixteen nil_uuid document new_asset_manager in
    Each as_is sixteen nil_uuid (Rewritten as_is sixteen nil_uuid r.1) document r.0
    × IsConsistent as_is sixteen nil_uuid r.1
images_resolve_example =
    images_resolve as_is sixteen nil_uuid document new_asset_manager document_apart document_real
      (refl, (refl, (refl, (refl, (refl, tt)))))
      (new_asset_manager-IsConsistent as_is sixteen nil_uuid)

abbrev picture : Entry
picture = record {
  walk_error = none;
  is_dir = false;
  ext = codes ".PNG";
  key = some (codes "b.png");
  contents = some (codes "x");
}

picture-IsWalkable : IsWalkable picture
unfolding trim_space
picture-IsWalkable = record {
  calm = refl;
  key = codes "b.png";
  keyed = refl;
  proper = (refl, refl);
  body = codes "x";
  read = refl;
}

sync_complete_example :
    ((sync_assets shelf (picture ∷ []) objects).0 ≡ true)
    × All (IsSynced shelf (sync_assets shelf (picture ∷ []) objects).1) (picture ∷ [])
    × ((key : Text)
        → exists_key shelf key objects ≡ true
        → exists_key shelf key (sync_assets shelf (picture ∷ []) objects).1 ≡ true)
sync_complete_example =
    sync_complete shelf (picture ∷ []) objects shelf-IsBucket (λ k v b. refl)
      (picture-IsWalkable, tt)
