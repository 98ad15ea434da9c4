-- ===== src/Content/SyncLaws.antt =====
-- content/sync.go: after a sync no image is missing.
use mathlib.Core.Path.{subst}
use blogengine.Prelude.{
  ◌≡◌, refl, sym, ap, ◌∙◌, inl, inr, true, false, List, [], ◌∷◌, Option, none, some, All, arith,
  Bool-cases, Option-cases,
}
use blogengine.Prelude.Text.{Text}
use blogengine.Storage.S3.{Bucket, IsBucket, exists_key, save}
use blogengine.Storage.S3Laws.{IsKey, exists-save, exists-save_other}
use blogengine.Content.Sync.{Entry, is_wanted, upload_missing, visit, sync_assets}

-- the walk meets no error at the entry: its path has a key, and it can be read
pub record IsWalkable (e : Entry) : Type 0 where
  pub calm : e.walk_error ≡ none
  pub key : Text
  pub keyed : e.key ≡ some key
  pub proper : IsKey key
  pub body : Text
  pub read : e.contents ≡ some body

-- an image of the directory is in the bucket
abbrev pub IsSynced : {B : Type 0} → Bucket B → B → Entry → Type 0
IsSynced m b e =
    (e.is_dir ≡ false)
    → is_wanted e ≡ true
    → (key : Text) → e.key ≡ some key
    → exists_key m key b ≡ true

module _ {B : Type 0} (m : Bucket B) (laws : IsBucket m)
    (up : (key body : Text) (b : B) → (m.put_object key body b).0 ≡ none) where
  saves : (key body : Text) (b : B) → (save m key body b).0 ≡ none
  unfolding save
  saves key body b = up key body b

  upload_missing-exists :
      (key body : Text) (b : B)
      → IsKey key
      → exists_key m key (upload_missing m key (some body) b) ≡ true
  unfolding upload_missing
  upload_missing-exists key body b k = elim (Bool-cases (exists_key m key b)) [
    | inl e ↦ rw (e, upload_missing) e
    | inr e ↦ rw (e, upload_missing) (exists-save m laws key body b k (saves key body b))
  ]

  upload_missing-keeps :
      (key k : Text) (contents : Option Text) (b : B)
      → exists_key m key b ≡ true
      → exists_key m key (upload_missing m k contents b) ≡ true
  unfolding upload_missing
  upload_missing-keeps key k none b e = ground (arith, e, Bool-cases (exists_key m k b))
  upload_missing-keeps key k (some body) b e = ground (
    arith,
    e,
    Bool-cases (exists_key m k b),
    exists-save_other m laws key k body b (saves k body b) e,
  )

  visit-keeps :
      (key : Text) (e : Entry) (b : B)
      → exists_key m key b ≡ true
      → exists_key m key (visit m e b).1 ≡ true
  unfolding visit
  visit-keeps key e b h = elim (Option-cases e.key) [
    | inl n ↦
        ground
          (arith, n, h, Option-cases e.walk_error, Bool-cases e.is_dir, Bool-cases (is_wanted e))
    | inr (k, n) ↦ ground (
      arith,
      n,
      h,
      Option-cases e.walk_error,
      Bool-cases e.is_dir,
      Bool-cases (is_wanted e),
      upload_missing-keeps key k e.contents b h,
    )
  ]

  visit-walks : (e : Entry) (b : B) → IsWalkable e → (visit m e b).0 ≡ true
  unfolding visit
  visit-walks e b w = ground (arith, w.calm, w.keyed, Bool-cases e.is_dir, Bool-cases (is_wanted e))

  visit-stores :
      (e : Entry) (b : B) (w : IsWalkable e)
      → e.is_dir ≡ false
      → is_wanted e ≡ true
      → exists_key m w.key (visit m e b).1 ≡ true
  unfolding visit
  visit-stores e b w file wanted =
      ground (
        arith,
        w.calm,
        w.keyed,
        w.read,
        file,
        wanted,
        upload_missing-exists w.key w.body b w.proper,
      )

  sync_assets-first :
      (e : Entry) (entries : List Entry) (b : B)
      → (visit m e b).0 ≡ true
      → sync_assets m (e ∷ entries) b ≡ sync_assets m entries (visit m e b).1
  unfolding sync_assets
  sync_assets-first e entries b h = ground (arith, h)

  sync_assets-keeps :
      (key : Text) (entries : List Entry) (b : B)
      → exists_key m key b ≡ true
      → exists_key m key (sync_assets m entries b).1 ≡ true
  unfolding sync_assets
  sync_assets-keeps key [] b h = h
  sync_assets-keeps key (e ∷ entries) b h =
      let next = visit-keeps key e b h in
      ground (
        arith,
        next,
        Bool-cases (visit m e b).0,
        sync_assets-keeps key entries (visit m e b).1 next,
      )

  synced :
      (entries : List Entry) (b : B)
      → All IsWalkable entries
      → ((sync_assets m entries b).0 ≡ true) × All (IsSynced m (sync_assets m entries b).1) entries
  unfolding sync_assets
  synced [] b h = (refl, tt)
  synced (e ∷ entries) b (w, ws) =
      let next = (visit m e b).1 in
      let (done, rest) = synced entries next ws in
      subst (λ r. (r.0 ≡ true) × All (IsSynced m r.1) (e ∷ entries))
        (sym (sync_assets-first e entries b (visit-walks e b w)))
        (
          done,
          (
            λ file wanted key k.
                let same : w.key ≡ key = ground (arith, w.keyed, k) in
                ap (λ x. exists_key m x (sync_assets m entries next).1) (sym same)
                ∙ sync_assets-keeps w.key entries next (visit-stores e b w file wanted),
            rest,
          ),
        )

-- After a sync that meets no error on its way each image of the source directory is in the bucket, and
-- what was there is there still. (The bucket is consistent and takes every object; each file has a key
-- that is neither empty nor has spaces around it, and can be read.)
pub sync_complete :
    {B : Type 0} (m : Bucket B) (entries : List Entry) (b : B)
    → IsBucket m
    → ((key body : Text) (b' : B) → (m.put_object key body b').0 ≡ none)
    → All IsWalkable entries
    → ((sync_assets m entries b).0 ≡ true)
      × All (IsSynced m (sync_assets m entries b).1) entries
      × ((key : Text)
          → exists_key m key b ≡ true
          → exists_key m key (sync_assets m entries b).1 ≡ true)
sync_complete m entries b laws up walkable =
    let (done, each) = synced m laws up entries b walkable in
    (done, each, λ key h. sync_assets-keeps m laws up key entries b h)
