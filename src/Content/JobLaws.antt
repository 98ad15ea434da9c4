-- ===== src/Content/JobLaws.antt =====
-- content/webp_processor.go: a job leaves its variant in the bucket.
use blogengine.Prelude.{
  ℕ, ◌≡◌, refl, ◌∙◌, inl, inr, Bool, true, false, not, ◌&&◌, [], ◌∷◌, ◌++◌, none, some, arith,
  Bool-cases, Option-cases, if◌then◌else◌,
}
use blogengine.Prelude.Text.{Text, codes, text_eq, is_empty, is_space, trim_right, trim_space}
use blogengine.Strconv.{itoa}
use blogengine.Storage.S3.{Bucket, IsBucket, open_key, exists_key, save}
use blogengine.Storage.S3Laws.{exists-save_other}
use blogengine.Content.Images.{
  ImageJob, Codec, variant_key, generate_variant, store_variant, process_job,
}

-- the text starts with a byte that is no space, as that of a UUID does
abbrev pub starts_visible : Text → Bool
starts_visible [] = false
starts_visible (c ∷ s) = not (is_space c)

trim_right-append :
    (s t : Text) (c : ℕ) → trim_right (c ∷ t) ≡ c ∷ t → trim_right (s ++ c ∷ t) ≡ s ++ c ∷ t
trim_right-append [] t c h = h
trim_right-append (a ∷ s) t c h = rw (trim_right-append s t c h) (closed s)
  where
    closed :
        (r : Text)
        → (if is_space a && is_empty (r ++ c ∷ t) then [] else a ∷ (r ++ c ∷ t)) ≡ a ∷ (r ++ c ∷ t)
    closed [] = ground arith
    closed (b ∷ r) = ground arith

-- the store trims a key to open it, and not to save it: for these keys that makes no difference
pub trim_space-variant_key :
    (id : Text) (width : ℕ)
    → starts_visible id ≡ true
    → trim_space (variant_key id width) ≡ variant_key id width
unfolding trim_space
trim_space-variant_key [] width h = absurd (ground arith)
trim_space-variant_key (c ∷ id) width h =
    let e : is_space c ≡ false = ground (arith, h) in
    rw e (
      trim_right-append (c ∷ id) (itoa width ++ codes ".webp") b'_'
        (trim_right-append (b'_' ∷ itoa width) (codes "webp") b'.' refl))

-- what is no key of a variant
abbrev pub IsForeign : Text → Type 0
IsForeign key = (id : Text) (width : ℕ) → text_eq (variant_key id width) key ≡ false

module _ {I B : Type 0} (c : Codec I) (m : Bucket B) where
  -- The worker can make the variant: the id is one of an asset, and the source is there, is no
  -- variant, and can be decoded and encoded.
  pub record IsReady (b : B) (job : ImageJob) : Type 0 where
    pub visible : starts_visible job.id ≡ true
    pub foreign : IsForeign (trim_space job.source_path)
    pub source : Text
    pub opened : open_key m job.source_path b ≡ some source
    pub webp : Text
    pub made : generate_variant c false source job.width ≡ some webp

  abbrev pub has_variant : B → ImageJob → Bool
  has_variant b job = exists_key m (variant_key job.id job.width) b

  module _ (laws : IsBucket m)
      (up : (key body : Text) (b : B) → (m.put_object key body b).0 ≡ none) where
    exists-put :
        (id : Text) (width : ℕ) (body : Text) (b : B)
        → starts_visible id ≡ true
        → exists_key m (variant_key id width) (m.put_object (variant_key id width) body b).1 ≡ true
    unfolding exists_key
    exists-put [] width body b v = absurd (ground arith)
    exists-put (a ∷ id) width body b v =
        rw (trim_space-variant_key (a ∷ id) width v, exists_key)
          (laws.head-put (variant_key (a ∷ id) width) body b
            (up (variant_key (a ∷ id) width) body b))

    exists-put_other :
        (key k body : Text) (b : B)
        → exists_key m key b ≡ true
        → exists_key m key (m.put_object k body b).1 ≡ true
    unfolding save
    exists-put_other key k body b e = exists-save_other m laws key k body b (up k body b) e

    open-put_foreign :
        (path : Text) (id : Text) (width : ℕ) (body : Text) (b : B)
        → IsForeign (trim_space path)
        → open_key m path (m.put_object (variant_key id width) body b).1 ≡ open_key m path b
    unfolding open_key
    open-put_foreign path id width body b f = elim (Bool-cases (is_empty path)) [
      | inl n ↦ rw (n, open_key) refl
      | inr n ↦
          rw (n, open_key)
            (laws.get-put_other (variant_key id width) (trim_space path) body b (f id width))
    ]

    -- A job changes nothing, or puts its variant.
    data Stores (job : ImageJob) (b : B) : B → Type 0 where
      nothing : Stores job b b
      stored : (body : Text) → Stores job b (m.put_object (variant_key job.id job.width) body b).1

    process_job-Stores : (job : ImageJob) (b : B) → Stores job b (process_job c m false job b)
    unfolding process_job store_variant save
    process_job-Stores job b = elim (Bool-cases (has_variant b job)) [
      | inl e ↦ rw (e, process_job) nothing
      | inr e ↦ elim (Option-cases (open_key m job.source_path b)) [
        | inl n ↦ rw (e, n, process_job) nothing
        | inr (source, n) ↦ elim (Option-cases (generate_variant c false source job.width)) [
          | inl g ↦ rw (e, n, g, process_job, store_variant) nothing
          | inr (webp, g) ↦ rw (e, n, g, process_job, store_variant) (stored webp)
        ]
      ]
    ]

    pub process_job-has_variant :
        (job : ImageJob) (b : B)
        → IsReady b job
        → has_variant (process_job c m false job b) job ≡ true
    unfolding process_job store_variant save
    process_job-has_variant job b r = elim (Bool-cases (has_variant b job)) [
      | inl e ↦ rw (e, process_job) e
      | inr e ↦
          rw (e, r.opened, r.made, process_job, store_variant)
            (exists-put job.id job.width r.webp b r.visible)
    ]

    pub keeps-has_variant :
        (other job : ImageJob) (b : B)
        → has_variant b job ≡ true
        → has_variant (process_job c m false other b) job ≡ true
    keeps-has_variant other job b e = kept (process_job-Stores other b)
      where
        kept : {b' : B} → Stores other b b' → has_variant b' job ≡ true
        kept nothing = e
        kept (stored body) =
            exists-put_other (variant_key job.id job.width) (variant_key other.id other.width) body
              b e

    pub keeps-IsReady :
        (other job : ImageJob) (b : B) → IsReady b job → IsReady (process_job c m false other b) job
    keeps-IsReady other job b r = record {
      visible = r.visible;
      foreign = r.foreign;
      source = r.source;
      opened = still (process_job-Stores other b);
      webp = r.webp;
      made = r.made;
    }
      where
        still : {b' : B} → Stores other b b' → open_key m job.source_path b' ≡ some r.source
        still nothing = r.opened
        still (stored body) =
            open-put_foreign job.source_path other.id other.width body b r.foreign ∙ r.opened
