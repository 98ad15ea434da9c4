-- ===== src/Handlers/Laws/AssetCache.antt =====
-- handlers/assets.go with content/webp_processor.go: a first request makes the later ones hits.
use mathlib.Core.Path.{subst}
use blogengine.Prelude.{
  ℕ, ◌≡◌, refl, sym, ap, ◌∙◌, inl, inr, true, false, Bool-cases, List, [], ◌∷◌, ◌++◌, length, none,
  some, any, All, ltb, ◌==◌, arith,
}
use blogengine.Prelude.Text.{Text, text_eq, is_empty, trim_space}
use blogengine.Strconv.{itoa, itoa_from}
use blogengine.Http.{Headers}
use blogengine.Http.Headers.{fresh}
use blogengine.Storage.S3.{Bucket, IsBucket, open_key, exists_key}
use blogengine.Content.Assets.{AssetManager, get_relative_path}
use blogengine.Content.Images.{ImageJob, Codec, generate_variant, variant_key}
use blogengine.Content.Processor.{Processor, enqueue_key, is_in_flight, accepted, enqueue, rounds}
use blogengine.Content.JobLaws.{starts_visible, IsForeign, IsReady, has_variant}
use blogengine.Content.Liveness.{variants_made}
use blogengine.Handlers.Assets.{AssetHandler, supported_widths, job_of, enqueue_all, serve}
use blogengine.Handlers.Laws.Assets.{is_plain, IsHit, serve-hit, serve-miss, serve_hit-IsHit}

text_eq-append_same : (s a b : Text) → text_eq (s ++ a) (s ++ b) ≡ text_eq a b
text_eq-append_same [] a b = refl
text_eq-append_same (c ∷ s) a b = ground (arith, text_eq-append_same s a b)

abbrev queued : ImageJob → Processor → Processor
queued job p = record { jobs = p.jobs ++ job ∷ []; in_flight = enqueue_key job ∷ p.in_flight }

enqueue-accepted :
    (job : ImageJob) (p : Processor)
    → is_in_flight (enqueue_key job) p.in_flight ≡ false
    → ltb (length p.jobs) 25 ≡ true
    → enqueue false job p ≡ (accepted, queued job p)
unfolding enqueue
enqueue-accepted job p h k = ground (arith, h, k)

module _ {B : Type 0} (h : AssetHandler B) (path uuid : Text) where
  abbrev three_jobs : List ImageJob
  three_jobs = job_of h path uuid 800 ∷ job_of h path uuid 1200 ∷ job_of h path uuid 1920 ∷ []

  -- none of the three variants is in flight
  abbrev pub IsIdle : Processor → Type 0
  IsIdle p =
      (p.jobs ≡ [])
      × All (λ w. is_in_flight (enqueue_key (job_of h path uuid w)) p.in_flight ≡ false)
          supported_widths

  other_width :
      (v w : ℕ)
      → text_eq (b'_' ∷ itoa v) (b'_' ∷ itoa w) ≡ false
      → text_eq (enqueue_key (job_of h path uuid v)) (enqueue_key (job_of h path uuid w)) ≡ false
  other_width v w e = text_eq-append_same uuid (b'_' ∷ itoa v) (b'_' ∷ itoa w) ∙ e

  after_queued :
      (v w : ℕ) (p : Processor)
      → text_eq (b'_' ∷ itoa v) (b'_' ∷ itoa w) ≡ false
      → is_in_flight (enqueue_key (job_of h path uuid v)) p.in_flight ≡ false
      → is_in_flight
          (enqueue_key (job_of h path uuid v))
          (queued (job_of h path uuid w) p).in_flight
        ≡ false
  after_queued v w p e k = ground (arith, other_width v w e, k)

  enqueue_all-first :
      (w : ℕ) (ws : List ℕ) (p : Processor)
      → is_in_flight (enqueue_key (job_of h path uuid w)) p.in_flight ≡ false
      → ltb (length p.jobs) 25 ≡ true
      → enqueue_all h (λ _. false) path uuid (w ∷ ws) p
        ≡ enqueue_all h (λ _. false) path uuid ws (queued (job_of h path uuid w) p)
  unfolding enqueue_all
  enqueue_all-first w ws p e k =
      ap (λ r. enqueue_all h (λ _. false) path uuid ws r.1)
        (enqueue-accepted (job_of h path uuid w) p e k)

  enqueue_all-none : (p : Processor) → enqueue_all h (λ _. false) path uuid [] p ≡ p
  unfolding enqueue_all
  enqueue_all-none p = refl

  enqueue_all_lem :
      (p : Processor)
      → IsIdle p
      → (enqueue_all h (λ _. false) path uuid supported_widths p).jobs ≡ three_jobs
  unfolding itoa itoa_from
  enqueue_all_lem p (empty, (a, (b, (c, _)))) =
      let p1 = queued (job_of h path uuid 800) p in
      let p2 = queued (job_of h path uuid 1200) p1 in
      let p3 = queued (job_of h path uuid 1920) p2 in
      let c1 = after_queued 1920 800 p refl c in
      ap (λ (q : Processor). q.jobs)
        (enqueue_all-first 800 (1200 ∷ 1920 ∷ []) p a (rw empty refl)
          ∙ enqueue_all-first 1200 (1920 ∷ []) p1 (after_queued 1200 800 p refl b) (rw empty refl)
          ∙ enqueue_all-first 1920 [] p2 (after_queued 1920 1200 p1 refl c1) (rw empty refl)
          ∙ enqueue_all-none p3)
      ∙ rw empty refl

opens :
    {B : Type 0} (m : Bucket B) (key : Text) (b : B)
    → ((k : Text) → m.head_object k b ≡ true → (v : Text) × (m.get_object k b ≡ some v))
    → exists_key m key b ≡ true
    → (v : Text) × (open_key m key b ≡ some v)
unfolding exists_key open_key
opens m key b reads e = elim (Bool-cases (is_empty key)) [
  | inl n ↦ absurd (ground (arith, n, e))
  | inr n ↦ let r = reads (trim_space key) (ground (arith, n, e)) in (r.0, rw (n, open_key) r.1)
]

module _ {I B : Type 0} (h : AssetHandler B) (c : Codec I) (path uuid source : Text)
    (am : AssetManager) (b : B) where
  -- the original can be made into its three variants
  pub record IsServable : Type 0 where
    pub plain : is_plain uuid ≡ true
    pub visible : starts_visible uuid ≡ true
    pub own : h.from_string uuid ≡ some uuid
    pub known : get_relative_path h.clean h.new_v5 h.nil_uuid uuid am ≡ some path
    pub opened : open_key h.bucket path b ≡ some source
    pub foreign : IsForeign (trim_space path)
    pub made :
        All (λ w. (webp : Text) × (generate_variant c false source w ≡ some webp)) supported_widths

  ready :
      (w : ℕ)
      → IsServable
      → (webp : Text) × (generate_variant c false source w ≡ some webp)
      → IsReady c h.bucket b (job_of h path uuid w)
  ready w s (webp, g) = record {
    visible = s.visible;
    foreign = s.foreign;
    source = source;
    opened = s.opened;
    webp = webp;
    made = g;
  }

  three_ready : IsServable → All (IsReady c h.bucket b) (three_jobs h path uuid)
  three_ready s =
      let (x, (y, (z, _))) = s.made in (ready 800 s x, (ready 1200 s y, (ready 1920 s z, tt)))

  made_of_queue :
      (q : Processor)
      → IsBucket h.bucket
      → ((key body : Text) (b' : B) → (h.bucket.put_object key body b').0 ≡ none)
      → IsServable
      → q.jobs ≡ three_jobs h path uuid
      → All
          (λ job. has_variant c h.bucket (rounds c h.bucket (length q.jobs) (q, b)).1 job ≡ true)
          (three_jobs h path uuid)
  made_of_queue q laws up s e =
      subst
        (λ jobs.
          All
            (λ job. has_variant c h.bucket (rounds c h.bucket (length q.jobs) (q, b)).1 job ≡ true)
            jobs)
        e
        (variants_made c h.bucket q b laws up
          (subst (λ jobs. All (IsReady c h.bucket b) jobs) (sym e) (three_ready s))).1

  exists-IsHit :
      (hs : Headers) (r : Processor × B) (v : ℕ)
      → ((k : Text)
          → h.bucket.head_object k r.1 ≡ true
          → (v : Text) × (h.bucket.get_object k r.1 ≡ some v))
      → IsServable
      → any (λ u. u == v) supported_widths ≡ true
      → exists_key h.bucket (variant_key uuid v) r.1 ≡ true
      → IsHit h
          (variant_key uuid v)
          r.1
          (serve h (λ _. false) (uuid ++ (b'_' ∷ itoa v)) am r.1 (fresh hs, r.0)).0
  exists-IsHit hs r v reads s listed e =
      let o = opens h.bucket (variant_key uuid v) r.1 reads e in
      rw (serve-hit h (λ _. false) uuid v am r.1 hs r.0 s.plain listed s.own e)
        (serve_hit-IsHit h (variant_key uuid v) o.0 r.1 hs o.1)

-- One request for an image whose variant is not made yet makes every later one a hit: once the workers
-- have come to the end of the queue, a request for any of the three widths is answered with 200 and
-- the bytes of the variant. (The bucket is consistent, takes every object and returns what it has; the
-- original is there and can be made into the variants; the queue was empty and none of the three was
-- in flight; no context ends.)
pub hits_after_work :
    {I B : Type 0} (h : AssetHandler B) (c : Codec I) (path uuid source : Text) (am : AssetManager)
    (b : B) (hs : Headers) (p : Processor) (w : ℕ)
    → IsBucket h.bucket
    → ((key body : Text) (b' : B) → (h.bucket.put_object key body b').0 ≡ none)
    → ((b' : B) (k : Text)
        → h.bucket.head_object k b' ≡ true
        → (v : Text) × (h.bucket.get_object k b' ≡ some v))
    → IsServable h c path uuid source am b
    → IsIdle h path uuid p
    → any (λ v. v == w) supported_widths ≡ true
    → exists_key h.bucket (variant_key uuid w) b ≡ false
    → let first = serve h (λ _. false) (uuid ++ (b'_' ∷ itoa w)) am b (fresh hs, p) in
      let later = rounds c h.bucket (length first.1.jobs) (first.1, b) in
      All
        (λ v.
          IsHit h
            (variant_key uuid v)
            later.1
            (serve h (λ _. false) (uuid ++ (b'_' ∷ itoa v)) am later.1 (fresh hs, later.0)).0)
        supported_widths
hits_after_work {B = B} h c path uuid source am b hs p w laws up reads s idle listed absent =
    rw (serve-miss h (λ _. false) uuid w am b hs p s.plain listed s.own absent s.known) (
      exists-IsHit h c path uuid source am b hs later 800 (reads later.1) s refl made.0,
      (
        exists-IsHit h c path uuid source am b hs later 1200 (reads later.1) s refl made.1.0,
        (
          exists-IsHit h c path uuid source am b hs later 1920 (reads later.1) s refl made.1.1.0,
          tt,
        ),
      ),
    )
  where
    q : Processor
    q = enqueue_all h (λ _. false) path uuid supported_widths p

    later : Processor × B
    later = rounds c h.bucket (length q.jobs) (q, b)

    made : All (λ job. has_variant c h.bucket later.1 job ≡ true) (three_jobs h path uuid)
    made = made_of_queue h c path uuid source am b q laws up s (enqueue_all_lem h path uuid p idle)
