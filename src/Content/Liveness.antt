-- ===== src/Content/Liveness.antt =====
-- content/webp_processor.go: the workers empty the queue.
use blogengine.Prelude.{◌≡◌, refl, true, false, List, [], ◌∷◌, length, none, All, All-mono, arith}
use blogengine.Prelude.Text.{Text}
use blogengine.Storage.S3.{Bucket, IsBucket}
use blogengine.Content.Images.{ImageJob, Codec, process_job}
use blogengine.Content.Processor.{Processor, work, work_on, rounds}
use blogengine.Content.JobLaws.{
  IsReady, has_variant, process_job-has_variant, keeps-has_variant, keeps-IsReady,
}

module _ {I B : Type 0} (c : Codec I) (m : Bucket B) where
  work_on_first :
      (p : Processor) (b : B) (job : ImageJob) (jobs : List ImageJob)
      → p.jobs ≡ job ∷ jobs
      → work_on c m false (p, b) ≡ (work p, process_job c m false job b)
  unfolding work_on
  work_on_first p b job jobs e = ground (arith, e)

  work_first :
      (p : Processor) (job : ImageJob) (jobs : List ImageJob)
      → p.jobs ≡ job ∷ jobs
      → (work p).jobs ≡ jobs
  unfolding work
  work_first p job jobs e = rw (e, work) refl

  module _ (laws : IsBucket m)
      (up : (key body : Text) (b : B) → (m.put_object key body b).0 ≡ none) where
    record Drained (jobs : List ImageJob) (b : B) (r : Processor × B) : Type 0 where
      emptied : r.0.jobs ≡ []
      made : All (λ job. has_variant c m r.1 job ≡ true) jobs
      kept : (job : ImageJob) → has_variant c m b job ≡ true → has_variant c m r.1 job ≡ true

    rounds-Drained :
        (jobs : List ImageJob) (p : Processor) (b : B)
        → p.jobs ≡ jobs
        → All (IsReady c m b) jobs
        → Drained jobs b (rounds c m (length jobs) (p, b))
    unfolding rounds
    rounds-Drained [] p b e r = record { emptied = e; made = tt; kept = λ job h. h }
    rounds-Drained (job ∷ jobs) p b e (r, rs) =
        let next = process_job c m false job b in
        let d =
          rounds-Drained jobs (work p) next (work_first p job jobs e)
            (All-mono (λ other. keeps-IsReady c m laws up job other b) jobs rs) in
        rw (work_on_first p b job jobs e, rounds)
          (record {
            emptied = d.emptied;
            made = (d.kept job (process_job-has_variant c m laws up job b r), d.made);
            kept = λ other h. d.kept other (keeps-has_variant c m laws up job other b h);
          })

-- The workers come to the end of the queue: after as many rounds as it has jobs it is empty, and each
-- of the jobs has its variant in the bucket. (The bucket is consistent and takes every object; each
-- source is there, is no variant, and can be decoded and encoded; no context ends.)
pub variants_made :
    {I B : Type 0} (c : Codec I) (m : Bucket B) (p : Processor) (b : B)
    → IsBucket m
    → ((key body : Text) (b' : B) → (m.put_object key body b').0 ≡ none)
    → All (IsReady c m b) p.jobs
    → let r = rounds c m (length p.jobs) (p, b) in
      (r.0.jobs ≡ []) × All (λ job. has_variant c m r.1 job ≡ true) p.jobs
variants_made c m p b laws up ready =
    let d = rounds-Drained c m laws up p.jobs p b refl ready in (d.emptied, d.made)
