-- ===== src/Content/Processor.antt =====
-- content/webp_processor.go: the queue of image jobs and the keys in flight. The channel holds 25
-- jobs. `work` is what a worker does with a job to the queue, `works` with the object store too.
use blogengine.Prelude.{ℕ, suc, Bool, false, List, [], ◌∷◌, ◌++◌, length, ltb, any, if◌then◌else◌}
use blogengine.Prelude.Text.{Text, text_eq}
use blogengine.Strconv.{itoa}
use blogengine.Storage.S3.{Bucket}
use blogengine.Content.Images.{ImageJob, Codec, variant_key, process_job}

pub record Processor : Type 0 where
  pub jobs : List ImageJob
  pub in_flight : List Text

abbrev pub new_processor : Processor
new_processor = record { jobs = []; in_flight = [] }

abbrev pub capacity : ℕ
capacity = 25

-- the key of Enqueue, "%s_%d", and that of the worker, "%s_%d.webp"
abbrev pub enqueue_key : ImageJob → Text
enqueue_key job = job.id ++ (b'_' ∷ itoa job.width)

abbrev pub worker_key : ImageJob → Text
worker_key job = variant_key job.id job.width

-- sync.Map
abbrev pub is_in_flight : Text → List Text → Bool
is_in_flight key keys = any (text_eq key) keys

unfoldable pub delete_key : Text → List Text → List Text
delete_key key [] = []
delete_key key (k ∷ keys) =
    let rest = delete_key key keys in if text_eq k key then rest else k ∷ rest

pub data Answer : Type 0 where
  accepted duplicate cancelled full : Answer

-- Enqueue: `done` says that the context of the caller has ended and the select takes its case
unfoldable pub enqueue : (done : Bool) → ImageJob → Processor → Answer × Processor
enqueue done job p =
    if is_in_flight (enqueue_key job) p.in_flight
    then (duplicate, p)
    else if done
    then (cancelled, p)
    else if ltb (length p.jobs) capacity
    then (accepted, record { jobs = p.jobs ++ job ∷ []; in_flight = enqueue_key job ∷ p.in_flight })
    else (full, p)

-- a worker: it takes the first job, and when ProcessJob has returned deletes a key
unfoldable pub work : Processor → Processor
unfolding delete_key
work p = elim p.jobs [
  | [] ↦ p
  | job ∷ jobs ↦ record { jobs = jobs; in_flight = delete_key (worker_key job) p.in_flight }
]

module _ {I B : Type 0} (c : Codec I) (m : Bucket B) where
  -- worker, one round: the first job is taken, processed, and a key deleted
  unfoldable pub work_on : (ended : Bool) → Processor × B → Processor × B
  unfolding work process_job
  work_on ended (p, b) = elim p.jobs [
    | [] ↦ (p, b)
    | job ∷ jobs ↦ (work p, process_job c m ended job b)
  ]

  -- n rounds, of any workers, in which no context ends
  unfoldable pub rounds : ℕ → Processor × B → Processor × B
  unfolding work_on
  rounds ℕ.zero s = s
  rounds (suc n) s = rounds n (work_on false s)
