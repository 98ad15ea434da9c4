-- ===== src/Content/ProcessorLaws.antt =====
-- content/webp_processor.go: the bound of the queue, and a key that is never taken out of flight.
use blogengine.Prelude.{
  ℕ, ◌≤◌, ◌≡◌, refl, ap, ◌∙◌, inl, inr, Bool, true, false, List, [], ◌∷◌, ◌++◌, length,
  length-append, ltb, leb, arith, Bool-cases,
}
use blogengine.Prelude.Text.{Text, codes, text_eq, text_eq_sound}
use blogengine.Strconv.{itoa}
use blogengine.Strconv.Decimal.{is_number, itoa-number}
use blogengine.Content.Images.{ImageJob}
use blogengine.Content.Processor.{
  Processor, capacity, enqueue_key, worker_key, is_in_flight, delete_key, duplicate, enqueue, work,
}

-- What the callers and the workers do, in any order.
pub data Run : Processor → Processor → Type 0 where
  rest : {p : Processor} → Run p p
  asks : {p q : Processor} (done : Bool) (job : ImageJob) → Run p q → Run p (enqueue done job q).1
  works : {p q : Processor} → Run p q → Run p (work q)

abbrev pub last_byte : Text → ℕ
last_byte [] = 0
last_byte (c ∷ []) = c
last_byte (c ∷ d ∷ s) = last_byte (d ∷ s)

last_byte-append : (s t : Text) (c : ℕ) → last_byte (s ++ c ∷ t) ≡ last_byte (c ∷ t)
last_byte-append [] t c = refl
last_byte-append (a ∷ []) t c = refl
last_byte-append (a ∷ b ∷ s) t c = last_byte-append (b ∷ s) t c

last_byte-number : (s : Text) → is_number s ≡ true → leb (last_byte s) 57 ≡ true
last_byte-number [] h = absurd (ground arith)
last_byte-number (c ∷ []) h = ground arith
last_byte-number (c ∷ d ∷ s) h = last_byte-number (d ∷ s) (ground arith)

pub last_byte-worker_key : (job : ImageJob) → last_byte (worker_key job) ≡ b'p'
last_byte-worker_key job =
    last_byte-append job.id (itoa job.width ++ codes ".webp") b'_'
    ∙ last_byte-append (b'_' ∷ itoa job.width) (codes "webp") b'.'

last_byte-enqueue_key : (job : ImageJob) → leb (last_byte (enqueue_key job)) 57 ≡ true
last_byte-enqueue_key job = numbered (itoa job.width) (itoa-number job.width)
  where
    numbered : (w : Text) → is_number w ≡ true → leb (last_byte (job.id ++ b'_' ∷ w)) 57 ≡ true
    numbered [] n = absurd (ground arith)
    numbered (c ∷ w) n =
        ap (λ b. leb b 57) (last_byte-append job.id (c ∷ w) b'_') ∙ last_byte-number (c ∷ w) n

-- no worker deletes the key that Enqueue stores
keys_differ : (job other : ImageJob) → text_eq (enqueue_key job) (worker_key other) ≡ false
keys_differ job other = elim (Bool-cases (text_eq (enqueue_key job) (worker_key other))) [
  | inr e ↦ e
  | inl e ↦
      let same = ap last_byte (text_eq_sound (enqueue_key job) (worker_key other) e) in
      absurd (ground (arith, same, last_byte-worker_key other, last_byte-enqueue_key job))
]

is_in_flight-delete_key :
    (key deleted : Text) (keys : List Text)
    → text_eq key deleted ≡ false
    → is_in_flight key keys ≡ true
    → is_in_flight key (delete_key deleted keys) ≡ true
unfolding delete_key
is_in_flight-delete_key key deleted [] n h = h
is_in_flight-delete_key key deleted (k ∷ keys) n h = elim (Bool-cases (text_eq key k)) [
  | inl e ↦
      let same : key ≡ k = text_eq_sound key k e in
      ground (arith, e, ap (λ x. text_eq x deleted) same, n)
  | inr e ↦ ground (
    arith,
    e,
    is_in_flight-delete_key key deleted keys n (ground (arith, e)),
    Bool-cases (text_eq k deleted),
  )
]

stays_in_flight :
    (job : ImageJob) {p q : Processor}
    → Run p q
    → is_in_flight (enqueue_key job) p.in_flight ≡ true
    → is_in_flight (enqueue_key job) q.in_flight ≡ true
unfolding enqueue work
stays_in_flight job rest h = h
stays_in_flight job (asks {q = q} done other r) h =
    let kept = stays_in_flight job r h in
    ground (
      arith,
      kept,
      Bool-cases (is_in_flight (enqueue_key other) q.in_flight),
      Bool-cases done,
      Bool-cases (ltb (length q.jobs) capacity),
    )
stays_in_flight job (works {q = q} r) h = worked q.jobs refl (stays_in_flight job r h)
  where
    worked :
        (jobs : List ImageJob)
        → q.jobs ≡ jobs
        → is_in_flight (enqueue_key job) q.in_flight ≡ true
        → is_in_flight (enqueue_key job) (work q).in_flight ≡ true
    worked [] e kept = rw (e, work) kept
    worked (first ∷ jobs) e kept =
        rw (e, work)
          (is_in_flight-delete_key (enqueue_key job) (worker_key first) q.in_flight
            (keys_differ job first) kept)

-- A job that was taken on once is never taken on again: its key stays in flight after the workers are
-- done, since they delete another key, and each later Enqueue of the same image and width answers
-- that the job is there and queues nothing.
pub enqueue_never_again :
    (job : ImageJob) (done later : Bool) (p : Processor) {q : Processor}
    → is_in_flight (enqueue_key job) (enqueue done job p).1.in_flight ≡ true
    → Run (enqueue done job p).1 q
    → enqueue later job q ≡ (duplicate, q)
unfolding enqueue
enqueue_never_again job done later p {q} taken r = ground (arith, stays_in_flight job r taken)

-- The queue never holds more than 25 jobs, whatever callers and workers do.
pub queue_bounded : {p q : Processor} → length p.jobs ≤ 25 → Run p q → length q.jobs ≤ 25
unfolding enqueue work
queue_bounded h rest = h
queue_bounded h (asks {q = q} done job r) = ground (
  arith,
  queue_bounded h r,
  length-append q.jobs (job ∷ []),
  Bool-cases (is_in_flight (enqueue_key job) q.in_flight),
  Bool-cases done,
  Bool-cases (ltb (length q.jobs) capacity),
)
queue_bounded h (works {q = q} r) = worked q.jobs refl (queue_bounded h r)
  where
    worked : (jobs : List ImageJob) → q.jobs ≡ jobs → length q.jobs ≤ 25 → length (work q).jobs ≤ 25
    worked [] e b = rw (e, work) b
    worked (first ∷ jobs) e b =
        rw (e, work) (omega (arith, ap (λ (x : List ImageJob). length x) e, b))
