-- ===== src/Webhook/Queue/Attempts.antt =====
-- The bound on the attempts of a delivery in src/webhook/webhook-queue.service.ts.
use orbit_stream_backend.Common.{
  ℕ, suc, ◌<◌, ◌==◌, ◌≡◌, refl, subst, ==_iff, inl, inr, Bool, true, false, List, [], ◌∷◌, ◌++◌,
  All, map, find?, Option, none, some, if◌then◌else◌, leb, arith, Bool-cases,
}
use orbit_stream_backend.Webhook.Constants.{DeliveryOutcome, success, retry, dead, max_attempts}
use orbit_stream_backend.Webhook.Delivery.{DeliveryTarget, DeliveryResult}
use orbit_stream_backend.Webhook.Job.{
  QueueJob, DeliveryRow, DeliveryStatus, delivered, failed, dead_status, AttemptLogEntry,
  EnqueueParams, Surroundings, put,
}
use orbit_stream_backend.Webhook.Zsets.{Zsets}
use orbit_stream_backend.Webhook.Queue.{
  Queue, enqueue, process, settle_attempt, cleanup, dead_letter, record_delivery,
  remove_from_session, new_job, next_sequence, add_to_session, write_job, is_open, retried,
  recorded, has_delivery_id, new_row, log_of,
}
use orbit_stream_backend.Webhook.Queue.Traces.{attempt_result}

-- A stored job is the one with its key, and it has attempts left.
abbrev pub Fresh : ℕ → Option QueueJob → Type 0
Fresh id none = Unit
Fresh id (some job) = (job.id ≡ id) × (job.attempt < max_attempts)

-- A row that is not final has attempts left.
abbrev pub HasAttempts : DeliveryRow → Type 0
HasAttempts row = is_open row ≡ true → row.attempts < max_attempts

pub put-Fresh :
    (jobs : ℕ → Option QueueJob) (k : ℕ) (v : Option QueueJob)
    → ((id : ℕ) → Fresh id (jobs id))
    → Fresh k v
    → (id : ℕ) → Fresh id (put jobs k v id)
put-Fresh jobs k v h hv id = elim (Bool-cases (k == id)) [
  | inl b ↦ rw b (subst (λ i. Fresh i v) ((==_iff k id).0 b) hv)
  | inr b ↦ rw b (h id)
]

All-map_if :
    (p : DeliveryRow → Bool) (f : DeliveryRow → DeliveryRow) (rows : List DeliveryRow)
    → ((row : DeliveryRow) → HasAttempts (f row))
    → All HasAttempts rows
    → All HasAttempts (map (λ row. if p row then f row else row) rows)
All-map_if p f [] hf h = h
All-map_if p f (row ∷ rows) hf (k, h) = elim (Bool-cases (p row)) [
  | inl b ↦ rw b (hf row, All-map_if p f rows hf h)
  | inr b ↦ rw b (k, All-map_if p f rows hf h)
]

lt-leb : {a b : ℕ} → a < b → leb b a ≡ false
lt-leb h = ground (arith, h)

module _ (redis : Zsets) where
  -- No stored job and no open row has used up its five attempts.
  abbrev pub IsBounded : Queue redis → Type 0
  IsBounded q = ((id : ℕ) → Fresh id (q.jobs id)) × All HasAttempts q.deliveries

  record_rows :
      (env : Surroundings) (job : QueueJob) (status : DeliveryStatus) (n : ℕ) (rs : Option ℕ)
      (entry : AttemptLogEntry) (next : Option ℕ) (q : Queue redis)
      → ((log : List AttemptLogEntry) (row : DeliveryRow)
          → HasAttempts (recorded env status n rs log next row))
      → All HasAttempts q.deliveries
      → All HasAttempts (record_delivery redis env job status n rs entry next q).deliveries
  unfolding record_delivery
  record_rows env job status n rs entry next q fits h =
      let log = log_of (find? (has_delivery_id job.id) q.deliveries) ++ entry ∷ [] in
      All-map_if (has_delivery_id job.id) (recorded env status n rs log next) q.deliveries
        (fits log) h

  cleanup_fresh :
      (session : Option ℕ) (job : QueueJob) (q : Queue redis)
      → IsBounded q
      → IsBounded (record (remove_from_session redis session job.id q) {
        jobs = put (remove_from_session redis session job.id q).jobs job.id none;
      })
  cleanup_fresh none job q h = (put-Fresh q.jobs job.id none h.0 tt, h.1)
  cleanup_fresh (some sid) job q h = (put-Fresh q.jobs job.id none h.0 tt, h.1)

  cleanup-IsBounded :
      (job : QueueJob) (q : Queue redis) → IsBounded q → IsBounded (cleanup redis job q)
  unfolding cleanup
  cleanup-IsBounded job q h =
      cleanup_fresh job.session_id job (record q { scheduled = redis.zrem q.scheduled job.id }) h

  retry-IsBounded :
      (env : Surroundings) (job : QueueJob) (r : DeliveryResult) (q : Queue redis)
      → suc job.attempt < max_attempts
      → IsBounded q
      → IsBounded (settle_attempt redis env job r retry q)
  unfolding settle_attempt dead_letter record_delivery
  retry-IsBounded env job r q left h = rw (lt-leb left) (
    put-Fresh q.jobs job.id (some (retried env job)) h.0 (refl, left),
    record_rows env job failed (suc job.attempt) r.status _ _ q (λ log row e. left) h.1,
  )

  settle-IsBounded :
      (env : Surroundings) (job : QueueJob) (r : DeliveryResult) (outcome : DeliveryOutcome)
      (q : Queue redis)
      → IsBounded q
      → IsBounded (settle_attempt redis env job r outcome q)
  unfolding settle_attempt dead_letter
  settle-IsBounded env job r success q h =
      cleanup-IsBounded job _
        (h.0, record_rows env job delivered _ _ _ _ q (λ log row e. absurd (ground (arith, e))) h.1)
  settle-IsBounded env job r dead q h =
      cleanup-IsBounded job _ (
        h.0,
        record_rows env job dead_status _ _ _ _ q (λ log row e. absurd (ground (arith, e))) h.1,
      )
  settle-IsBounded env job r retry q h = elim (Bool-cases (leb max_attempts (suc job.attempt))) [
    | inl b ↦ rw b (
        cleanup-IsBounded job _ (
          h.0,
          record_rows env job dead_status _ _ _ _ q (λ log row e. absurd (ground (arith, e))) h.1,
        ))
    | inr b ↦ retry-IsBounded env job r q (ground (arith, b)) h
  ]

  pub process-IsBounded :
      (env : Surroundings) (target : Option DeliveryTarget) (job : QueueJob) (q : Queue redis)
      → IsBounded q
      → IsBounded (process redis env target job q)
  unfolding process
  process-IsBounded env none job q h = cleanup-IsBounded job q h
  process-IsBounded env (some target) job q h =
      settle-IsBounded env job (attempt_result env target job) _ q h

  add-IsBounded :
      (session : Option ℕ) (job : QueueJob) (q : Queue redis)
      → job.attempt < max_attempts
      → IsBounded q
      → IsBounded (add_to_session redis session job (write_job redis job q))
  add-IsBounded none job q left h = (put-Fresh q.jobs job.id (some job) h.0 (refl, left), h.1)
  add-IsBounded (some sid) job q left h = (put-Fresh q.jobs job.id (some job) h.0 (refl, left), h.1)

  next-IsBounded :
      (session : Option ℕ) (q : Queue redis)
      → IsBounded q
      → IsBounded (next_sequence redis session q).1
  next-IsBounded none q h = h
  next-IsBounded (some sid) q h = h

  pub enqueue-IsBounded :
      (env : Surroundings) (params : EnqueueParams) (q : Queue redis)
      → IsBounded q
      → IsBounded (enqueue redis env params q).1
  unfolding enqueue
  enqueue-IsBounded env params q h =
      let (sequence, q1) = next_sequence redis params.session_id q in
      let b = next-IsBounded params.session_id q h in
      add-IsBounded params.session_id (new_job env params sequence)
        (record q1 { deliveries = new_row env params sequence ∷ q1.deliveries }) (omega arith)
        (b.0, (λ e. omega arith, b.1))
