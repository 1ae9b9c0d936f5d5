-- ===== src/Webhook/Reached.antt =====
-- The states that the operations of src/webhook/webhook-queue.service.ts lead to, in any order.
use orbit_stream_backend.Common.{
  ℕ, suc, ◌≤◌, ◌<◌, ◌==◌, ◌≡◌, refl, inl, inr, true, false, not, List, [], ◌∷◌, All, filter, Option,
  none, some, arith, Bool-cases, find?,
}
use orbit_stream_backend.Webhook.Constants.{max_attempts}
use orbit_stream_backend.Webhook.Delivery.{DeliveryTarget}
use orbit_stream_backend.Webhook.Job.{
  QueueJob, DeliveryRow, DeadLetter, EnqueueParams, Surroundings,
}
use orbit_stream_backend.Webhook.Zsets.{Zsets}
use orbit_stream_backend.Webhook.Queue.{
  Queue, enqueue, process, is_open, seq_or_zero, add_to_session, write_job,
}
use orbit_stream_backend.Webhook.Queue.Order.{
  IsOrdered, put_session, put_set, zadd-Below, enqueue-IsOrdered, process-IsOrdered,
}
use orbit_stream_backend.Webhook.Queue.Attempts.{
  IsBounded, HasAttempts, put-Fresh, enqueue-IsBounded, process-IsBounded,
}
use orbit_stream_backend.Webhook.Requeue.{
  revived, is_behind, raise_sequence, revive_from_row, revive_rows, recover_pending, requeue_found,
  requeue_dead_letter, requeued, has_job, has_letter_id,
}
use orbit_stream_backend.Webhook.Requeue.Sweep.{revive_jobs, skip_eq, revive_eq}

abbrev HasLeft : DeliveryRow → Type 0
HasLeft row = row.attempts < max_attempts

open_left : (rows : List DeliveryRow) → All HasAttempts rows → All HasLeft (filter is_open rows)
open_left [] h = tt
open_left (row ∷ rows) (k, h) = elim (Bool-cases (is_open row)) [
  | inl b ↦ rw b (k b, open_left rows h)
  | inr b ↦ rw b (open_left rows h)
]

module _ (redis : Zsets) where
  -- One operation, with any surroundings, arguments and targets. A job that is processed was read from
  -- Redis at some time; nothing is asked of it here.
  pub data Step : Queue redis → Queue redis → Type 0 where
    enqueues :
        (env : Surroundings) (params : EnqueueParams) (q : Queue redis)
        → Step q (enqueue redis env params q).1
    processes :
        (env : Surroundings) (target : Option DeliveryTarget) (job : QueueJob) (q : Queue redis)
        → Step q (process redis env target job q)
    requeues :
        (env : Surroundings) (merchant_id letter_id : ℕ) (q : Queue redis)
        → Step q (requeue_dead_letter redis env merchant_id letter_id q).1
    recovers : (env : Surroundings) (q : Queue redis) → Step q (recover_pending redis env q).1

  pub data Steps : Queue redis → Queue redis → Type 0 where
    done : (q : Queue redis) → Steps q q
    more : (q q' q'' : Queue redis) → Step q q' → Steps q' q'' → Steps q q''

  abbrev pub Sound : Queue redis → Type 0
  Sound q = IsOrdered redis q × IsBounded redis q

  requeue-Sound :
      (env : Surroundings) (merchant_id letter_id : ℕ) (o : Option DeadLetter) (q : Queue redis)
      → Sound q
      → Sound (requeue_found redis env merchant_id letter_id o q).1
  requeue-Sound env m l none q h = h
  requeue-Sound env m l (some letter) q h = elim (Bool-cases (not (letter.merchant_id == m))) [
    | inl b ↦ rw b h
    | inr b ↦ rw b (
      enqueue-IsOrdered redis env (requeued m letter) q h.0,
      enqueue-IsBounded redis env (requeued m letter) q h.1,
    )
  ]

  raised : (o : Option ℕ) (n : ℕ) → is_behind o n ≡ true → seq_or_zero o ≤ n
  raised none n h = omega arith
  raised (some c) n h = ground (arith, h)

  enough : (o : Option ℕ) (n : ℕ) → is_behind o n ≡ false → n ≤ seq_or_zero o
  enough none n h = absurd (ground (arith, h))
  enough (some c) n h = ground (arith, h)

  revive-IsOrdered :
      (session : Option ℕ) (job : QueueJob) (q : Queue redis)
      → IsOrdered redis q
      → IsOrdered redis
          (raise_sequence redis session job.sequence (add_to_session redis session job q))
  revive-IsOrdered none job q h = h
  revive-IsOrdered (some sid) job q h =
      let z = redis.zadd (q.sessions sid) job.sequence job.id in
      elim (Bool-cases (is_behind (q.seqs sid) job.sequence)) [
        | inl b ↦ rw b (
            put_session redis q.sessions q.seqs sid z (some job.sequence) h (
              zadd-Below redis (q.sessions sid) job.sequence job.id _ _ (h sid)
                (raised (q.seqs sid) job.sequence b) (omega arith)))
        | inr b ↦ rw b (
            put_set redis q.sessions q.seqs sid z h (
              zadd-Below redis (q.sessions sid) job.sequence job.id _ _ (h sid) (omega arith)
                (enough (q.seqs sid) job.sequence b)))
      ]

  revive-Sound :
      (env : Surroundings) (row : DeliveryRow) (q : Queue redis)
      → HasLeft row
      → Sound q
      → Sound (revive_from_row redis env row q)
  unfolding revive_from_row
  revive-Sound env row q left h =
      let (jobs, rows) = revive_jobs redis env row q in
      (
        revive-IsOrdered row.session_id (revived env row) (write_job redis (revived env row) q) h.0,
        (
          rw jobs (put-Fresh q.jobs row.delivery_id (some (revived env row)) h.1.0 (refl, left)),
          rw rows h.1.1,
        ),
      )

  sweep-Sound :
      (env : Surroundings) (rows : List DeliveryRow) (n : ℕ) (q : Queue redis)
      → All HasLeft rows
      → Sound q
      → Sound (revive_rows redis env rows n q).1
  unfolding revive_rows
  sweep-Sound env [] n q left h = h
  sweep-Sound env (row ∷ rows) n q (l, left) h =
      elim (Bool-cases (has_job redis row.delivery_id q)) [
        | inl b ↦ rw (skip_eq redis env row rows n q b) (sweep-Sound env rows n q left h)
        | inr b ↦ rw (revive_eq redis env row rows n q b) (
            sweep-Sound env rows (suc n) (revive_from_row redis env row q) left
              (revive-Sound env row q l h))
      ]

  Step-Sound : (q q' : Queue redis) → Step q q' → Sound q → Sound q'
  unfolding requeue_dead_letter recover_pending
  Step-Sound _ _ (Step.enqueues env params q) h =
      (enqueue-IsOrdered redis env params q h.0, enqueue-IsBounded redis env params q h.1)
  Step-Sound _ _ (Step.processes env target job q) h =
      (process-IsOrdered redis env target job q h.0, process-IsBounded redis env target job q h.1)
  Step-Sound _ _ (Step.requeues env m l q) h =
      requeue-Sound env m l (find? (has_letter_id l) q.dead_letters) q h
  Step-Sound _ _ (Step.recovers env q) h =
      sweep-Sound env (filter is_open q.deliveries) 0 q (open_left q.deliveries h.1.1) h

  -- However the operations follow one another, from a sound state on no number of a session's jobs
  -- exceeds the counter of the session, and no stored job and no pending or failed delivery has used
  -- up its five attempts.
  pub steps-Sound : (q q' : Queue redis) → Steps q q' → Sound q → Sound q'
  steps-Sound _ _ (Steps.done q) h = h
  steps-Sound _ _ (Steps.more q q1 q2 s rest) h = steps-Sound q1 q2 rest (Step-Sound q q1 s h)
