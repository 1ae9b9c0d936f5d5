-- ===== src/Webhook/Queue/Order.antt =====
-- The sequence numbers of src/webhook/webhook-queue.service.ts: the counter of a session against the
-- scores in the sorted set of the session.
use orbit_stream_backend.Common.{
  ℕ, suc, ◌≤◌, ◌<◌, ◌==◌, ◌≡◌, refl, sym, subst, ==_iff, ◌∙◌, inl, inr, List, Option, none, some,
  leb, arith, Bool-cases,
}
use orbit_stream_backend.Common.Text.{Text}
use orbit_stream_backend.Webhook.Constants.{DeliveryOutcome, success, retry, dead, max_attempts}
use orbit_stream_backend.Webhook.Delivery.{DeliveryTarget, DeliveryResult}
use orbit_stream_backend.Webhook.Job.{
  QueueJob, DeliveryRow, EnqueueParams, Surroundings, put, put-same,
}
use orbit_stream_backend.Webhook.Zsets.{Zsets}
use orbit_stream_backend.Webhook.Queue.{
  Queue, enqueue, process, settle_attempt, cleanup, dead_letter, record_delivery,
  remove_from_session, seq_or_zero, new_job, next_sequence, add_to_session, write_job,
}
use orbit_stream_backend.Webhook.Queue.Traces.{attempt_result, zadd_self}

-- An event of a session.
abbrev pub session_event : ℕ → Text → Text → ℕ → EnqueueParams
session_event merchant event body sid = record {
  merchant_id = merchant;
  event = event;
  body = body;
  session_id = some sid;
}

module _ (redis : Zsets) where
  open redis use {ZSet, zscore, zadd, zrem, zscore-zadd, zscore-zrem}

  -- Every score lies under the bound.
  abbrev pub Below : ZSet → ℕ → Type 0
  Below z top = (id s : ℕ) → zscore z id ≡ some s → s ≤ top

  -- No job of a session has a number beyond the counter of the session.
  abbrev pub IsOrdered : Queue redis → Type 0
  IsOrdered q = (sid : ℕ) → Below (q.sessions sid) (seq_or_zero (q.seqs sid))

  pub zadd-Below :
      (z : ZSet) (score m top top' : ℕ)
      → Below z top
      → top ≤ top'
      → score ≤ top'
      → Below (zadd z score m) top'
  zadd-Below z score m top top' h le fits id s e = elim (Bool-cases (m == id)) [
    | inl b ↦ ground (arith, sym (zscore-zadd z score m id) ∙ e, b, fits)
    | inr b ↦ ground (arith, sym (zscore-zadd z score m id) ∙ e, b, h id s, le)
  ]

  zrem-Below : (z : ZSet) (m top : ℕ) → Below z top → Below (zrem z m) top
  zrem-Below z m top h id s e = elim (Bool-cases (m == id)) [
    | inl b ↦ ground (arith, sym (zscore-zrem z m id) ∙ e, b)
    | inr b ↦ ground (arith, sym (zscore-zrem z m id) ∙ e, b, h id s)
  ]

  -- One session is changed, and the others are as before.
  pub put_session :
      (sessions : ℕ → ZSet) (seqs : ℕ → Option ℕ) (k : ℕ) (z : ZSet) (n : Option ℕ)
      → ((sid : ℕ) → Below (sessions sid) (seq_or_zero (seqs sid)))
      → Below z (seq_or_zero n)
      → (sid : ℕ) → Below (put sessions k z sid) (seq_or_zero (put seqs k n sid))
  put_session sessions seqs k z n h hz sid = elim (Bool-cases (k == sid)) [
    | inl b ↦ rw b hz
    | inr b ↦ rw b (h sid)
  ]

  pub put_set :
      (sessions : ℕ → ZSet) (seqs : ℕ → Option ℕ) (k : ℕ) (z : ZSet)
      → ((sid : ℕ) → Below (sessions sid) (seq_or_zero (seqs sid)))
      → Below z (seq_or_zero (seqs k))
      → (sid : ℕ) → Below (put sessions k z sid) (seq_or_zero (seqs sid))
  put_set sessions seqs k z h hz sid = elim (Bool-cases (k == sid)) [
    | inl b ↦ rw b (subst (λ n. Below z (seq_or_zero (seqs n))) ((==_iff k sid).0 b) hz)
    | inr b ↦ rw b (h sid)
  ]

  pub cleanup-IsOrdered :
      (job : QueueJob) (session : Option ℕ) (q : Queue redis)
      → IsOrdered q
      → IsOrdered (remove_from_session redis session job.id q)
  cleanup-IsOrdered job none q h = h
  cleanup-IsOrdered job (some sid) q h =
      put_set q.sessions q.seqs sid _ h (zrem-Below (q.sessions sid) job.id _ (h sid))

  -- A new job of a session comes after every job that the session already has.
  pub enqueue-last :
      (env : Surroundings) (merchant : ℕ) (event body : Text) (sid : ℕ) (q : Queue redis)
      → IsOrdered q
      → (s : ℕ) × (zscore
            ((enqueue redis env (session_event merchant event body sid) q).1.sessions sid)
            env.fresh_id
          ≡ some s)
        × ((id t : ℕ) → zscore (q.sessions sid) id ≡ some t → t < s)
  unfolding enqueue
  enqueue-last env merchant event body sid q h =
      let n = suc (seq_or_zero (q.seqs sid)) in
      (
        n,
        rw put-same (zadd_self redis (q.sessions sid) n env.fresh_id),
        λ id t e. omega (arith, h sid id t e),
      )

  next_IsOrdered :
      (session : Option ℕ) (job : QueueJob) (rows : List DeliveryRow) (q : Queue redis)
      → IsOrdered q
      → job.sequence ≡ (next_sequence redis session q).0
      → IsOrdered (
          add_to_session redis session job
            (write_job redis job (record (next_sequence redis session q).1 { deliveries = rows })))
  next_IsOrdered none job rows q h e = h
  next_IsOrdered (some sid) job rows q h e =
      put_session q.sessions q.seqs sid (zadd (q.sessions sid) job.sequence job.id)
        (some (suc (seq_or_zero (q.seqs sid)))) h
        (zadd-Below (q.sessions sid) job.sequence job.id _ _ (h sid) (omega arith)
          (omega (arith, e)))

  pub enqueue-IsOrdered :
      (env : Surroundings) (params : EnqueueParams) (q : Queue redis)
      → IsOrdered q
      → IsOrdered (enqueue redis env params q).1
  unfolding enqueue
  enqueue-IsOrdered env params q h =
      next_IsOrdered params.session_id
        (new_job env params (next_sequence redis params.session_id q).0) _ q h refl

  settle_IsOrdered :
      (env : Surroundings) (job : QueueJob) (r : DeliveryResult) (outcome : DeliveryOutcome)
      (q : Queue redis)
      → IsOrdered q
      → IsOrdered (settle_attempt redis env job r outcome q)
  unfolding settle_attempt dead_letter record_delivery cleanup
  settle_IsOrdered env job r success q h = cleanup-IsOrdered job job.session_id _ h
  settle_IsOrdered env job r dead q h = cleanup-IsOrdered job job.session_id _ h
  settle_IsOrdered env job r retry q h = elim (Bool-cases (leb max_attempts (suc job.attempt))) [
    | inl b ↦ rw b (cleanup-IsOrdered job job.session_id _ h)
    | inr b ↦ rw b h
  ]

  pub process-IsOrdered :
      (env : Surroundings) (target : Option DeliveryTarget) (job : QueueJob) (q : Queue redis)
      → IsOrdered q
      → IsOrdered (process redis env target job q)
  unfolding process cleanup
  process-IsOrdered env none job q h = cleanup-IsOrdered job job.session_id _ h
  process-IsOrdered env (some target) job q h =
      settle_IsOrdered env job (attempt_result env target job) _ q h
