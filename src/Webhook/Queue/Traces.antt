-- ===== src/Webhook/Queue/Traces.antt =====
-- What `process` and `enqueue` of src/webhook/webhook-queue.service.ts leave behind in Redis.
use orbit_stream_backend.Common.{
  ℕ, suc, ◌+◌, ◌≤◌, ◌<◌, ◌≡◌, ◌≢◌, ◌⊎◌, refl, sym, ◌∙◌, inl, inr, true, false, Option, none, some,
  leb, arith,
}
use orbit_stream_backend.Webhook.Constants.{
  DeliveryOutcome, success, retry, dead, max_attempts, backoff_delay_ms,
}
use orbit_stream_backend.Webhook.Backoff.{IsRandom, IsDelay, backoff_delay_ms-IsDelay}
use orbit_stream_backend.Webhook.Delivery.{DeliveryTarget, DeliveryResult, deliver}
use orbit_stream_backend.Webhook.Job.{QueueJob, Surroundings, delivery_request, put-same}
use orbit_stream_backend.Webhook.Zsets.{Zsets}
use orbit_stream_backend.Webhook.Queue.{
  Queue, process, settle_attempt, cleanup, dead_letter, record_delivery, retried,
  remove_from_session,
}

-- The result of the attempt on a job, if its merchant has a target.
abbrev pub attempt_result : Surroundings → DeliveryTarget → QueueJob → DeliveryResult
attempt_result env target job = deliver env.hmac env.post target (delivery_request env job)

module _ (redis : Zsets) where
  open redis use {zscore, zscore-zadd, zscore-zrem}

  -- The session, if any, does not list the job.
  abbrev pub NotInSession : Option ℕ → ℕ → Queue redis → Type 0
  NotInSession none id q = Unit
  NotInSession (some sid) id q = zscore (q.sessions sid) id ≡ none

  -- Redis holds nothing of the job.
  abbrev pub Gone : QueueJob → Queue redis → Type 0
  Gone job q =
      (q.jobs job.id ≡ none)
      × (zscore q.scheduled job.id ≡ none)
      × NotInSession job.session_id job.id q

  -- The job waits for its next attempt, and the sessions are as before.
  abbrev pub Waits : QueueJob → Queue redis → Queue redis → Type 0
  Waits job q q' =
      (q'.jobs job.id ≡ some job)
      × (zscore q'.scheduled job.id ≡ some job.available_at)
      × ((sid : ℕ) → q'.sessions sid ≡ q.sessions sid)

  zrem_self : (z : redis.ZSet) (m : ℕ) → zscore (redis.zrem z m) m ≡ none
  zrem_self z m = ground (arith, zscore-zrem z m m)

  pub zadd_self : (z : redis.ZSet) (s m : ℕ) → zscore (redis.zadd z s m) m ≡ some s
  zadd_self z s m = ground (arith, zscore-zadd z s m m)

  gone_after :
      (session : Option ℕ) (id : ℕ) (q : Queue redis)
      → NotInSession session id (remove_from_session redis session id q)
        × (zscore (remove_from_session redis session id q).scheduled id ≡ zscore q.scheduled id)
  gone_after none id q = (tt, refl)
  gone_after (some sid) id q = (rw put-same (zrem_self (q.sessions sid) id), refl)

  not_in_session :
      (session : Option ℕ) (id : ℕ) (q q' : Queue redis)
      → q.sessions ≡ q'.sessions
      → NotInSession session id q
      → NotInSession session id q'
  not_in_session none id q q' e h = tt
  not_in_session (some sid) id q q' e h = rw (sym e) h

  pub cleanup-Gone : (job : QueueJob) (q : Queue redis) → Gone job (cleanup redis job q)
  unfolding cleanup
  cleanup-Gone job q =
      let q1 = record q { scheduled = redis.zrem q.scheduled job.id } in
      let (sess, sched) = gone_after job.session_id job.id q1 in
      (
        put-same (remove_from_session redis job.session_id job.id q1).jobs job.id none,
        sched ∙ zrem_self q.scheduled job.id,
        not_in_session job.session_id job.id _ _ refl sess,
      )

  retry-Waits :
      (env : Surroundings) (job : QueueJob) (r : DeliveryResult) (q : Queue redis)
      → leb max_attempts (suc job.attempt) ≡ false
      → Waits (retried env job) q (settle_attempt redis env job r retry q)
  unfolding settle_attempt record_delivery
  retry-Waits env job r q h = rw h (
    put-same q.jobs job.id (some (retried env job)),
    zadd_self q.scheduled (retried env job).available_at job.id,
    λ sid. refl,
  )

  settle-Waits :
      (env : Surroundings) (job : QueueJob) (r : DeliveryResult) (outcome : DeliveryOutcome)
      (q : Queue redis)
      → outcome ≡ retry
      → leb max_attempts (suc job.attempt) ≡ false
      → Waits (retried env job) q (settle_attempt redis env job r outcome q)
  settle-Waits env job r outcome q e h = rw e (retry-Waits env job r q h)

  retry-Gone :
      (env : Surroundings) (job : QueueJob) (r : DeliveryResult) (q : Queue redis)
      → leb max_attempts (suc job.attempt) ≡ true
      → Gone job (settle_attempt redis env job r retry q)
  unfolding settle_attempt dead_letter
  retry-Gone env job r q h = rw h (cleanup-Gone job _)

  settle-Gone :
      (env : Surroundings) (job : QueueJob) (r : DeliveryResult) (outcome : DeliveryOutcome)
      (q : Queue redis)
      → (outcome ≢ retry) ⊎ (max_attempts ≤ suc job.attempt)
      → Gone job (settle_attempt redis env job r outcome q)
  unfolding settle_attempt dead_letter
  settle-Gone env job r success q h = cleanup-Gone job _
  settle-Gone env job r dead q h = cleanup-Gone job _
  settle-Gone env job r retry q (inl h) = absurd (h refl)
  settle-Gone env job r retry q (inr h) = retry-Gone env job r q (ground (arith, h))

  -- The job waits with one more attempt counted, until its delay after the time is over, and the
  -- sessions are as before.
  abbrev pub WaitsLonger : ℕ → QueueJob → Queue redis → Queue redis → Type 0
  WaitsLonger now job q q' =
      (delay : ℕ) × IsDelay (suc job.attempt) delay
      × Waits (record job { attempt = suc job.attempt; available_at = now + delay }) q q'

  -- A job whose attempt is to be repeated, and of which fewer than five attempts have been made with
  -- this one, is written back with this attempt counted and nothing else changed but the time at which
  -- it is due, is scheduled for that time, and keeps its place in its session. It is due 1, 5, 30 or
  -- 120 minutes after its first, second, third or fourth attempt, give or take a fifth.
  pub process-retry :
      (env : Surroundings) (target : DeliveryTarget) (job : QueueJob) (q : Queue redis)
      → IsRandom env.rand
      → (attempt_result env target job).outcome ≡ retry
      → suc job.attempt < 5
      → WaitsLonger env.now job q (process redis env (some target) job q)
  unfolding process
  process-retry env target job q random e h = (
    backoff_delay_ms (suc job.attempt) env.rand,
    backoff_delay_ms-IsDelay job.attempt env.rand random h,
    settle-Waits env job (attempt_result env target job) _ q e (ground (arith, h)),
  )

  -- A job that is delivered or refused, or whose fifth attempt failed, leaves nothing behind in Redis.
  pub process-Gone :
      (env : Surroundings) (target : DeliveryTarget) (job : QueueJob) (q : Queue redis)
      → ((attempt_result env target job).outcome ≢ retry) ⊎ (max_attempts ≤ suc job.attempt)
      → Gone job (process redis env (some target) job q)
  unfolding process
  process-Gone env target job q h = settle-Gone env job (attempt_result env target job) _ q h
