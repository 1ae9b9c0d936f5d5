-- ===== src/Webhook/Tests.antt =====
-- Tests of the models of src/webhook, and the theorems applied to concrete inputs.
pub mod Sets
use orbit_stream_backend.Common.{
  ℕ, zero, suc, ◌+◌, ◌≤◌, ◌<◌, ◌==◌, ◌≡◌, ◌≢◌, ◌⊎◌, ◌↔◌, refl, inl, inr, Bool, true, false, List,
  [], ◌∷◌, ◌++◌, All, filter, find?, count_if, length, Option, none, some, arith, leb,
}
use orbit_stream_backend.Common.Text.{Text, codes}
use orbit_stream_backend.Webhook.Constants.{
  Random, DeliveryOutcome, success, retry, dead, base_backoff_ms, backoff_delay_ms,
  build_signed_content, classify_status, priority_for, apply_jitter,
}
use orbit_stream_backend.Webhook.Backoff.{backoff_delay_ms-increases}
use orbit_stream_backend.Webhook.Signature.{build_signed_content-injective}
use orbit_stream_backend.Webhook.Delivery.{
  DeliveryTarget, HttpReply, DeliveryResult, deliver, result_of, result_of_iff,
}
use orbit_stream_backend.Webhook.Job.{QueueJob, DeliveryRow, EnqueueParams, Surroundings}
use orbit_stream_backend.Webhook.Queue.{
  Queue, enqueue, process, retried, is_open, has_delivery_id, seq_or_zero,
}
use orbit_stream_backend.Webhook.Queue.Traces.{
  attempt_result, WaitsLonger, Gone, process-retry, process-Gone,
}
use orbit_stream_backend.Webhook.Queue.Order.{IsOrdered, enqueue-last, session_event}
use orbit_stream_backend.Webhook.Queue.Attempts.{IsBounded}
use orbit_stream_backend.Webhook.Requeue.{recover_pending, revived}
use orbit_stream_backend.Webhook.Requeue.Sweep.{HasJob}
use orbit_stream_backend.Webhook.Requeue.Revived.{IsQueued, recover_pending_complete}
use orbit_stream_backend.Webhook.Reached.{Step, Steps, Sound, steps-Sound}
use orbit_stream_backend.Webhook.Worker.{
  Scan, Worker, begin_tick, tick_step, settle_job, is_ticking, visit_job, dispatch, visit, sort,
  insert, has,
}
use orbit_stream_backend.Webhook.Worker.Serial.{IsSerial}
use orbit_stream_backend.Webhook.Worker.Reached
use orbit_stream_backend.Webhook.Worker.Reached.{steps-IsSerial}
use orbit_stream_backend.Webhook.Worker.Ended.{During, During-is_ticking}
use orbit_stream_backend.Webhook.Worker.Picked.{
  IsInOrder, sort-IsInOrder, Settled, dispatch-serves, IsFirst, visit-picks,
}
use orbit_stream_backend.Webhook.Tests.Sets.{sets, no_members}

abbrev half : Random
half = record { numerator = 1; denominator = 2 }

abbrev no_jitter : Random
no_jitter = record { numerator = 0; denominator = 1 }

middle_jitter : backoff_delay_ms 3 half ≡ 1_800_000
unfolding backoff_delay_ms
middle_jitter = refl

-- At the time `now`, with an endpoint that answers `status`.
abbrev at : ℕ → ℕ → ℕ → Surroundings
at now fresh_id status = record {
  now = now;
  rand = half;
  fresh_id = fresh_id;
  hmac = λ secret content. content;
  post = λ p. HttpReply.responds status;
  uuid_text = λ n. n ∷ [];
  iso_text = λ n. n ∷ [];
  json_text = λ event body timestamp. event ++ body;
}

abbrev empty_queue : Queue sets
empty_queue = record {
  scheduled = no_members;
  sessions = λ sid. no_members;
  jobs = λ id. none;
  seqs = λ sid. none;
  deliveries = [];
  dead_letters = [];
}

abbrev target : DeliveryTarget
target = record { url = codes "https://shop/hook"; secret = codes "s" }

abbrev first_params : EnqueueParams
first_params = session_event 1 (codes "payment.confirmed") (codes "{}") 9

-- One delivery of session 9, enqueued at time 1000 under the id 50.
abbrev one_queued : Queue sets
one_queued = (enqueue sets (at 1_000 50 200) first_params empty_queue).1

abbrev first_job : QueueJob
first_job = record {
  id = 50;
  merchant_id = 1;
  session_id = some 9;
  event = codes "payment.confirmed";
  priority = 1;
  sequence = 1;
  payload = codes "payment.confirmed{}";
  timestamp = 1_000;
  attempt = 0;
  available_at = 1_000;
}

abbrev last_attempt : QueueJob
last_attempt = record first_job { attempt = 4 }

enqueued_job : one_queued.jobs 50 ≡ some first_job
unfolding enqueue priority_for
enqueued_job = refl

busy : (attempt_result (at 2_000 0 503) target first_job).outcome ≡ retry
unfolding deliver classify_status
busy = refl

process-retry_example :
    WaitsLonger sets 2_000 first_job one_queued
      (process sets (at 2_000 0 503) (some target) first_job one_queued)
process-retry_example =
    process-retry sets (at 2_000 0 503) target first_job one_queued (omega arith) busy (omega arith)

process-Gone_example :
    Gone sets last_attempt (process sets (at 2_000 0 503) (some target) last_attempt one_queued)
process-Gone_example =
    process-Gone sets (at 2_000 0 503) target last_attempt one_queued (inr (omega arith))

nothing_queued : Sound sets empty_queue
nothing_queued = ((λ sid id s e. absurd (ground (arith, e))), ((λ id. tt), tt))

abbrev two_steps : Steps sets empty_queue (recover_pending sets (at 3_000 0 0) one_queued).1
two_steps =
    Steps.more _ _ _ (Step.enqueues (at 1_000 50 200) first_params empty_queue)
      (Steps.more _ _ _ (Step.recovers (at 3_000 0 0) one_queued) (Steps.done _))

steps-Sound_example : Sound sets (recover_pending sets (at 3_000 0 0) one_queued).1
steps-Sound_example =
    steps-Sound sets empty_queue (recover_pending sets (at 3_000 0 0) one_queued).1 two_steps
      nothing_queued

-- The job hash is lost.
abbrev lost : Queue sets
lost = record one_queued { jobs = λ id. none }

recover_pending_complete_example :
    let q' = (recover_pending sets (at 3_000 0 0) lost).1 in
    All (λ row. HasJob sets q' row.delivery_id) (filter is_open q'.deliveries)
    × ((id : ℕ) (row : DeliveryRow)
        → find? (has_delivery_id id) (filter is_open lost.deliveries) ≡ some row
        → lost.jobs id ≡ none
        → IsQueued sets q' (revived (at 3_000 0 0) row))
    × ((id : ℕ) (job : QueueJob) → lost.jobs id ≡ some job → q'.jobs id ≡ some job)
    × (recover_pending sets (at 4_000 0 0) q' ≡ (0, q'))
recover_pending_complete_example = recover_pending_complete sets (at 3_000 0 0) (at 4_000 0 0) lost

abbrev idle : Worker
idle = record {
  max_concurrency = 2;
  active = 0;
  inflight_sessions = [];
  processing = [];
  running = [];
  scan = none;
}

abbrev begun : Worker
begun = begin_tick sets 1_500 one_queued idle

abbrev looked : Worker
looked = (tick_step sets one_queued one_queued begun).0

abbrev dispatched : Worker
dispatched = (tick_step sets one_queued one_queued looked).0

started_job : dispatched.running ≡ first_job ∷ []
unfolding begin_tick tick_step enqueue dispatch priority_for sort insert
started_job = refl

abbrev busy_worker : Worker
busy_worker = record idle {
  active = 1;
  inflight_sessions = 9 ∷ [];
  processing = 50 ∷ [];
  running = first_job ∷ [];
}

idle_again : settle_job first_job [] busy_worker ≡ idle
unfolding settle_job
idle_again = refl

busy-IsSerial : IsSerial busy_worker
busy-IsSerial = (refl, omega arith, (ground arith, tt), (tt, tt), tt)

abbrev settle_one : Reached.Steps sets busy_worker (settle_job first_job [] busy_worker)
settle_one =
    Reached.Steps.more _ _ _
      (Reached.Step.settles first_job [] busy_worker (Reached.Taken.first first_job []))
      (Reached.Steps.done _)

steps-IsSerial_example : IsSerial (settle_job first_job [] busy_worker)
steps-IsSerial_example =
    steps-IsSerial sets busy_worker (settle_job first_job [] busy_worker) settle_one busy-IsSerial

visit-picks_example :
    ((visit sets 50 one_queued one_queued idle []).0 ≡ [])
    ⊎ ((job : QueueJob) × (has idle.processing 50 ≡ false)
        × (one_queued.jobs 50 ≡ some job)
        × ((visit sets 50 one_queued one_queued idle []).0 ≡ job ∷ [])
        × IsFirst sets one_queued idle job.session_id job)
visit-picks_example = visit-picks sets 50 one_queued one_queued idle []

-- A tick with one due id, in which the running job settles between the two steps.
abbrev ticking : Worker
ticking = record busy_worker {
  scan = some (record { capacity = 1; due_ids = 50 ∷ []; candidates = [] });
}

abbrev after_read : Worker
after_read = (tick_step sets one_queued one_queued ticking).0

abbrev two_reads :
    During sets 2 ticking
      (tick_step sets one_queued one_queued (settle_job first_job [] after_read)).0
unfolding tick_step visit visit_job
two_reads = During.goes_on 1 one_queued one_queued ticking _ (
    During.settles 1 first_job [] after_read _ (Reached.Taken.first first_job []) (
      During.goes_on 0 one_queued one_queued (settle_job first_job [] after_read) _
        (During.done _)))
