-- ===== src/Webhook/Queue.antt =====
-- src/webhook/webhook-queue.service.ts: the state in Redis and in the database, and the operations
-- that enqueue and process jobs. The expiry of the keys after 48 hours is left out.
pub mod Traces
pub mod Attempts
pub mod Order
use orbit_stream_backend.Common.{
  ℕ, suc, ◌+◌, ◌==◌, Bool, true, false, not, ◌||◌, List, [], ◌∷◌, ◌++◌, Option, none, some,
  if◌then◌else◌, ltb, leb, map, filter, find?,
}
use orbit_stream_backend.Common.Text.{Text, codes}
use orbit_stream_backend.Webhook.Constants.{
  DeliveryOutcome, success, retry, dead, priority_for, max_attempts, backoff_delay_ms,
}
use orbit_stream_backend.Webhook.Delivery.{DeliveryTarget, DeliveryResult, deliver}
use orbit_stream_backend.Webhook.Job.{
  QueueJob, AttemptLogEntry, DeliveryStatus, queued, delivered, failed, dead_status, DeliveryRow,
  Reason, client_error, attempts_exhausted, DeadLetter, EnqueueParams, Surroundings,
  delivery_request, put,
}
use orbit_stream_backend.Webhook.Zsets.{Zsets}

abbrev pub seq_or_zero : Option ℕ → ℕ
seq_or_zero none = 0
seq_or_zero (some n) = n

abbrev pub has_delivery_id : ℕ → DeliveryRow → Bool
has_delivery_id id row = row.delivery_id == id

-- `status in ('pending', 'failed')`
abbrev pub is_open : DeliveryRow → Bool
is_open row = elim row.status [ queued ↦ true | failed ↦ true | _ ↦ false ]

abbrev pub log_of : Option DeliveryRow → List AttemptLogEntry
log_of none = []
log_of (some row) = row.attempt_log

abbrev log_or_last : Option DeliveryRow → AttemptLogEntry → List AttemptLogEntry
log_or_last none entry = entry ∷ []
log_or_last (some row) entry = row.attempt_log

abbrev body_or_empty : Option DeliveryRow → Text
body_or_empty none = codes "{}"
body_or_empty (some row) = row.body

abbrev delivered_time : DeliveryStatus → ℕ → Option ℕ
delivered_time delivered now = some now
delivered_time _ now = none

-- The job as it is written back for another attempt.
abbrev pub retried : Surroundings → QueueJob → QueueJob
retried env job = record job {
  attempt = suc job.attempt;
  available_at = env.now + backoff_delay_ms (suc job.attempt) env.rand;
}

abbrev pub new_row : Surroundings → EnqueueParams → ℕ → DeliveryRow
new_row env params sequence = record {
  merchant_id = params.merchant_id;
  session_id = params.session_id;
  event = params.event;
  body = params.body;
  delivery_id = env.fresh_id;
  sequence = sequence;
  priority = priority_for params.event;
  status = queued;
  attempts = 0;
  attempt_log = [];
  response_status = none;
  delivered_at = none;
  next_retry_at = none;
  created_at = env.now;
}

abbrev pub new_job : Surroundings → EnqueueParams → ℕ → QueueJob
new_job env params sequence = record {
  id = env.fresh_id;
  merchant_id = params.merchant_id;
  session_id = params.session_id;
  event = params.event;
  priority = priority_for params.event;
  sequence = sequence;
  payload = env.json_text params.event params.body (env.iso_text env.now);
  timestamp = env.now;
  attempt = 0;
  available_at = env.now;
}

-- The row that `recordDelivery` writes.
abbrev pub recorded :
    Surroundings
    → DeliveryStatus
    → ℕ
    → Option ℕ
    → List AttemptLogEntry
    → Option ℕ
    → DeliveryRow
    → DeliveryRow
recorded env status attempts response_status log next_retry_at row = record row {
  status = status;
  attempts = attempts;
  response_status = response_status;
  attempt_log = log;
  delivered_at = delivered_time status env.now;
  next_retry_at = next_retry_at;
}

module _ (redis : Zsets) where
  open redis use {ZSet, zadd, zrem}

  -- `scheduled`, `session:{sid}`, `job:{id}` and `seq:{sid}` in Redis, and the two tables.
  pub record Queue : Type 0 where
    pub scheduled : ZSet
    pub sessions : ℕ → ZSet
    pub jobs : ℕ → Option QueueJob
    pub seqs : ℕ → Option ℕ
    pub deliveries : List DeliveryRow
    pub dead_letters : List DeadLetter

  -- `readJob`
  abbrev pub read_job : ℕ → Queue → Option QueueJob
  read_job id q = q.jobs id

  -- `writeJob`
  abbrev pub write_job : QueueJob → Queue → Queue
  write_job job q = record q { jobs = put q.jobs job.id (some job) }

  abbrev pub schedule : QueueJob → Queue → Queue
  schedule job q = record q { scheduled = zadd q.scheduled job.available_at job.id }

  -- `if (sessionId) await client.zadd(this.sessionKey(sessionId), String(sequence), job.id)`
  abbrev pub add_to_session : Option ℕ → QueueJob → Queue → Queue
  add_to_session none job q = q
  add_to_session (some sid) job q = record q {
    sessions = put q.sessions sid (zadd (q.sessions sid) job.sequence job.id);
  }

  abbrev pub next_sequence : Option ℕ → Queue → ℕ × Queue
  next_sequence none q = (0, q)
  next_sequence (some sid) q =
      let n = suc (seq_or_zero (q.seqs sid)) in (n, record q { seqs = put q.seqs sid (some n) })

  unfoldable pub enqueue : Surroundings → EnqueueParams → Queue → ℕ × Queue
  enqueue env params q =
      let (sequence, q1) = next_sequence params.session_id q in
      let q2 = record q1 { deliveries = new_row env params sequence ∷ q1.deliveries } in
      let job = new_job env params sequence in
      (env.fresh_id, schedule job (add_to_session params.session_id job (write_job job q2)))

  abbrev pub remove_from_session : Option ℕ → ℕ → Queue → Queue
  remove_from_session none id q = q
  remove_from_session (some sid) id q = record q {
    sessions = put q.sessions sid (zrem (q.sessions sid) id);
  }

  unfoldable pub cleanup : QueueJob → Queue → Queue
  cleanup job q =
      let q1 = record q { scheduled = zrem q.scheduled job.id } in
      let q2 = remove_from_session job.session_id job.id q1 in
      record q2 { jobs = put q2.jobs job.id none }

  unfoldable pub dead_letter : Surroundings → QueueJob → Reason → AttemptLogEntry → Queue → Queue
  unfolding cleanup
  dead_letter env job reason last_entry q =
      let row = find? (has_delivery_id job.id) q.deliveries in
      let letter : DeadLetter = record {
        id = env.fresh_id;
        merchant_id = job.merchant_id;
        delivery_id = job.id;
        session_id = job.session_id;
        event = job.event;
        body = body_or_empty row;
        attempts = log_or_last row last_entry;
        reason = reason;
        retried_at = none;
      } in
      cleanup job (record q { dead_letters = letter ∷ q.dead_letters })

  unfoldable pub record_delivery :
      Surroundings
      → QueueJob
      → DeliveryStatus
      → ℕ
      → Option ℕ
      → AttemptLogEntry
      → Option ℕ
      → Queue
      → Queue
  record_delivery env job status attempts response_status entry next_retry_at q =
      let log = log_of (find? (has_delivery_id job.id) q.deliveries) ++ entry ∷ [] in
      record q {
        deliveries =
            map
              (λ row.
                if has_delivery_id job.id row
                then recorded env status attempts response_status log next_retry_at row
                else row)
              q.deliveries;
      }

  -- What `process` does with the result of the attempt.
  unfoldable pub settle_attempt :
      Surroundings → QueueJob → DeliveryResult → DeliveryOutcome → Queue → Queue
  unfolding cleanup dead_letter record_delivery
  settle_attempt env job result outcome q =
      let attempt_no = suc job.attempt in
      let entry : AttemptLogEntry = record {
        attempt = attempt_no;
        timestamp = env.now;
        status = result.status;
        error = result.error;
      } in
      elim outcome [
        | success ↦
            cleanup job (record_delivery env job delivered attempt_no result.status entry none q)
        | dead ↦
            dead_letter env job (client_error result.status) entry
              (record_delivery env job dead_status attempt_no result.status entry none q)
        | retry ↦
            if leb max_attempts attempt_no
            then dead_letter env job attempts_exhausted entry
                (record_delivery env job dead_status attempt_no result.status entry none q)
            else let again = retried env job in
              schedule again (
                write_job again (
                  record_delivery env job failed attempt_no result.status entry
                    (some again.available_at) q))
      ]

  -- `process`; the target is what the row of the merchant holds, `none` when the URL or the secret is
  -- missing. Errors of the database and of Redis are left out.
  unfoldable pub process : Surroundings → Option DeliveryTarget → QueueJob → Queue → Queue
  unfolding settle_attempt cleanup
  process env none job q = cleanup job q
  process env (some target) job q =
      let result = deliver env.hmac env.post target (delivery_request env job) in
      settle_attempt env job result result.outcome q
