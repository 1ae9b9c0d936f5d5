-- ===== src/Webhook/Requeue.antt =====
-- src/webhook/webhook-queue.service.ts: the manual requeue of dead letters, and the sweep that
-- revives jobs whose Redis state was lost.
pub mod Sweep
pub mod Revived
use orbit_stream_backend.Common.{
  ℕ, suc, ◌==◌, Bool, true, false, not, List, [], ◌∷◌, Option, none, some, if◌then◌else◌, ltb, map,
  filter, find?,
}
use orbit_stream_backend.Webhook.Job.{
  QueueJob, DeliveryRow, DeadLetter, EnqueueParams, Surroundings, put,
}
use orbit_stream_backend.Webhook.Zsets.{Zsets}
use orbit_stream_backend.Webhook.Queue.{
  Queue, enqueue, write_job, schedule, add_to_session, is_open,
}

-- `!cur || Number(cur) < sequence`
abbrev pub is_behind : Option ℕ → ℕ → Bool
is_behind none sequence = true
is_behind (some cur) sequence = ltb cur sequence

abbrev pub is_some : Option QueueJob → Bool
is_some none = false
is_some (some job) = true

-- `reviveFromRow`: the job that is rebuilt.
abbrev pub revived : Surroundings → DeliveryRow → QueueJob
revived env row = record {
  id = row.delivery_id;
  merchant_id = row.merchant_id;
  session_id = row.session_id;
  event = row.event;
  priority = row.priority;
  sequence = row.sequence;
  payload = env.json_text row.event row.body (env.iso_text row.created_at);
  timestamp = row.created_at;
  attempt = row.attempts;
  available_at = env.now;
}

abbrev pub has_letter_id : ℕ → DeadLetter → Bool
has_letter_id id letter = letter.id == id

abbrev pub mark_retried : ℕ → ℕ → DeadLetter → DeadLetter
mark_retried now id letter =
    if has_letter_id id letter then record letter { retried_at = some now } else letter

abbrev pub requeued : ℕ → DeadLetter → EnqueueParams
requeued merchant_id letter = record {
  merchant_id = merchant_id;
  event = letter.event;
  body = letter.body;
  session_id = letter.session_id;
}

module _ (redis : Zsets) where
  -- `requeueDeadLetter` once the entry is read.
  abbrev pub requeue_found :
      Surroundings → ℕ → ℕ → Option DeadLetter → Queue redis → Option ℕ × Queue redis
  requeue_found env merchant_id letter_id none q = (none, q)
  requeue_found env merchant_id letter_id (some letter) q =
      if not (letter.merchant_id == merchant_id)
      then (none, q)
      else let (id, q1) = enqueue redis env (requeued merchant_id letter) q in
        (some id, record q1 { dead_letters = map (mark_retried env.now letter_id) q1.dead_letters })

  unfoldable pub requeue_dead_letter : Surroundings → ℕ → ℕ → Queue redis → Option ℕ × Queue redis
  requeue_dead_letter env merchant_id letter_id q =
      requeue_found env merchant_id letter_id (find? (has_letter_id letter_id) q.dead_letters) q

  abbrev pub raise_sequence : Option ℕ → ℕ → Queue redis → Queue redis
  raise_sequence none sequence q = q
  raise_sequence (some sid) sequence q =
      if is_behind (q.seqs sid) sequence
      then record q { seqs = put q.seqs sid (some sequence) }
      else q

  unfoldable pub revive_from_row : Surroundings → DeliveryRow → Queue redis → Queue redis
  revive_from_row env row q =
      let job = revived env row in
      schedule redis job (
        raise_sequence row.session_id row.sequence
          (add_to_session redis row.session_id job (write_job redis job q)))

  -- `client.exists(this.jobKey(id))`
  abbrev pub has_job : ℕ → Queue redis → Bool
  has_job id q = is_some (q.jobs id)

  -- The loop of `recoverPending` over the rows it read.
  unfoldable pub revive_rows : Surroundings → List DeliveryRow → ℕ → Queue redis → ℕ × Queue redis
  revive_rows env [] revived_count q = (revived_count, q)
  revive_rows env (row ∷ rows) revived_count q =
      let skip = revive_rows env rows revived_count q in
      let revive = revive_rows env rows (suc revived_count) (revive_from_row env row q) in
      if has_job row.delivery_id q then skip else revive

  unfoldable pub recover_pending : Surroundings → Queue redis → ℕ × Queue redis
  recover_pending env q = revive_rows env (filter is_open q.deliveries) 0 q
