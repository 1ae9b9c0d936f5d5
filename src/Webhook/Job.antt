-- ===== src/Webhook/Job.antt =====
-- The records of the webhook queue: the job of src/webhook/webhook-queue.service.ts, the rows of the
-- tables webhook_deliveries and webhook_dead_letters, and what an operation reads from outside.
use orbit_stream_backend.Common.{ℕ, ◌==◌, false, ◌≡◌, List, Option, if◌then◌else◌, arith}
use orbit_stream_backend.Common.Text.{Text}
use orbit_stream_backend.Webhook.Constants.{Random}
use orbit_stream_backend.Webhook.Delivery.{DeliveryRequest, Failure, HttpReply, Post}

-- The Redis hash of a job. Numbers are stored in decimal and read back with `Number`; the session is
-- `none` for the empty text.
pub record QueueJob : Type 0 where
  pub id : ℕ
  pub merchant_id : ℕ
  pub session_id : Option ℕ
  pub event : Text
  pub priority : ℕ
  pub sequence : ℕ
  pub payload : Text
  pub timestamp : ℕ
  pub attempt : ℕ
  pub available_at : ℕ

pub record AttemptLogEntry : Type 0 where
  pub attempt : ℕ
  pub timestamp : ℕ
  pub status : Option ℕ
  pub error : Option Failure

pub data DeliveryStatus : Type 0 where
  queued delivered failed dead_status : DeliveryStatus

-- A row of webhook_deliveries; `body` is the field `data` of its payload.
pub record DeliveryRow : Type 0 where
  pub merchant_id : ℕ
  pub session_id : Option ℕ
  pub event : Text
  pub body : Text
  pub delivery_id : ℕ
  pub sequence : ℕ
  pub priority : ℕ
  pub status : DeliveryStatus
  pub attempts : ℕ
  pub attempt_log : List AttemptLogEntry
  pub response_status : Option ℕ
  pub delivered_at : Option ℕ
  pub next_retry_at : Option ℕ
  pub created_at : ℕ

-- `4xx:${status}` or `max_attempts`
pub data Reason : Type 0 where
  client_error : Option ℕ → Reason
  attempts_exhausted : Reason

-- A row of webhook_dead_letters; `body` is the field `data` of its payload.
pub record DeadLetter : Type 0 where
  pub id : ℕ
  pub merchant_id : ℕ
  pub delivery_id : ℕ
  pub session_id : Option ℕ
  pub event : Text
  pub body : Text
  pub attempts : List AttemptLogEntry
  pub reason : Reason
  pub retried_at : Option ℕ

-- The arguments of `enqueue`; `body` is serialized.
pub record EnqueueParams : Type 0 where
  pub merchant_id : ℕ
  pub event : Text
  pub body : Text
  pub session_id : Option ℕ

-- What one operation reads from outside: the clock, a random number, a fresh id, and the functions of
-- other code that it calls (HMAC, the HTTP client, the printing of ids, times and JSON).
pub record Surroundings : Type 0 where
  pub now : ℕ
  pub rand : Random
  pub fresh_id : ℕ
  pub hmac : Text → Text → Text
  pub post : Post → HttpReply
  pub uuid_text : ℕ → Text
  pub iso_text : ℕ → Text
  pub json_text : Text → Text → Text → Text

-- The object that `process` hands to `deliver`.
abbrev pub delivery_request : Surroundings → QueueJob → DeliveryRequest
delivery_request env job = record {
  delivery_id = env.uuid_text job.id;
  timestamp = env.iso_text job.timestamp;
  event = job.event;
  sequence = job.sequence;
  payload = job.payload;
}

-- A map from keys, with one key set.
abbrev pub put {ℓ} : {A : Type ℓ} → (ℕ → A) → ℕ → A → ℕ → A
put f k v n = if k == n then v else f n

pub put-same {ℓ} : {A : Type ℓ} (f : ℕ → A) (k : ℕ) (v : A) → put f k v k ≡ v
put-same f k v = ground arith

pub put-other {ℓ} :
    {A : Type ℓ} (f : ℕ → A) (k n : ℕ) (v : A) → (k == n) ≡ false → put f k v n ≡ f n
put-other f k n v h = ground arith
