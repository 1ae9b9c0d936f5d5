-- ===== src/Webhook/Delivery.antt =====
-- src/webhook/webhook-delivery.service.ts: one attempt to deliver.
use orbit_stream_backend.Common.{ℕ, ◌≤◌, ◌<◌, ◌≡◌, ◌↔◌, ◌≢◌, refl, ◌++◌, Option, none, some, arith}
use orbit_stream_backend.Common.Text.{Text, codes}
use orbit_stream_backend.Webhook.Constants.{DeliveryOutcome, success, retry, dead, classify_status}
use orbit_stream_backend.Webhook.Signature.{sign_payload}

pub record DeliveryTarget : Type 0 where
  pub url : Text
  pub secret : Text

pub record DeliveryRequest : Type 0 where
  pub delivery_id : Text
  pub timestamp : Text
  pub event : Text
  pub sequence : ℕ
  pub payload : Text

-- What goes over the wire: the body and the headers that depend on the request.
pub record Post : Type 0 where
  pub url : Text
  pub body : Text
  pub event_header : Text
  pub delivery_id_header : Text
  pub timestamp_header : Text
  pub sequence_header : ℕ
  pub signature_header : Text

-- How the call of axios ends: with a status, or with the message of an error (no answer in time, no
-- connection).
pub data HttpReply : Type 0 where
  responds : ℕ → HttpReply
  network_error : Text → HttpReply

-- Why an attempt failed: the status (`HTTP ${status}`) or the message of the error.
pub data Failure : Type 0 where
  http_status : ℕ → Failure
  message : Text → Failure

pub record DeliveryResult : Type 0 where
  pub outcome : DeliveryOutcome
  pub status : Option ℕ
  pub error : Option Failure

unfoldable pub build_post : (Text → Text → Text) → DeliveryTarget → DeliveryRequest → Post
unfolding sign_payload
build_post hmac target req = record {
  url = target.url;
  body = req.payload;
  event_header = req.event;
  delivery_id_header = req.delivery_id;
  timestamp_header = req.timestamp;
  sequence_header = req.sequence;
  signature_header =
      codes "sha256=" ++ sign_payload hmac target.secret req.delivery_id req.timestamp req.payload;
}

abbrev pub failure_of : DeliveryOutcome → ℕ → Option Failure
failure_of success status = none
failure_of retry status = some (http_status status)
failure_of dead status = some (http_status status)

unfoldable pub result_of : HttpReply → DeliveryResult
unfolding classify_status
result_of (responds status) = record {
  outcome = classify_status status;
  status = some status;
  error = failure_of (classify_status status) status;
}
result_of (network_error m) = record { outcome = retry; status = none; error = some (message m) }

-- The world answers each post.
unfoldable pub deliver :
    (Text → Text → Text) → (Post → HttpReply) → DeliveryTarget → DeliveryRequest → DeliveryResult
unfolding build_post result_of
deliver hmac post target req = result_of (post (build_post hmac target req))

-- An attempt is given up for good exactly when the endpoint answers with a status from 400 to 499
-- other than 408 and 429; it counts as delivered exactly on a status from 200 to 299.
pub result_of_iff :
    (reply : HttpReply)
    → (((result_of reply).outcome ≡ dead) ↔ (
        (status : ℕ) × (reply ≡ responds status)
        × (400 ≤ status)
        × (status < 500)
        × (status ≢ 408)
        × (status ≢ 429)))
      × (((result_of reply).outcome ≡ success)
          ↔ ((status : ℕ) × (reply ≡ responds status) × (200 ≤ status) × (status < 300)))
unfolding result_of classify_status
result_of_iff (responds status) = (
  (
    λ e. (status, refl, ground arith, ground arith, ground arith, ground arith),
    λ (s, e, lo, hi, a, b). ground (arith, e),
  ),
  (λ e. (status, refl, ground arith, ground arith), λ (s, e, lo, hi). ground (arith, e)),
)
result_of_iff (network_error m) = (
  (λ e. absurd (ground (arith, e)), λ (s, e, lo, hi, a, b). absurd (ground (arith, e))),
  (λ e. absurd (ground (arith, e)), λ (s, e, lo, hi). absurd (ground (arith, e))),
)
