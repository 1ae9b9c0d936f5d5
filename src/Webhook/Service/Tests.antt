-- ===== src/Webhook/Service/Tests.antt =====
-- The requests of a merchant, a payment that is announced, and the theorems applied to them.
use orbit_stream_backend.Common.{ℕ, ◌*◌, ◌≡◌, refl, false, [], ◌∷◌, none, some, err}
use orbit_stream_backend.Common.Text.{codes}
use orbit_stream_backend.Merchants.{Directory, new_merchant}
use orbit_stream_backend.Webhook.Delivery.{HttpReply}
use orbit_stream_backend.Webhook.Job.{DeadLetter, Reason, Surroundings}
use orbit_stream_backend.Webhook.Requeue.{requeue_dead_letter}
use orbit_stream_backend.Webhook.Service.{
  JsNumber, clamp_limit, Hooks, HookRequest, not_found, handle, retry_dead_letter, confirmed_params,
}
use orbit_stream_backend.Webhook.Service.Scoped.{AreKept, handle-AreKept}
use orbit_stream_backend.Webhook.Service.Payments.{
  dispatched_to, IsEnqueued, process_payment-IsDispatched,
}
use orbit_stream_backend.Detector.{process_payment, confirmed}
use orbit_stream_backend.Detector.Process.{no_faults}
use orbit_stream_backend.Lifecycle.Tests.{order, transfer, shop, transfer-Carries, order-Claimable}
use orbit_stream_backend.Webhook.Tests.Sets.{sets, no_members}

abbrev surroundings : Surroundings
surroundings = record {
  now = 5_000;
  rand = record { numerator = 0; denominator = 1 };
  fresh_id = 77;
  hmac = λ secret content. content;
  post = λ p. HttpReply.responds 200;
  uuid_text = λ n. n ∷ [];
  iso_text = λ n. n ∷ [];
  json_text = λ event body timestamp. event;
}

abbrev letter_of : ℕ → ℕ → DeadLetter
letter_of id merchant = record {
  id = id;
  merchant_id = merchant;
  delivery_id = 10 * id;
  session_id = some 9;
  event = codes "payment.confirmed";
  body = codes "{}";
  attempts = [];
  reason = Reason.attempts_exhausted;
  retried_at = none;
}

abbrev two_letters : Hooks sets
two_letters = record {
  endpoints = [];
  queue = record {
    scheduled = no_members;
    sessions = λ sid. no_members;
    jobs = λ id. none;
    seqs = λ sid. none;
    deliveries = [];
    dead_letters = letter_of 4 1 ∷ letter_of 5 2 ∷ [];
  };
}

foreign_letter : (handle sets surroundings 1 (HookRequest.retry 5) two_letters).0 ≡ err not_found
unfolding handle retry_dead_letter requeue_dead_letter
foreign_letter = refl

handle-AreKept_example :
    AreKept sets 1 two_letters (handle sets surroundings 1 (HookRequest.retry 4) two_letters).1
    × ((handle sets surroundings 1 (HookRequest.retry 4) two_letters).0 ≡ err not_found
        → (handle sets surroundings 1 (HookRequest.retry 4) two_letters).1 ≡ two_letters)
handle-AreKept_example =
    handle-AreKept sets surroundings 1 (HookRequest.retry 4) two_letters (refl, (refl, tt))

half : clamp_limit (JsNumber.finite false 1 1) ≡ 0
unfolding clamp_limit
half = refl

-- The merchant of the order, with a URL and a secret.
abbrev hooked : Directory
hooked = record {
  merchants =
      record (new_merchant
        (record { fresh_id = 7; random_hex = []; sha256 = λ t. t; audit_fails = false })
        (codes "GA") (codes "A") (codes "a@a")) {
          webhook_url = some (codes "https://shop/hook");
          webhook_secret = some (codes "s");
        }
      ∷ [];
  api_keys = [];
  audit_logs = [];
}

process_payment-IsDispatched_example :
    IsEnqueued sets surroundings
      (confirmed_params (λ c. codes "{}") (confirmed order transfer))
      two_letters.queue
      (dispatched_to sets
        (λ c. surroundings)
        (λ c. codes "{}")
        hooked
        (process_payment 200_000 no_faults transfer shop).1.dispatched
        two_letters.queue)
process_payment-IsDispatched_example =
    process_payment-IsDispatched sets (λ c. surroundings) (λ c. codes "{}") hooked two_letters.queue
      200_000 (codes "a1b2") transfer shop order transfer-Carries refl order-Claimable
