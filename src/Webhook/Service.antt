-- ===== src/Webhook/Service.antt =====
-- src/webhook/webhook.service.ts, and src/webhook/webhook.controller.ts on it: the dispatch of a webhook,
-- the dead letters and the endpoints of a merchant. The tables are kept newest first, which is their order
-- by created_at.
pub mod Scoped
pub mod Payments
pub mod Limits
mod Tests
use orbit_stream_backend.Common.{
  ℕ, suc, ◌+◌, ◌/◌, ◌==◌, min, Bool, true, false, not, ◌&&◌, ◌||◌, List, [], ◌∷◌, ◌++◌, Option,
  none, some, if◌then◌else◌, map, filter, find?, any, take, Result, ok, err,
}
use orbit_stream_backend.Common.Text.{Text, codes, is_empty}
use orbit_stream_backend.Store.{Confirmed}
use orbit_stream_backend.Merchants.{Merchant, Directory, has_merchant_id, find_by_wallet}
use orbit_stream_backend.Webhook.Delivery.{DeliveryTarget}
use orbit_stream_backend.Webhook.Job.{DeliveryRow, DeadLetter, EnqueueParams, Surroundings}
use orbit_stream_backend.Webhook.Zsets.{Zsets}
use orbit_stream_backend.Webhook.Queue.{Queue, enqueue}
use orbit_stream_backend.Webhook.Requeue.{has_letter_id, requeue_dead_letter}

-- `!merchant?.webhookUrl || !merchant?.webhookSecret`
abbrev pub target_if : Option Text → Option Text → Option DeliveryTarget
target_if none secret = none
target_if (some url) none = none
target_if (some url) (some secret) =
    if is_empty url || is_empty secret then none else some (record { url = url; secret = secret })

abbrev pub target_of : Option Merchant → Option DeliveryTarget
target_of none = none
target_of (some m) = target_if m.webhook_url m.webhook_secret

-- A row of webhook_endpoints.
pub record WebhookEndpoint : Type 0 where
  pub id : ℕ
  pub merchant_id : ℕ
  pub url : Text
  pub events : List Text
  pub secret : Text
  pub is_active : Bool
  pub created_at : ℕ

pub record EndpointDto : Type 0 where
  pub id : ℕ
  pub url : Text
  pub events : List Text
  pub secret : Text
  pub active : Bool
  pub created_at : ℕ

abbrev pub to_endpoint_dto : WebhookEndpoint → EndpointDto
to_endpoint_dto e = record {
  id = e.id;
  url = e.url;
  events = e.events;
  secret = e.secret;
  active = e.is_active;
  created_at = e.created_at;
}

abbrev pub new_endpoint : Surroundings → Text → ℕ → Text → List Text → WebhookEndpoint
new_endpoint env random_hex merchant_id url events = record {
  id = env.fresh_id;
  merchant_id = merchant_id;
  url = url;
  events = events;
  secret = codes "whsec_" ++ random_hex;
  is_active = true;
  created_at = env.now;
}

-- id = … AND merchant_id = …
abbrev pub is_endpoint : ℕ → ℕ → WebhookEndpoint → Bool
is_endpoint merchant_id id e = e.id == id && e.merchant_id == merchant_id

abbrev pub is_letter : ℕ → ℕ → DeadLetter → Bool
is_letter merchant_id id letter = has_letter_id id letter && letter.merchant_id == merchant_id

-- The value of `Number(limit)`: NaN, an infinity, or a fraction with its sign, whose denominator is one
-- more than the last number.
pub data JsNumber : Type 0 where
  not_a_number : JsNumber
  infinite : Bool → JsNumber
  finite : Bool → ℕ → ℕ → JsNumber

unfoldable pub clamp_limit : JsNumber → ℕ
clamp_limit not_a_number = 50
clamp_limit (infinite is_negative) = 50
clamp_limit (finite true n d) = 50
clamp_limit (finite false n d) = if n == 0 then 50 else min (n / suc d) 100

-- The argument `data` of the detector's call is printed by the first argument.
abbrev pub confirmed_params : (Confirmed → Text) → Confirmed → EnqueueParams
confirmed_params body c = record {
  merchant_id = c.merchant_id;
  event = codes "payment.confirmed";
  body = body c;
  session_id = some c.session_id;
}

pub data RouteError : Type 0 where
  not_found : RouteError

unfoldable pub merchant_id_from_jwt : Text → Directory → Result RouteError ℕ
unfolding find_by_wallet
merchant_id_from_jwt wallet d = elim (find_by_wallet wallet d) [
  | none ↦ err not_found
  | some m ↦ ok m.id
]

module _ (redis : Zsets) where
  -- The endpoints, and what the queue holds.
  pub record Hooks : Type 0 where
    pub endpoints : List WebhookEndpoint
    pub queue : Queue redis

  abbrev pub enqueue_if :
      Option DeliveryTarget → Surroundings → EnqueueParams → Queue redis → Queue redis
  enqueue_if none env params q = q
  enqueue_if (some target) env params q = (enqueue redis env params q).1

  unfoldable pub dispatch_webhook :
      Surroundings → Directory → EnqueueParams → Queue redis → Queue redis
  unfolding enqueue
  dispatch_webhook env d params q =
      enqueue_if (target_of (find? (has_merchant_id params.merchant_id) d.merchants)) env params q

  unfoldable pub list_deliveries : ℕ → ℕ → Queue redis → List DeliveryRow
  list_deliveries merchant_id limit q =
      take limit (filter (λ r. r.merchant_id == merchant_id) q.deliveries)

  unfoldable pub list_dead_letters : ℕ → ℕ → Queue redis → List DeadLetter
  list_dead_letters merchant_id limit q =
      take limit (filter (λ l. l.merchant_id == merchant_id) q.dead_letters)

  unfoldable pub retry_dead_letter : Surroundings → ℕ → ℕ → Queue redis → Option ℕ × Queue redis
  unfolding requeue_dead_letter
  retry_dead_letter env merchant_id id q = requeue_dead_letter redis env merchant_id id q

  unfoldable pub dismiss_dead_letter : ℕ → ℕ → Queue redis → Bool × Queue redis
  dismiss_dead_letter merchant_id id q = (
    any (is_letter merchant_id id) q.dead_letters,
    record q { dead_letters = filter (λ l. not (is_letter merchant_id id l)) q.dead_letters },
  )

  unfoldable pub create_endpoint :
      Surroundings → Text → ℕ → Text → List Text → Hooks → EndpointDto × Hooks
  create_endpoint env random_hex merchant_id url events h =
      let e = new_endpoint env random_hex merchant_id url events in
      (to_endpoint_dto e, record h { endpoints = e ∷ h.endpoints })

  unfoldable pub list_endpoints : ℕ → Hooks → List EndpointDto
  list_endpoints merchant_id h =
      map to_endpoint_dto (filter (λ e. e.merchant_id == merchant_id) h.endpoints)

  unfoldable pub delete_endpoint : ℕ → ℕ → Hooks → Bool × Hooks
  delete_endpoint merchant_id id h = (
    any (is_endpoint merchant_id id) h.endpoints,
    record h { endpoints = filter (λ e. not (is_endpoint merchant_id id e)) h.endpoints },
  )

  -- The requests that change something, once a guard has found the merchant.
  pub data HookRequest : Type 0 where
    create : Text → Text → List Text → HookRequest
    delete retry dismiss : ℕ → HookRequest

  pub data HookReply : Type 0 where
    created : EndpointDto → HookReply
    requeued_as : ℕ → HookReply
    done : HookReply

  abbrev pub requeued_or : Option ℕ → Result RouteError HookReply
  requeued_or none = err not_found
  requeued_or (some id) = ok (requeued_as id)

  abbrev pub done_if : Bool → Result RouteError HookReply
  done_if true = ok done
  done_if false = err not_found

  -- The handlers of the controller.
  unfoldable pub handle :
      Surroundings → ℕ → HookRequest → Hooks → Result RouteError HookReply × Hooks
  unfolding create_endpoint delete_endpoint retry_dead_letter dismiss_dead_letter
  handle env merchant_id (create random_hex url events) h =
      let (dto, h') = create_endpoint env random_hex merchant_id url events h in
      (ok (created dto), h')
  handle env merchant_id (delete id) h =
      let (found, h') = delete_endpoint merchant_id id h in (done_if found, h')
  handle env merchant_id (retry id) h =
      let (new_id, q) = retry_dead_letter env merchant_id id h.queue in
      (requeued_or new_id, record h { queue = q })
  handle env merchant_id (dismiss id) h =
      let (found, q) = dismiss_dead_letter merchant_id id h.queue in
      (done_if found, record h { queue = q })
