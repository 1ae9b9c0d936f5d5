-- ===== src/Webhook/Service/Payments.antt =====
-- From a payment to the webhook in the queue: processPayment, dispatchWebhook and enqueue.
use orbit_stream_backend.Common.{
  ℕ, ◌≡◌, refl, sym, subst, List, [], ◌∷◌, ◌++◌, Option, none, some, find?,
}
use orbit_stream_backend.Common.Text.{Text}
use orbit_stream_backend.Store.{Session, Confirmed, World, has_memo}
use orbit_stream_backend.Merchants.{Directory, has_merchant_id}
use orbit_stream_backend.Detector.{Op, process_payment, confirmed}
use orbit_stream_backend.Detector.Claim.{Claimable}
use orbit_stream_backend.Detector.Process.{Carries, no_faults, process_payment-pays}
use orbit_stream_backend.Webhook.Delivery.{DeliveryTarget}
use orbit_stream_backend.Webhook.Job.{EnqueueParams, Surroundings, put-same}
use orbit_stream_backend.Webhook.Zsets.{Zsets}
use orbit_stream_backend.Webhook.Queue.{Queue, enqueue, new_row, new_job}
use orbit_stream_backend.Webhook.Service.{target_of, confirmed_params, enqueue_if, dispatch_webhook}
use orbit_stream_backend.Webhook.Queue.Traces.{zadd_self}

module _ (redis : Zsets) where
  open redis use {zscore}

  -- One call of dispatchWebhook after the other.
  abbrev pub dispatched_to :
      (Confirmed → Surroundings)
      → (Confirmed → Text)
      → Directory
      → List Confirmed
      → Queue redis
      → Queue redis
  dispatched_to env body d [] q = q
  dispatched_to env body d (c ∷ cs) q =
      dispatched_to env body d cs (dispatch_webhook redis (env c) d (confirmed_params body c) q)

  -- One delivery was added: its row, and its job, which is due at once.
  abbrev pub IsEnqueued : Surroundings → EnqueueParams → Queue redis → Queue redis → Type 0
  IsEnqueued env params q q' =
      (sequence : ℕ) × (q'.deliveries ≡ new_row env params sequence ∷ q.deliveries)
      × (q'.jobs env.fresh_id ≡ some (new_job env params sequence))
      × (zscore q'.scheduled env.fresh_id ≡ some env.now)

  -- What the webhook of a merchant is, with and without a URL and a secret.
  abbrev pub IsDispatched :
      Option DeliveryTarget → Surroundings → EnqueueParams → Queue redis → Queue redis → Type 0
  IsDispatched none env params q q' = q' ≡ q
  IsDispatched (some target) env params q q' = IsEnqueued env params q q'

  enqueued :
      (env : Surroundings) (params : EnqueueParams) (so : Option ℕ) (q : Queue redis)
      → let p = record params { session_id = so } in IsEnqueued env p q (enqueue redis env p q).1
  unfolding enqueue
  enqueued env params none q =
      (0, refl, put-same q.jobs env.fresh_id _, zadd_self redis q.scheduled env.now env.fresh_id)
  enqueued env params (some sid) q =
      (_, refl, put-same q.jobs env.fresh_id _, zadd_self redis q.scheduled env.now env.fresh_id)

  dispatch_webhook-IsDispatched :
      (env : Surroundings) (d : Directory) (params : EnqueueParams) (q : Queue redis)
      → IsDispatched
          (target_of (find? (has_merchant_id params.merchant_id) d.merchants))
          env
          params
          q
          (dispatch_webhook redis env d params q)
  unfolding dispatch_webhook
  dispatch_webhook-IsDispatched env d params q =
      go (target_of (find? (has_merchant_id params.merchant_id) d.merchants))
    where
      go :
          (o : Option DeliveryTarget)
          → IsDispatched o env params q (enqueue_if redis o env params q)
      go none = refl
      go (some t) = enqueued env params params.session_id q

  dispatched_to-append :
      (env : Confirmed → Surroundings) (body : Confirmed → Text) (d : Directory)
      (cs : List Confirmed) (c : Confirmed) (q : Queue redis)
      → dispatched_to env body d (cs ++ c ∷ []) q
        ≡ dispatch_webhook redis (env c) d (confirmed_params body c) (dispatched_to env body d cs q)
  dispatched_to-append env body d [] c q = refl
  dispatched_to-append env body d (b ∷ cs) c q =
      dispatched_to-append env body d cs c
        (dispatch_webhook redis (env b) d (confirmed_params body b) q)

  -- With no fault, a payment that fits its session ends in exactly one new delivery of the merchant of the
  -- session, with its job due at once, if the merchant has a URL and a secret, and in none otherwise.
  pub process_payment-IsDispatched :
      (env : Confirmed → Surroundings) (body : Confirmed → Text) (d : Directory) (q : Queue redis)
      (now : ℕ) (memo : Text) (op : Op) (w : World) (s : Session)
      → Carries op memo
      → find? (has_memo memo) w.db.sessions ≡ some s
      → Claimable op w.db s
      → let w' = (process_payment now no_faults op w).1 in
        IsDispatched
          (target_of (find? (has_merchant_id s.merchant_id) d.merchants))
          (env (confirmed s op))
          (confirmed_params body (confirmed s op))
          (dispatched_to env body d w.dispatched q)
          (dispatched_to env body d w'.dispatched q)
  process_payment-IsDispatched env body d q now memo op w s carries found c =
      let (_, _, _, sent) = process_payment-pays now memo op w carries found c in
      let After : Queue redis → Type 0 =
        IsDispatched (target_of (find? (has_merchant_id s.merchant_id) d.merchants))
          (env (confirmed s op)) (confirmed_params body (confirmed s op))
          (dispatched_to env body d w.dispatched q) in
      subst (λ cs. After (dispatched_to env body d cs q)) (sym sent)
        (subst After (sym (dispatched_to-append env body d w.dispatched (confirmed s op) q)) (
          dispatch_webhook-IsDispatched (env (confirmed s op)) d
            (confirmed_params body (confirmed s op)) (dispatched_to env body d w.dispatched q)))
