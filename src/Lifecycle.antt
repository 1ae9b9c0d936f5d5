-- ===== src/Lifecycle.antt =====
-- The detector, the recovery job and the checkout service on one database. Each service reads and
-- writes in several transactions, so those of different instances interleave: `Write` has one
-- constructor for each transaction of the sources that writes, at the premises that the code has
-- ensured by then and that the other writers cannot undo. (src/payments/payment-detector.service.ts,
-- src/payments/payment-recovery.service.ts, src/checkout/checkout.service.ts)
pub mod Sound
pub mod Reached
pub mod Races
pub mod Tests
use orbit_stream_backend.Common.{ℕ, ◌≡◌, true, ◌++◌, ◌∷◌, [], some}
use orbit_stream_backend.Common.Text.{Text}
use orbit_stream_backend.Store.{
  pending, processing, paid, expired, cancelled, Session, Db, Confirmed, World, update_status,
  update_status_from, is_paid_for,
}
use orbit_stream_backend.Detector.{Op, claim_session, finalize}
use orbit_stream_backend.Checkout.{CheckoutConfig, CreateRequest, create_session}

pub data Write : World → World → Type 0 where
  -- phase 1 of processPayment
  claim :
      (w : World) (now : ℕ) (memo : Text) (op : Op)
      → Write w (record w { db = (claim_session now memo op w.db).1 })
  -- phase 2 of processPayment, and the transaction of reconcileStuckSession
  finalizes :
      (w : World) (now : ℕ) (s : Session) (op : Op)
      → Write w (record w { db = finalize now s op w.db })
  -- dispatchWebhook
  dispatches :
      (w : World) (c : Confirmed) → Write w (record w { dispatched = w.dispatched ++ c ∷ [] })
  -- revertToPending
  reverts :
      (w : World) (now id : ℕ)
      → Write w (record w { db = update_status_from processing pending now id w.db })
  -- recoverPendingWithPayments and recoverStuckPending, for a session that has a payment
  pays :
      (w : World) (now id : ℕ)
      → is_paid_for id w.db ≡ true
      → Write w (record w { db = update_status paid now id w.db })
  -- recoverStuckPending and getSession
  expires : (w : World) (now id : ℕ) → Write w (record w { db = update_status expired now id w.db })
  -- cancelSession
  cancels :
      (w : World) (now id : ℕ) → Write w (record w { db = update_status cancelled now id w.db })
  -- createSession
  creates :
      (w : World) (now : ℕ) (config : CheckoutConfig) (id : ℕ) (memo : Text) (merchant_id : ℕ)
      (dto : CreateRequest)
      → Write w (record w { db = (create_session now config id memo merchant_id dto w.db).1 })

-- Any sequence of writes.
pub data Reach (w : World) : World → Type 0 where
  here : Reach w w
  next : {u v : World} → Reach w u → Write u v → Reach w v
