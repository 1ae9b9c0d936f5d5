-- ===== src/Lifecycle/Tests.antt =====
-- One checkout session, the payment for it, and runs of the services on them.
use orbit_stream_backend.Common.{◌≡◌, ◌↔◌, refl, true, false, [], ◌∷◌, none, some, find?, inr, All}
use orbit_stream_backend.Common.Text.{codes}
use orbit_stream_backend.Amount.{are_amounts_equal}
use orbit_stream_backend.Store.{
  expired, pending, processing, paid, Session, World, has_memo, set_status, find_session,
  is_paid_for,
}
use orbit_stream_backend.Store.Invariant.{IsSound}
use orbit_stream_backend.Detector.{Op, Faults, payment_row, process_payment, claim_session}
use orbit_stream_backend.Detector.Claim.{Claimable}
use orbit_stream_backend.Detector.Process.{
  Carries, no_faults, process_payment-pays, process_payment-idempotent, process_payment-rejects,
}
use orbit_stream_backend.Recovery.{
  Horizon, confirms, reconcile_stuck_session, is_stuck, recover_stuck_processing,
  recover_stuck_pending, recover_stale_sessions,
}
use orbit_stream_backend.Recovery.Agree.{confirms-iff-claim_session}
use orbit_stream_backend.Recovery.Interrupted.{interrupted-reconciled}
use orbit_stream_backend.Recovery.Settled.{recover_stuck_processing-settles}
use orbit_stream_backend.Recovery.Stale.{recover_stuck_pending-settles}
use orbit_stream_backend.Checkout.{CheckoutConfig, expire_read}
use orbit_stream_backend.Lifecycle.{Reach}
use orbit_stream_backend.Lifecycle.Sound.{Reach-IsSound}
use orbit_stream_backend.Lifecycle.Reached.{process_payment-Reach, recover_stale_sessions-Reach}
use orbit_stream_backend.Lifecycle.Races.{
  expire_read-overwrites_paid, settle_stale-overwrites_processing,
}
use orbit_stream_backend.Recovery.Rerun.{recover_pending_with_payments-idempotent}
use orbit_stream_backend.Recovery.{settle_stale, recover_pending_with_payments}

abbrev pub order : Session
order = record {
  id = 1;
  merchant_id = 7;
  amount = codes "25.0000000";
  asset_code = codes "XLM";
  asset_issuer = none;
  receiving_account = 50;
  memo = some (codes "a1b2");
  status = pending;
  expires_at = 1_900_000;
  status_changed_at = 100_000;
  created_at = 100_000;
}

abbrev pub transfer : Op
transfer = record {
  type = codes "payment";
  transaction_memo = some (codes "a1b2");
  transaction_hash = 900;
  amount = codes "25";
  asset_code = none;
  asset_issuer = none;
  sender = 60;
  paging_token = some (codes "12345");
}

abbrev pub shop : World
shop = record { db = record { sessions = order ∷ []; payments = [] }; dispatched = [] }

abbrev crash : Faults
crash = record { claim_fails = false; finalize_fails = true; dispatch_fails = false }

abbrev ledger : Horizon
ledger = record { payments_for_account = λ a. some (transfer ∷ []); verify_transaction = λ h. true }

amounts_agree : are_amounts_equal (codes "25") (codes "25.0000000") 7 ≡ true
unfolding are_amounts_equal
amounts_agree = refl

pub transfer-Carries : Carries transfer (codes "a1b2")
transfer-Carries = (refl, refl)

pub order-Claimable : Claimable transfer shop.db order
order-Claimable = record {
  is_pending = refl;
  same_amount = amounts_agree;
  asset_fits = inr refl;
  unrecorded = refl;
}

process_payment-pays_example :
    find? (has_memo (codes "a1b2")) (process_payment 200_000 no_faults transfer shop).1.db.sessions
    ≡ some (set_status paid 200_000 order)
process_payment-pays_example =
    (process_payment-pays 200_000 (codes "a1b2") transfer shop transfer-Carries refl
      order-Claimable).1

process_payment-idempotent_example :
    (process_payment 300_000 crash transfer (process_payment 200_000 no_faults transfer shop).1).1
    ≡ (process_payment 200_000 no_faults transfer shop).1
process_payment-idempotent_example =
    process_payment-idempotent 200_000 300_000 no_faults crash transfer shop refl

-- One unit of the last decimal too little.
abbrev short : Op
short = record transfer { amount = codes "24.9999999" }

amounts_differ : are_amounts_equal (codes "24.9999999") (codes "25.0000000") 7 ≡ false
unfolding are_amounts_equal
amounts_differ = refl

short-not_Claimable : ¬ Claimable short shop.db order
short-not_Claimable c = cc amounts_differ

process_payment-rejects_example : (process_payment 200_000 no_faults short shop).1 ≡ shop
process_payment-rejects_example =
    process_payment-rejects 200_000 (codes "a1b2") no_faults short shop order transfer-Carries refl
      short-not_Claimable

confirms-iff-claim_session_example :
    (confirms order transfer ≡ true)
    ↔ ((claim_session 200_000 (codes "a1b2") transfer shop.db).0 ≡ some order)
confirms-iff-claim_session_example =
    confirms-iff-claim_session 200_000 (codes "a1b2") transfer shop.db order transfer-Carries refl
      refl refl

transfer-confirms :
    find? (confirms (set_status processing 200_000 order)) (transfer ∷ []) ≡ some transfer
unfolding confirms are_amounts_equal
transfer-confirms = refl

interrupted-reconciled_example :
    (reconcile_stuck_session 900_000 ledger
      (set_status processing 200_000 order)
      (process_payment 200_000 crash transfer shop).1).db.payments
    ≡ payment_row 900_000 order transfer ∷ []
interrupted-reconciled_example =
    (interrupted-reconciled 200_000 900_000 (codes "a1b2") crash transfer shop order ledger
      (transfer ∷ []) transfer-Carries refl order-Claimable refl refl refl refl transfer-confirms
      refl).1

recover_stuck_processing-settles_example :
    All
      (λ s. is_stuck 900_000 s ≡ false)
      (recover_stuck_processing 900_000 ledger
        (process_payment 200_000 crash transfer shop).1).db.sessions
recover_stuck_processing-settles_example =
    recover_stuck_processing-settles 900_000 ledger (process_payment 200_000 crash transfer shop).1
      (λ a e. cc)

-- The session is pending and its payment is recorded.
abbrev orphaned : World
orphaned = record shop {
  db = record { sessions = order ∷ []; payments = payment_row 200_000 order transfer ∷ [] };
}

recover_stuck_pending-settles_example :
    find_session 1 (recover_stuck_pending 900_000 orphaned).db
    ≡ some (set_status paid 900_000 order)
recover_stuck_pending-settles_example =
    recover_stuck_pending-settles 900_000 1 orphaned order refl refl

shop-IsSound : IsSound shop.db
shop-IsSound = record { backed = (refl, tt); unique = tt }

recover_stale_sessions-Reach_example :
    Reach orphaned (recover_stale_sessions 900_000 ledger orphaned)
recover_stale_sessions-Reach_example = recover_stale_sessions-Reach 900_000 ledger orphaned

abbrev settings : CheckoutConfig
settings = record { receiving_account = some 50; session_ttl_minutes = 30 }

Reach-IsSound_example : IsSound (process_payment 200_000 no_faults transfer shop).1.db
Reach-IsSound_example =
    Reach-IsSound (process_payment-Reach 200_000 no_faults transfer shop) shop-IsSound

expire_read-overwrites_paid_example :
    is_paid_for 1
      (expire_read 1_950_000 order (process_payment 1_960_000 no_faults transfer shop).1.db).1
    ≡ true
expire_read-overwrites_paid_example =
    (expire_read-overwrites_paid 1_950_000 1_960_000 (codes "a1b2") transfer shop order
      transfer-Carries refl order-Claimable refl).1

recover_pending_with_payments-idempotent_example :
    recover_pending_with_payments 310_000 (recover_pending_with_payments 300_000 orphaned)
    ≡ recover_pending_with_payments 300_000 orphaned
recover_pending_with_payments-idempotent_example =
    recover_pending_with_payments-idempotent 300_000 310_000 orphaned

settle_stale-overwrites_processing_example :
    find?
      (has_memo (codes "a1b2"))
      (settle_stale 500_000 order (process_payment 490_000 crash transfer shop).1.db).sessions
    ≡ some (set_status expired 500_000 order)
settle_stale-overwrites_processing_example =
    settle_stale-overwrites_processing 500_000 490_000 (codes "a1b2") crash transfer shop order
      transfer-Carries refl order-Claimable refl refl refl
