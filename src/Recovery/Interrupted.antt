-- ===== src/Recovery/Interrupted.antt =====
-- A crash between the two phases of processPayment, and the recovery job after it.
use orbit_stream_backend.Common.{
  ℕ, ◌≡◌, refl, ap, ◌∙◌, true, false, Option, some, arith, any, find?, List, [], ◌∷◌, ◌++◌,
}
use orbit_stream_backend.Common.Text.{Text}
use orbit_stream_backend.Store.{
  processing, paid, Session, World, has_id, has_memo, set_status, has_key,
}
use orbit_stream_backend.Store.Keys.{
  find?-update_where, insert_payment-sessions, insert_payment-fresh, changed,
}
use orbit_stream_backend.Detector.{Op, Faults, payment_row, confirmed, process_payment, memo_given}
use orbit_stream_backend.Detector.Claim.{Claimable}
use orbit_stream_backend.Detector.Process.{Carries, process_payment-interrupted}
use orbit_stream_backend.Recovery.Agree.{given_memo}
use orbit_stream_backend.Recovery.{
  Horizon, confirms, find_confirming_payment, matched, settle_search, reconcile_stuck_session,
  confirm_session,
}

-- What the job finds for a session with a memo whose account has a page of payments.
pub find_confirming_payment-matched :
    (horizon : Horizon) (row : Session) (memo : Text) (records : List Op) (op : Op)
    → memo_given row.memo ≡ some memo
    → horizon.payments_for_account row.receiving_account ≡ some records
    → find? (confirms row) records ≡ some op
    → find_confirming_payment horizon row ≡ matched op
unfolding find_confirming_payment
find_confirming_payment-matched horizon row memo records op given page first =
    rw (given, page, first, find_confirming_payment)

confirm_session-row :
    (later : ℕ) (row : Session) (op : Op) (w : World) (memo : Text)
    → find? (has_memo memo) w.db.sessions ≡ some row
    → find? (has_memo memo) (confirm_session later row op w).db.sessions
      ≡ some (set_status paid later row)
unfolding confirm_session
confirm_session-row later row op w memo found = rw insert_payment-sessions (
    find?-update_where (has_memo memo) (has_id row.id) (set_status paid later) w.db.sessions
      (λ t. refl)
    ∙ ap (changed (has_id row.id) (set_status paid later)) found
    ∙ ground arith)

-- A row for which Horizon has a confirmed payment is paid, recorded and announced.
pub reconcile-matched :
    (later : ℕ) (horizon : Horizon) (row : Session) (op : Op) (w : World) (memo : Text)
    → find_confirming_payment horizon row ≡ matched op
    → horizon.verify_transaction op.transaction_hash ≡ true
    → reconcile_stuck_session later horizon row w ≡ confirm_session later row op w
unfolding reconcile_stuck_session settle_search
reconcile-matched later horizon row op w memo match ok = rw (match, ok, settle_search)

given_again :
    (o : Option Text) (memo : Text) → memo_given o ≡ some memo → memo_given (some memo) ≡ some memo
given_again o memo e = rw (given_memo o memo e) at e

-- Phase 1 of processPayment has committed and phase 2 has failed. If Horizon lists the operation as
-- the first that fits the session, and confirms its transaction, then reconciling the stuck row leaves
-- the session as paid, with the one payment row and the one webhook of a run without the failure.
pub interrupted-reconciled :
    (now later : ℕ) (memo : Text) (faults : Faults) (op : Op) (w : World) (s : Session)
    (horizon : Horizon) (records : List Op)
    → Carries op memo
    → find? (has_memo memo) w.db.sessions ≡ some s
    → Claimable op w.db s
    → faults.claim_fails ≡ false
    → faults.finalize_fails ≡ true
    → s.memo ≡ some memo
    → horizon.payments_for_account s.receiving_account ≡ some records
    → find? (confirms (set_status processing now s)) records ≡ some op
    → horizon.verify_transaction op.transaction_hash ≡ true
    → let w' =
        reconcile_stuck_session later horizon
          (set_status processing now s)
          (process_payment now faults op w).1 in
      (find? (has_memo memo) w'.db.sessions ≡ some (set_status paid later s))
      × (w'.db.payments ≡ w.db.payments ++ payment_row later s op ∷ [])
      × (w'.dispatched ≡ w.dispatched ++ confirmed s op ∷ [])
unfolding confirm_session
interrupted-reconciled now later memo faults op w s horizon records carries found c e1 e2 em page
      first ok =
    let row = set_status processing now s in
    let w1 = (process_payment now faults op w).1 in
    let given : memo_given s.memo ≡ some memo =
      rw em (given_again op.transaction_memo memo carries.1) in
    let (_, row1, payments1, dispatched1) =
      process_payment-interrupted now memo op w carries found faults c e1 e2 in
    let fresh : any (has_key op.transaction_hash s.id) w1.db.payments ≡ false =
      rw payments1 c.unrecorded in
    rw
      (reconcile-matched later horizon row op w1 memo
        (find_confirming_payment-matched horizon row memo records op given page first) ok)
      (
        confirm_session-row later row op w1 memo row1,
        insert_payment-fresh (payment_row later row op) w1.db fresh
            ∙ ap (λ ps. ps ++ payment_row later s op ∷ []) payments1,
        rw dispatched1,
      )
