-- ===== src/Recovery.antt =====
-- src/payments/payment-recovery.service.ts: the job that every five minutes repairs sessions whose
-- payment was interrupted. What Horizon answers is an argument: the page of payments of an account,
-- `none` where the request fails, and whether a transaction is confirmed.
pub mod Agree
pub mod Interrupted
pub mod Settled
pub mod Rerun
pub mod Stale
use orbit_stream_backend.Common.{
  ℕ, ◌-◌, ◌*◌, Bool, true, false, ◌&&◌, ◌||◌, List, [], ◌∷◌, ◌++◌, Option, none, some,
  if◌then◌else◌, ltb, find?, filter, map,
}
use orbit_stream_backend.Common.Text.{Text, codes, text_eq, is_empty}
use orbit_stream_backend.Amount.{are_amounts_equal}
use orbit_stream_backend.Store.{
  Status, pending, processing, paid, expired, Session, Payment, Db, Confirmed, World, is_status,
  update_status, update_status_from, insert_payment, is_paid_for, pays_for,
}
use orbit_stream_backend.Detector.{Op, is_asset, memo_given, payment_row, confirmed}

-- The answers of StellarService in one run of the job.
pub record Horizon : Type 0 where
  pub payments_for_account : ℕ → Option (List Op)
  pub verify_transaction : ℕ → Bool

-- `STALE_MINUTES * 60 * 1000` before now
abbrev pub stale_threshold : ℕ → ℕ
stale_threshold now = now - 5 * 60 * 1000

-- `r.transaction_memo === row.memo`
abbrev pub same_memo : Option Text → Option Text → Bool
same_memo (some m) (some n) = text_eq m n
same_memo _ _ = false

-- The test of `findConfirmingPayment`.
unfoldable pub confirms : Session → Op → Bool
confirms row r =
    text_eq r.type (codes "payment")
    && same_memo r.transaction_memo row.memo
    && are_amounts_equal r.amount row.amount 7
    && (is_asset r.asset_code row.asset_code || text_eq row.asset_code (codes "XLM"))

-- What `reconcileStuckSession` finds: the request failed, no match, or a match.
pub data Search : Type 0 where
  failed unmatched : Search
  matched : Op → Search

abbrev pub search_result : Option Op → Search
search_result none = unmatched
search_result (some op) = matched op

-- `row.memo ? await this.findConfirmingPayment(row) : null`
unfoldable pub find_confirming_payment : Horizon → Session → Search
unfolding confirms
find_confirming_payment horizon row = elim (memo_given row.memo) [
  | none ↦ unmatched
  | some _ ↦ elim (horizon.payments_for_account row.receiving_account) [
    | none ↦ failed
    | some records ↦ search_result (find? (confirms row) records)
  ]
]

-- `revertToPending`
unfoldable pub revert_to_pending : ℕ → ℕ → World → World
revert_to_pending now id w = record w { db = update_status_from processing pending now id w.db }

-- The transaction that inserts the payment and marks the session as paid, and the webhook.
unfoldable pub confirm_session : ℕ → Session → Op → World → World
confirm_session now row op w = record {
  db = update_status paid now row.id (insert_payment (payment_row now row op) w.db);
  dispatched = w.dispatched ++ confirmed row op ∷ [];
}

-- `reconcileStuckSession`; an error of the request is logged by the caller and changes nothing.
unfoldable pub settle_search : ℕ → Horizon → Session → Search → World → World
unfolding revert_to_pending confirm_session
settle_search now horizon row failed w = w
settle_search now horizon row unmatched w = revert_to_pending now row.id w
settle_search now horizon row (matched op) w =
    if horizon.verify_transaction op.transaction_hash
    then confirm_session now row op w
    else revert_to_pending now row.id w

unfoldable pub reconcile_stuck_session : ℕ → Horizon → Session → World → World
unfolding settle_search find_confirming_payment
reconcile_stuck_session now horizon row w =
    settle_search now horizon row (find_confirming_payment horizon row) w

unfoldable pub reconcile_all : ℕ → Horizon → List Session → World → World
unfolding reconcile_stuck_session
reconcile_all now horizon [] w = w
reconcile_all now horizon (row ∷ rows) w =
    reconcile_all now horizon rows (reconcile_stuck_session now horizon row w)

-- `WHERE status = 'processing' AND status_changed_at < threshold`
abbrev pub is_stuck : ℕ → Session → Bool
is_stuck now s = is_status processing s && ltb s.status_changed_at (stale_threshold now)

unfoldable pub recover_stuck_processing : ℕ → Horizon → World → World
unfolding reconcile_all
recover_stuck_processing now horizon w =
    reconcile_all now horizon (filter (is_stuck now) w.db.sessions) w

-- The rows of `INNER JOIN payments p ON p.session_id = cs.id`.
abbrev pub payment_pairs : List Payment → Session → List (Session × Payment)
payment_pairs ps s = map (λ p. (s, p)) (filter (pays_for s.id) ps)

abbrev pub join_payments : List Payment → List Session → List (Session × Payment)
join_payments ps [] = []
join_payments ps (s ∷ ss) = payment_pairs ps s ++ join_payments ps ss

-- The webhook for a joined row.
abbrev pub confirmed_row : Session × Payment → Confirmed
confirmed_row (s, p) = record {
  merchant_id = s.merchant_id;
  session_id = s.id;
  tx_hash = p.tx_hash;
  amount = p.amount;
  asset = p.asset_code;
  sender = p.sender_address;
}

unfoldable pub pay_rows : ℕ → List (Session × Payment) → World → World
pay_rows now [] w = w
pay_rows now ((s, p) ∷ rows) w = pay_rows now rows (record {
  db = update_status paid now s.id w.db;
  dispatched = w.dispatched ++ confirmed_row (s, p) ∷ [];
})

unfoldable pub recover_pending_with_payments : ℕ → World → World
unfolding pay_rows
recover_pending_with_payments now w =
    pay_rows now (join_payments w.db.payments (filter (is_status pending) w.db.sessions)) w

-- `WHERE status = 'pending' AND created_at < threshold`
abbrev pub is_stale : ℕ → Session → Bool
is_stale now s = is_status pending s && ltb s.created_at (stale_threshold now)

-- One round of the loop of `recoverStuckPending`.
unfoldable pub settle_stale : ℕ → Session → Db → Db
settle_stale now row db =
    if is_paid_for row.id db
    then update_status paid now row.id db
    else update_status expired now row.id db

unfoldable pub settle_all : ℕ → List Session → Db → Db
unfolding settle_stale
settle_all now [] db = db
settle_all now (row ∷ rows) db = settle_all now rows (settle_stale now row db)

unfoldable pub recover_stuck_pending : ℕ → World → World
unfolding settle_all
recover_stuck_pending now w = record w {
  db = settle_all now (filter (is_stale now) w.db.sessions) w.db;
}

-- `recoverPaidWithoutPayments` only logs these sessions.
unfoldable pub recover_paid_without_payments : World → List Session
recover_paid_without_payments w =
    filter (λ s. is_status paid s && (if is_paid_for s.id w.db then false else true)) w.db.sessions

-- One run of the job, at the times at which its four parts begin.
unfoldable pub recover_stale_sessions : ℕ → Horizon → World → World
unfolding recover_stuck_processing recover_pending_with_payments recover_stuck_pending
recover_stale_sessions now horizon w =
    recover_stuck_pending now
      (recover_pending_with_payments now (recover_stuck_processing now horizon w))
