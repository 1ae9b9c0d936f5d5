-- ===== src/Detector.antt =====
-- src/payments/payment-detector.service.ts: claiming a session for a payment operation that Horizon
-- reports, recording the payment, and marking the session as paid.
pub mod Claim
pub mod Process
pub mod Assets
use orbit_stream_backend.Common.{
  ℕ, ◌==◌, Bool, true, false, not, ◌&&◌, List, [], ◌∷◌, ◌++◌, Option, none, some, if◌then◌else◌,
  find?, any, count_if,
}
use orbit_stream_backend.Common.Text.{Text, codes, text_eq, is_empty}
use orbit_stream_backend.Amount.{are_amounts_equal}
use orbit_stream_backend.Store.{
  Status, pending, processing, paid, same_status, Session, Payment, Db, Confirmed, World, has_id,
  is_status, has_memo, update_status, update_status_from, has_key, insert_payment,
}

-- A payment operation of a Horizon page; a missing field is `none`.
pub record Op : Type 0 where
  pub type : Text
  pub transaction_memo : Option Text
  pub transaction_hash : ℕ
  pub amount : Text
  pub asset_code : Option Text
  pub asset_issuer : Option Text
  pub sender : ℕ
  pub paging_token : Option Text

-- `op.asset_code !== code`
abbrev pub is_asset : Option Text → Text → Bool
is_asset none code = false
is_asset (some c) code = text_eq c code

-- `op.asset_code ?? 'XLM'`
abbrev pub asset_or_native : Option Text → Text
asset_or_native none = codes "XLM"
asset_or_native (some c) = c

-- `!memo`: missing or empty
abbrev pub memo_given : Option Text → Option Text
memo_given none = none
memo_given (some m) = if is_empty m then none else some m

-- `claimSession` once the row is locked.
pub claim_locked : ℕ → Op → Db → Session → Option Session × Db
claim_locked now op db session =
    if is_status paid session
    then (none, db)
    else if not (is_status pending session)
    then (none, db)
    else if not (are_amounts_equal op.amount session.amount 7)
    then (none, db)
    else if not (is_asset op.asset_code session.asset_code)
        && not (text_eq session.asset_code (codes "XLM"))
    then (none, db)
    else if any (has_key op.transaction_hash session.id) db.payments
    then (none, db)
    else if count_if (λ s. has_id session.id s && is_status pending s) db.sessions == 0
    then (none, update_status_from pending processing now session.id db)
    else (some session, update_status_from pending processing now session.id db)

unfoldable pub claim_session : ℕ → Text → Op → Db → Option Session × Db
unfolding claim_locked
claim_session now memo op db = elim (find? (has_memo memo) db.sessions) [
  | none ↦ (none, db)
  | some session ↦ claim_locked now op db session
]

-- The row that phase 2 inserts.
abbrev pub payment_row : ℕ → Session → Op → Payment
payment_row now session op = record {
  session_id = session.id;
  merchant_id = session.merchant_id;
  tx_hash = op.transaction_hash;
  amount = op.amount;
  asset_code = asset_or_native op.asset_code;
  asset_issuer = op.asset_issuer;
  sender_address = op.sender;
  confirmed_at = now;
}

-- The transaction of phase 2.
unfoldable pub finalize : ℕ → Session → Op → Db → Db
finalize now session op db =
    update_status paid now session.id (insert_payment (payment_row now session op) db)

abbrev pub confirmed : Session → Op → Confirmed
confirmed session op = record {
  merchant_id = session.merchant_id;
  session_id = session.id;
  tx_hash = op.transaction_hash;
  amount = op.amount;
  asset = asset_or_native op.asset_code;
  sender = op.sender;
}

-- Which calls to the database fail in this run: a transaction that fails is rolled back.
pub record Faults : Type 0 where
  pub claim_fails : Bool
  pub finalize_fails : Bool
  pub dispatch_fails : Bool

-- How `processPayment` ends.
pub data Ending : Type 0 where
  returns throws : Ending

-- Phase 2 and the webhook.
unfoldable pub complete : ℕ → Faults → Op → World → Option Session × Db → Ending × World
unfolding finalize
complete now faults op w (none, db) = (returns, record w { db = db })
complete now faults op w (some session, db) =
    if faults.finalize_fails
    then (returns, record w { db = db })
    else if faults.dispatch_fails
    then (throws, record w { db = finalize now session op db })
    else (
      returns,
      record w {
        db = finalize now session op db;
        dispatched = w.dispatched ++ confirmed session op ∷ [];
      },
    )

unfoldable pub process_payment : ℕ → Faults → Op → World → Ending × World
unfolding claim_session complete
process_payment now faults op w =
    if not (text_eq op.type (codes "payment"))
    then (returns, w)
    else elim (memo_given op.transaction_memo) [
      | none ↦ (returns, w)
      | some memo ↦
          if faults.claim_fails
          then (throws, w)
          else complete now faults op w (claim_session now memo op w.db)
    ]
