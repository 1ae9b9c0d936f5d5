-- ===== src/Store.antt =====
-- The tables checkout_sessions and payments of src/db/schema.ts, which the detector, the recovery
-- job and the checkout service share, and the queries that these run on them. A table is the list
-- of its rows, SELECT a search or filter, UPDATE a change of the rows that the WHERE clause takes.
-- Ids, hashes and addresses are opaque numbers, times are milliseconds.
pub mod Keys
pub mod Invariant
use orbit_stream_backend.Common.{
  ℕ, ◌==◌, Bool, true, false, ◌&&◌, List, [], ◌∷◌, ◌++◌, Option, none, some, if◌then◌else◌, find?,
  any,
}
use orbit_stream_backend.Common.Text.{Text, text_eq}

pub data Status : Type 0 where
  pending processing paid expired cancelled : Status

abbrev pub same_status : Status → Status → Bool
same_status pending pending = true
same_status processing processing = true
same_status paid paid = true
same_status expired expired = true
same_status cancelled cancelled = true
same_status _ _ = false

pub record Session : Type 0 where
  pub id : ℕ
  pub merchant_id : ℕ
  pub amount : Text
  pub asset_code : Text
  pub asset_issuer : Option Text
  pub receiving_account : ℕ
  pub memo : Option Text
  pub status : Status
  pub expires_at : ℕ
  pub status_changed_at : ℕ
  pub created_at : ℕ

pub record Payment : Type 0 where
  pub session_id : ℕ
  pub merchant_id : ℕ
  pub tx_hash : ℕ
  pub amount : Text
  pub asset_code : Text
  pub asset_issuer : Option Text
  pub sender_address : ℕ
  pub confirmed_at : ℕ

pub record Db : Type 0 where
  pub sessions : List Session
  pub payments : List Payment

-- A call of `dispatchWebhook(merchantId, 'payment.confirmed', { … })`.
pub record Confirmed : Type 0 where
  pub merchant_id : ℕ
  pub session_id : ℕ
  pub tx_hash : ℕ
  pub amount : Text
  pub asset : Text
  pub sender : ℕ

-- The database and the webhooks dispatched so far.
pub record World : Type 0 where
  pub db : Db
  pub dispatched : List Confirmed

abbrev pub has_id : ℕ → Session → Bool
has_id id s = s.id == id

abbrev pub is_status : Status → Session → Bool
is_status st s = same_status s.status st

-- `memo = ${memo}`; a NULL memo is equal to none.
abbrev pub has_memo : Text → Session → Bool
has_memo memo s = elim s.memo [ none ↦ false | some m ↦ text_eq m memo ]

-- UPDATE checkout_sessions SET … WHERE q
abbrev pub update_where : (Session → Bool) → (Session → Session) → List Session → List Session
update_where q f [] = []
update_where q f (s ∷ ss) = (if q s then f s else s) ∷ update_where q f ss

-- `.set({ status, statusChangedAt: new Date() })`
abbrev pub set_status : Status → ℕ → Session → Session
set_status st now s = record s { status = st; status_changed_at = now }

-- The update by primary key that each service runs.
abbrev pub update_status : Status → ℕ → ℕ → Db → Db
update_status st now id db = record db {
  sessions = update_where (has_id id) (set_status st now) db.sessions;
}

-- The update guarded by the old status, `and(eq(id, …), eq(status, …))`.
abbrev pub update_status_from : Status → Status → ℕ → ℕ → Db → Db
update_status_from old st now id db = record db {
  sessions = update_where (λ s. has_id id s && is_status old s) (set_status st now) db.sessions;
}

-- eq(payments.txHash, txHash), eq(payments.sessionId, sessionId)
abbrev pub has_key : ℕ → ℕ → Payment → Bool
has_key tx_hash session_id p = p.tx_hash == tx_hash && p.session_id == session_id

abbrev pub pays_for : ℕ → Payment → Bool
pays_for session_id p = p.session_id == session_id

-- INSERT … ON CONFLICT (tx_hash, session_id) DO NOTHING
unfoldable pub insert_payment : Payment → Db → Db
insert_payment p db =
    if any (has_key p.tx_hash p.session_id) db.payments
    then db
    else record db { payments = db.payments ++ p ∷ [] }

abbrev pub find_session : ℕ → Db → Option Session
find_session id db = find? (has_id id) db.sessions

abbrev pub is_paid_for : ℕ → Db → Bool
is_paid_for session_id db = any (pays_for session_id) db.payments
