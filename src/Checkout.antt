-- ===== src/Checkout.antt =====
-- src/checkout/checkout.service.ts: creating, reading, cancelling and paying a checkout session. The
-- random id and memo, and the configuration, are arguments.
use orbit_stream_backend.Common.{
  ℕ, ◌+◌, ◌*◌, ◌==◌, Bool, ◌&&◌, [], ◌∷◌, ◌++◌, Option, none, some, if◌then◌else◌, ltb, find?,
  Result, ok, err,
}
use orbit_stream_backend.Common.Text.{Text}
use orbit_stream_backend.Store.{
  Status, pending, paid, expired, cancelled, Session, Payment, Db, has_id, is_status, update_status,
  pays_for, find_session,
}

pub data CheckoutError : Type 0 where
  bad_request not_found : CheckoutError

pub record CheckoutConfig : Type 0 where
  pub receiving_account : Option ℕ
  pub session_ttl_minutes : ℕ

-- The body of the request that the service stores; the amount is `dto.amount.toString()`.
pub record CreateRequest : Type 0 where
  pub amount : Text
  pub asset : Text
  pub asset_issuer : Option Text

-- `toPublicSession`, less the link built from the id.
pub record PublicSession : Type 0 where
  pub id : ℕ
  pub amount : Text
  pub asset : Text
  pub status : Status
  pub expires_at : ℕ

abbrev pub to_public_session : Session → PublicSession
to_public_session s = record {
  id = s.id;
  amount = s.amount;
  asset = s.asset_code;
  status = s.status;
  expires_at = s.expires_at;
}

-- What the database call returns, and the tables after it.
abbrev pub Reply : Type 0 → Type 0
Reply A = Result CheckoutError A × Db

-- The row that is inserted.
abbrev pub new_session : ℕ → CheckoutConfig → ℕ → ℕ → Text → ℕ → CreateRequest → Session
new_session now config account id memo merchant_id dto = record {
  id = id;
  merchant_id = merchant_id;
  amount = dto.amount;
  asset_code = dto.asset;
  asset_issuer = dto.asset_issuer;
  receiving_account = account;
  memo = some memo;
  status = pending;
  expires_at = now + config.session_ttl_minutes * 60 * 1000;
  status_changed_at = now;
  created_at = now;
}

unfoldable pub create_session :
    ℕ → CheckoutConfig → ℕ → Text → ℕ → CreateRequest → Db → Reply PublicSession
create_session now config id memo merchant_id dto db = elim config.receiving_account [
  | none ↦ (err bad_request, db)
  | some account ↦
      let session = new_session now config account id memo merchant_id dto in
      (ok (to_public_session session), record db { sessions = db.sessions ++ session ∷ [] })
]

-- `getSession` reads the row, and writes only if the row that it read has run out.
abbrev pub has_run_out : ℕ → Session → Bool
has_run_out now s = is_status pending s && ltb s.expires_at now

-- The second half, with the row that the first half read.
unfoldable pub expire_read : ℕ → Session → Db → PublicSession × Db
expire_read now s db =
    if has_run_out now s
    then (to_public_session (record s { status = expired }), update_status expired now s.id db)
    else (to_public_session s, db)

unfoldable pub get_session : ℕ → ℕ → Db → Reply PublicSession
unfolding expire_read
get_session now id db = elim (find_session id db) [
  | none ↦ (err not_found, db)
  | some s ↦ let (shown, db') = expire_read now s db in (ok shown, db')
]

-- `cancelSession`: the row of the merchant with the id, and the unguarded write.
abbrev pub is_of_merchant : ℕ → ℕ → Session → Bool
is_of_merchant id merchant_id s = has_id id s && s.merchant_id == merchant_id

unfoldable pub cancel_session : ℕ → ℕ → ℕ → Db → Reply (Option Session)
cancel_session now id merchant_id db = elim (find? (is_of_merchant id merchant_id) db.sessions) [
  | none ↦ (err not_found, db)
  | some s ↦
      if is_status pending s
      then (
        ok (find_session id (update_status cancelled now id db)),
        update_status cancelled now id db,
      )
      else (err bad_request, db)
]

unfoldable pub mark_as_paid : ℕ → ℕ → Db → Option Session × Db
mark_as_paid now id db =
    (find_session id (update_status paid now id db), update_status paid now id db)

unfoldable pub get_session_payment : ℕ → Db → Result CheckoutError Payment
get_session_payment id db = elim (find_session id db) [
  | none ↦ err not_found
  | some s ↦ elim (find? (pays_for id) db.payments) [ none ↦ err not_found | some p ↦ ok p ]
]
