-- ===== src/Detector/Assets.antt =====
-- What the claim does not look at.
use orbit_stream_backend.Common.{ℕ, ◌≡◌, refl, true, false, Option, some, any, find?, inr}
use orbit_stream_backend.Common.Text.{Text, codes, text_eq}
use orbit_stream_backend.Amount.{are_amounts_equal}
use orbit_stream_backend.Store.{
  pending, processing, Session, Db, has_memo, has_key, update_status_from,
}
use orbit_stream_backend.Detector.{Op, claim_session}
use orbit_stream_backend.Detector.Claim.{claim_session-claims}

-- A pending session priced in XLM is claimed by a payment of the same number of units of any asset
-- and any issuer.
pub claim_session-takes_any_asset :
    (now : ℕ) (memo : Text) (op : Op) (db : Db) (s : Session) (code issuer : Option Text)
    → find? (has_memo memo) db.sessions ≡ some s
    → s.status ≡ pending
    → text_eq s.asset_code (codes "XLM") ≡ true
    → are_amounts_equal op.amount s.amount 7 ≡ true
    → any (has_key op.transaction_hash s.id) db.payments ≡ false
    → claim_session now memo (record op { asset_code = code; asset_issuer = issuer }) db
      ≡ (some s, update_status_from pending processing now s.id db)
claim_session-takes_any_asset now memo op db s code issuer found e xlm same fresh =
    claim_session-claims now memo (record op { asset_code = code; asset_issuer = issuer }) db found
      (record { is_pending = e; same_amount = same; asset_fits = inr xlm; unrecorded = fresh })

-- The issuer of the asset makes no difference to the claim.
pub claim_session-ignores_issuer :
    (now : ℕ) (memo : Text) (op : Op) (db : Db) (issuer : Option Text)
    → claim_session now memo (record op { asset_issuer = issuer }) db ≡ claim_session now memo op db
unfolding claim_session
claim_session-ignores_issuer now memo op db issuer = refl
