-- ===== src/Recovery/Agree.antt =====
-- The detector and the recovery job judge a payment alike.
use orbit_stream_backend.Common.{
  ℕ, ap, find?, ◌≡◌, ◌↔◌, true, false, Option, none, some, arith, any, Option-cases, inl, inr,
}
use orbit_stream_backend.Common.Text.{Text, text_eq_iff}
use orbit_stream_backend.Store.{pending, Session, Db, has_memo, has_key}
use orbit_stream_backend.Detector.{Op, memo_given, claim_session}
use orbit_stream_backend.Detector.Claim.{Claimable, claim_session-claims, claim_session-Claimable}
use orbit_stream_backend.Detector.Process.{Carries}
use orbit_stream_backend.Store.Keys.{find?-holds}
use orbit_stream_backend.Recovery.{confirms, same_memo}

pub given_memo : (o : Option Text) (memo : Text) → memo_given o ≡ some memo → o ≡ some memo
given_memo none memo e = cc
given_memo (some m) memo e = ground arith

same_memo_of_has_memo :
    (memo : Text) (o : Option Text) (s : Session)
    → memo_given o ≡ some memo
    → has_memo memo s ≡ true
    → same_memo o s.memo ≡ true
same_memo_of_has_memo memo o s given h = elim (Option-cases s.memo) [
  | inl missing ↦ ground arith
  | inr (m, e) ↦
      rw (given_memo o memo given, e) (ground (arith, text_eq_iff m memo, text_eq_iff memo m))
]

confirms-iff-Claimable :
    (memo : Text) (op : Op) (db : Db) (s : Session)
    → Carries op memo
    → has_memo memo s ≡ true
    → s.status ≡ pending
    → any (has_key op.transaction_hash s.id) db.payments ≡ false
    → (confirms s op ≡ true) ↔ Claimable op db s
unfolding confirms
confirms-iff-Claimable memo op db s carries h e fresh =
    let same = same_memo_of_has_memo memo op.transaction_memo s carries.1 h in
    (λ c. ground arith, λ c. ground arith)

-- For the pending session with the memo of a payment that is not recorded yet, the test by which the
-- recovery job takes a payment of Horizon for the session's holds exactly if the detector, given the
-- payment, claims the session.
pub confirms-iff-claim_session :
    (now : ℕ) (memo : Text) (op : Op) (db : Db) (s : Session)
    → Carries op memo
    → find? (has_memo memo) db.sessions ≡ some s
    → s.status ≡ pending
    → any (has_key op.transaction_hash s.id) db.payments ≡ false
    → (confirms s op ≡ true) ↔ ((claim_session now memo op db).0 ≡ some s)
confirms-iff-claim_session now memo op db s carries found e fresh =
    let (to, from) =
      confirms-iff-Claimable memo op db s carries (find?-holds (has_memo memo) db.sessions s found)
        e fresh in
    (
      λ c. ap (λ r. r.0) (claim_session-claims now memo op db found (to c)),
      λ claims. from (claim_session-Claimable now memo op db found claims).0,
    )
