-- ===== src/Lifecycle/Sound.antt =====
-- Every interleaving of the services' transactions keeps the tables sound.
use orbit_stream_backend.Common.{ℕ, refl, [], ◌∷◌, All-append, Option-cases, inl, inr}
use orbit_stream_backend.Common.Text.{Text}
use orbit_stream_backend.Store.{pending, processing, expired, cancelled, Session, Db, World}
use orbit_stream_backend.Store.Invariant.{
  IsSound, update_status-IsSound, update_status_from-IsSound, update_status-paid-IsSound,
  record_payment-IsSound,
}
use orbit_stream_backend.Detector.{Op, claim_session, finalize, payment_row}
use orbit_stream_backend.Detector.Claim.{claim_session-db}
use orbit_stream_backend.Checkout.{CheckoutConfig, CreateRequest, new_session, create_session}
use orbit_stream_backend.Lifecycle.{
  Write, claim, finalizes, dispatches, reverts, pays, expires, cancels, creates, Reach, here, next,
}

claim-IsSound :
    (now : ℕ) (memo : Text) (op : Op) (db : Db)
    → IsSound db
    → IsSound (claim_session now memo op db).1
claim-IsSound now memo op db h = elim (claim_session-db now memo op db) [
  | inl same ↦ rw same h
  | inr (s, e) ↦ rw e (update_status_from-IsSound pending processing now s.id db refl h)
]

finalize-IsSound :
    (now : ℕ) (s : Session) (op : Op) (db : Db) → IsSound db → IsSound (finalize now s op db)
unfolding finalize
finalize-IsSound now s op db h = record_payment-IsSound now (payment_row now s op) db h

create-IsSound :
    (now : ℕ) (config : CheckoutConfig) (id : ℕ) (memo : Text) (merchant_id : ℕ)
    (dto : CreateRequest) (db : Db)
    → IsSound db
    → IsSound (create_session now config id memo merchant_id dto db).1
unfolding create_session
create-IsSound now config id memo merchant_id dto db h =
    elim (Option-cases config.receiving_account) [
      | inl missing ↦ rw (missing, create_session) h
      | inr (account, e) ↦
          rw (e, create_session)
            (record {
              backed =
                  All-append _ db.sessions
                    (new_session now config account id memo merchant_id dto ∷ []) h.backed
                    (refl, tt);
              unique = h.unique;
            })
    ]

pub Write-IsSound : {w v : World} → Write w v → IsSound w.db → IsSound v.db
Write-IsSound (claim w now memo op) h = claim-IsSound now memo op w.db h
Write-IsSound (finalizes w now s op) h = finalize-IsSound now s op w.db h
Write-IsSound (dispatches w c) h = h
Write-IsSound (reverts w now id) h =
    update_status_from-IsSound processing pending now id w.db refl h
Write-IsSound (pays w now id e) h = update_status-paid-IsSound now id w.db e h
Write-IsSound (expires w now id) h = update_status-IsSound expired now id w.db refl h
Write-IsSound (cancels w now id) h = update_status-IsSound cancelled now id w.db refl h
Write-IsSound (creates w now config id memo m dto) h =
    create-IsSound now config id memo m dto w.db h

-- From sound tables, any interleaving of the transactions of the detector, the recovery job and the
-- checkout service (markAsPaid aside) leads to sound tables: each session that is paid has a payment
-- row, and no two payment rows have the same transaction and session.
pub Reach-IsSound : {w v : World} → Reach w v → IsSound w.db → IsSound v.db
Reach-IsSound here h = h
Reach-IsSound (next r st) h = Write-IsSound st (Reach-IsSound r h)
