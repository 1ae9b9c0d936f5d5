-- ===== src/Lifecycle/Races.antt =====
-- The unguarded writes of the services can overwrite what another one wrote in between.
use orbit_stream_backend.Common.{
  ℕ, ◌≡◌, refl, ap, ◌∙◌, true, false, [], ◌∷◌, some, arith, find?, ==_self,
}
use orbit_stream_backend.Common.Text.{Text}
use orbit_stream_backend.Store.{
  Status, paid, expired, processing, Session, Db, World, has_id, has_memo, set_status,
  update_status, is_paid_for, pays_for,
}
use orbit_stream_backend.Store.Keys.{find?-update_where, changed, any-append}
use orbit_stream_backend.Detector.{Op, Faults, process_payment, payment_row}
use orbit_stream_backend.Detector.Claim.{Claimable}
use orbit_stream_backend.Detector.Process.{
  Carries, no_faults, process_payment-pays, process_payment-interrupted,
}
use orbit_stream_backend.Recovery.{settle_stale}
use orbit_stream_backend.Checkout.{has_run_out, expire_read}

overwritten :
    (st : Status) (now : ℕ) (memo : Text) (s t : Session) (db : Db)
    → find? (has_memo memo) db.sessions ≡ some t
    → t.id ≡ s.id
    → find? (has_memo memo) (update_status st now s.id db).sessions ≡ some (set_status st now t)
overwritten st now memo s t db found e =
    find?-update_where (has_memo memo) (has_id s.id) (set_status st now) db.sessions (λ u. refl)
    ∙ ap (changed (has_id s.id) (set_status st now)) found
    ∙ ground arith

-- getSession has read a pending session that has run out; the detector then confirms a payment for it;
-- the write of getSession comes last. The session ends as expired although its payment is recorded.
pub expire_read-overwrites_paid :
    (now later : ℕ) (memo : Text) (op : Op) (w : World) (s : Session)
    → Carries op memo
    → find? (has_memo memo) w.db.sessions ≡ some s
    → Claimable op w.db s
    → has_run_out now s ≡ true
    → let db = (expire_read now s (process_payment later no_faults op w).1.db).1 in
      (find? (has_memo memo) db.sessions ≡ some (set_status expired now s))
      × (is_paid_for s.id db ≡ true)
unfolding expire_read
expire_read-overwrites_paid now later memo op w s carries found c over =
    let (_, row, payments, _) = process_payment-pays later memo op w carries found c in
    let recorded : is_paid_for s.id (process_payment later no_faults op w).1.db ≡ true =
      rw payments (
        ground (
          arith,
          any-append (pays_for s.id) w.db.payments (payment_row later s op ∷ []),
          ==_self s.id,
        )) in
    rw (over, expire_read)
      (
        overwritten expired now memo s (set_status paid later s)
            (process_payment later no_faults op w).1.db row refl,
        recorded,
      )

-- recoverStuckPending has read a stale pending session without a payment; the detector then claims it
-- and its second transaction fails; the write of the job comes last. The session ends as expired, and
-- not in processing, where the next run of the job would look for it.
pub settle_stale-overwrites_processing :
    (now later : ℕ) (memo : Text) (faults : Faults) (op : Op) (w : World) (s : Session)
    → Carries op memo
    → find? (has_memo memo) w.db.sessions ≡ some s
    → Claimable op w.db s
    → faults.claim_fails ≡ false
    → faults.finalize_fails ≡ true
    → is_paid_for s.id w.db ≡ false
    → let db = settle_stale now s (process_payment later faults op w).1.db in
      find? (has_memo memo) db.sessions ≡ some (set_status expired now s)
unfolding settle_stale
settle_stale-overwrites_processing now later memo faults op w s carries found c e1 e2 unpaid =
    let (_, row, payments, _) =
      process_payment-interrupted later memo op w carries found faults c e1 e2 in
    let none_yet : is_paid_for s.id (process_payment later faults op w).1.db ≡ false =
      rw payments unpaid in
    rw (none_yet, settle_stale)
      (overwritten expired now memo s (set_status processing later s)
        (process_payment later faults op w).1.db row refl)
