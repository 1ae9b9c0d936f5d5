-- ===== src/Recovery/Stale.antt =====
-- What recoverStuckPending makes of each session.
use orbit_stream_backend.Common.{
  ℕ, ◌≡◌, refl, ==_iff, Bool, true, false, Option, none, some, arith, any, find?, filter, List, [],
  ◌∷◌, inl, inr, Bool-cases, if◌then◌else◌, ◌+◌, ◌*◌, ◌<◌, ◌≤◌,
}
use orbit_stream_backend.Store.{
  pending, paid, expired, Session, Db, World, has_id, set_status, is_paid_for, find_session,
}
use orbit_stream_backend.Store.Keys.{find?-update_where, find?-holds, changed}
use orbit_stream_backend.Recovery.{settle_stale, settle_all, is_stale, recover_stuck_pending}

-- The session after it was settled: as paid if it has a payment, else as expired.
abbrev pub settled : Bool → Bool → ℕ → Option Session → Option Session
settled listed paid_for now none = none
settled listed paid_for now (some s) =
    some (if listed then set_status (if paid_for then paid else expired) now s else s)

settle_stale-payments :
    (now : ℕ) (row : Session) (db : Db) → (settle_stale now row db).payments ≡ db.payments
unfolding settle_stale
settle_stale-payments now row db = ground arith

find_settle_stale :
    (now id : ℕ) (row : Session) (db : Db)
    → find_session id (settle_stale now row db)
      ≡ changed
          (has_id row.id)
          (set_status (if is_paid_for row.id db then paid else expired) now)
          (find_session id db)
unfolding settle_stale
find_settle_stale now id row db = elim (Bool-cases (is_paid_for row.id db)) [
  | inl e ↦
      rw e (
        find?-update_where (has_id id) (has_id row.id) (set_status paid now) db.sessions
          (λ s. refl))
  | inr e ↦ rw e (
      find?-update_where (has_id id) (has_id row.id) (set_status expired now) db.sessions
        (λ s. refl))
]

settled_step :
    (now id : ℕ) (row : Session) (rows : List Session) (db : Db) (o : Option Session)
    → find_session id db ≡ o
    → settled (any (has_id id) rows) (is_paid_for id db) now (
        changed
          (has_id row.id)
          (set_status (if is_paid_for row.id db then paid else expired) now)
          o)
      ≡ settled (any (has_id id) (row ∷ rows)) (is_paid_for id db) now o
settled_step now id row rows db none e = refl
settled_step now id row rows db (some s) e =
    let same = (==_iff s.id id).0 (find?-holds (has_id id) db.sessions s e) in ground arith

settled_none : (paid_for : Bool) (now : ℕ) (o : Option Session) → o ≡ settled false paid_for now o
settled_none paid_for now none = refl
settled_none paid_for now (some s) = refl

settle_all-find :
    (now id : ℕ) (rows : List Session) (db : Db)
    → find_session id (settle_all now rows db)
      ≡ settled (any (has_id id) rows) (is_paid_for id db) now (find_session id db)
unfolding settle_all
settle_all-find now id [] db = settled_none (is_paid_for id db) now (find_session id db)
settle_all-find now id (row ∷ rows) db =
    rw
      (
        settle_all-find now id rows (settle_stale now row db),
        find_settle_stale now id row db,
        settle_stale-payments now row db,
      )
      (settled_step now id row rows db (find_session id db) refl)

stale_selected :
    (now id : ℕ) (ss : List Session) (s : Session)
    → find? (has_id id) ss ≡ some s
    → is_stale now s ≡ true
    → any (has_id id) (filter (is_stale now) ss) ≡ true
stale_selected now id [] s e h = ground arith
stale_selected now id (t ∷ ss) s e h = ground (arith, stale_selected now id ss s)

-- A session that has been pending for more than five minutes is marked as paid if a payment row
-- names it, and as expired if none does.
pub recover_stuck_pending-settles :
    (now id : ℕ) (w : World) (s : Session)
    → find_session id w.db ≡ some s
    → is_stale now s ≡ true
    → find_session id (recover_stuck_pending now w).db
      ≡ some (set_status (if is_paid_for id w.db then paid else expired) now s)
unfolding recover_stuck_pending
recover_stuck_pending-settles now id w s e h =
    rw
      (
        settle_all-find now id (filter (is_stale now) w.db.sessions) w.db,
        e,
        stale_selected now id w.db.sessions s e h,
      )
      refl

-- A session without a payment is expired five minutes after its creation, however long its
-- expires_at still leaves the customer to pay.
pub recover_stuck_pending-expires_early :
    (now id : ℕ) (w : World) (s : Session)
    → find_session id w.db ≡ some s
    → s.status ≡ pending
    → is_paid_for id w.db ≡ false
    → s.created_at + 5 * 60 * 1000 < now
    → now ≤ s.expires_at
    → find_session id (recover_stuck_pending now w).db ≡ some (set_status expired now s)
recover_stuck_pending-expires_early now id w s e p unpaid old early =
    let stale : is_stale now s ≡ true = ground arith in
    rw (recover_stuck_pending-settles now id w s e stale, unpaid) refl
