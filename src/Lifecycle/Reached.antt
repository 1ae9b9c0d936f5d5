-- ===== src/Lifecycle/Reached.antt =====
-- Each operation of the services is a sequence of the writes of `Write`.
use orbit_stream_backend.Common.{
  ℕ, ◌≡◌, List, [], ◌∷◌, none, some, Option, true, arith, All, All-append, Option-cases, inl, inr,
  Bool-cases, find?, filter, map, any,
}
use orbit_stream_backend.Common.Text.{Text, text_eq, codes}
use orbit_stream_backend.Store.{
  pending, paid, is_status, Session, Payment, Db, World, pays_for, update_status, is_paid_for,
}
use orbit_stream_backend.Detector.{
  Op, Faults, claim_session, finalize, confirmed, complete, process_payment, memo_given,
}
use orbit_stream_backend.Recovery.{
  Horizon, Search, failed, unmatched, matched, settle_search, reconcile_stuck_session,
  find_confirming_payment, reconcile_all, is_stuck, recover_stuck_processing, join_payments,
  confirmed_row, pay_rows, recover_pending_with_payments, settle_stale, settle_all, is_stale,
  recover_stuck_pending, recover_stale_sessions, confirm_session, revert_to_pending,
}
use orbit_stream_backend.Checkout.{
  CheckoutConfig, CreateRequest, create_session, get_session, cancel_session, has_run_out,
  expire_read, is_of_merchant,
}
use orbit_stream_backend.Store.{find_session}
use orbit_stream_backend.Lifecycle.{
  claim, finalizes, dispatches, reverts, pays, expires, cancels, creates, Reach, here, next,
}

pub Reach-trans : {w u v : World} → Reach w u → Reach u v → Reach w v
Reach-trans r here = r
Reach-trans r (next s st) = next (Reach-trans r s) st

complete-Reach :
    (now : ℕ) (faults : Faults) (op : Op) (w : World) (o : Option Session) (db : Db)
    → Reach w (record w { db = db })
    → Reach w (complete now faults op w (o, db)).1
unfolding complete
complete-Reach now faults op w none db r = r
complete-Reach now faults op w (some s) db r = elim (Bool-cases faults.finalize_fails) [
  | inl e ↦ rw (e, complete) r
  | inr e ↦ elim (Bool-cases faults.dispatch_fails) [
    | inl f ↦ rw (e, f, complete) (next r (finalizes (record w { db = db }) now s op))
    | inr f ↦
        rw (e, f, complete)
          (next (next r (finalizes (record w { db = db }) now s op))
            (dispatches (record w { db = finalize now s op db }) (confirmed s op)))
  ]
]

-- One call of processPayment, however it ends, changes the tables by a sequence of the transactions
-- (`Write`) of the detector, the recovery job and the checkout service.
pub process_payment-Reach :
    (now : ℕ) (faults : Faults) (op : Op) (w : World) → Reach w (process_payment now faults op w).1
unfolding process_payment
process_payment-Reach now faults op w = elim (Bool-cases (text_eq op.type (codes "payment"))) [
  | inr other ↦ rw other here
  | inl payment ↦ elim (Option-cases (memo_given op.transaction_memo)) [
    | inl missing ↦ rw (payment, missing, process_payment) here
    | inr (memo, given) ↦ elim (Bool-cases faults.claim_fails) [
      | inl e ↦ rw (payment, given, e, process_payment) here
      | inr e ↦
          rw (payment, given, e, process_payment)
            (complete-Reach now faults op w (claim_session now memo op w.db).0
              (claim_session now memo op w.db).1 (next here (claim w now memo op)))
    ]
  ]
]

confirm_session-Reach :
    (now : ℕ) (row : Session) (op : Op) (w : World) → Reach w (confirm_session now row op w)
unfolding confirm_session finalize
confirm_session-Reach now row op w =
    next (next here (finalizes w now row op))
      (dispatches (record w { db = finalize now row op w.db }) (confirmed row op))

revert_to_pending-Reach : (now id : ℕ) (w : World) → Reach w (revert_to_pending now id w)
unfolding revert_to_pending
revert_to_pending-Reach now id w = next here (reverts w now id)

settle_search-Reach :
    (now : ℕ) (horizon : Horizon) (row : Session) (found : Search) (w : World)
    → Reach w (settle_search now horizon row found w)
unfolding settle_search
settle_search-Reach now horizon row failed w = here
settle_search-Reach now horizon row unmatched w = revert_to_pending-Reach now row.id w
settle_search-Reach now horizon row (matched op) w =
    elim (Bool-cases (horizon.verify_transaction op.transaction_hash)) [
      | inl e ↦ rw e (confirm_session-Reach now row op w)
      | inr e ↦ rw e (revert_to_pending-Reach now row.id w)
    ]

reconcile_all-Reach :
    (now : ℕ) (horizon : Horizon) (rows : List Session) (w : World)
    → Reach w (reconcile_all now horizon rows w)
unfolding reconcile_all reconcile_stuck_session
reconcile_all-Reach now horizon [] w = here
reconcile_all-Reach now horizon (row ∷ rows) w =
    Reach-trans (settle_search-Reach now horizon row (find_confirming_payment horizon row) w)
      (reconcile_all-Reach now horizon rows (reconcile_stuck_session now horizon row w))

abbrev IsPaidRow : Db → Session × Payment → Type 0
IsPaidRow db r = is_paid_for r.0.id db ≡ true

matching-IsPaidRow :
    (db : Db) (s : Session) (ps : List Payment)
    → (any (pays_for s.id) ps ≡ true → is_paid_for s.id db ≡ true)
    → All (IsPaidRow db) (map (λ p. (s, p)) (filter (pays_for s.id) ps))
matching-IsPaidRow db s [] h = tt
matching-IsPaidRow db s (p ∷ ps) h = elim (Bool-cases (pays_for s.id p)) [
  | inl hit ↦ rw hit (h (ground arith), matching-IsPaidRow db s ps (λ e. h (ground arith)))
  | inr miss ↦ rw miss (matching-IsPaidRow db s ps (λ e. h (ground arith)))
]

join_payments-IsPaidRow :
    (db : Db) (ss : List Session) → All (IsPaidRow db) (join_payments db.payments ss)
join_payments-IsPaidRow db [] = tt
join_payments-IsPaidRow db (s ∷ ss) =
    All-append (IsPaidRow db) (map (λ p. (s, p)) (filter (pays_for s.id) db.payments))
      (join_payments db.payments ss) (matching-IsPaidRow db s db.payments (λ e. e))
      (join_payments-IsPaidRow db ss)

pay_rows-Reach :
    (now : ℕ) (rows : List (Session × Payment)) (w : World)
    → All (IsPaidRow w.db) rows
    → Reach w (pay_rows now rows w)
unfolding pay_rows
pay_rows-Reach now [] w h = here
pay_rows-Reach now ((s, p) ∷ rows) w (paid_for, h) =
    Reach-trans
      (next (next here (pays w now s.id paid_for))
        (dispatches (record w { db = update_status paid now s.id w.db }) (confirmed_row (s, p))))
      (pay_rows-Reach now rows _ h)

settle_stale-Reach :
    (now : ℕ) (row : Session) (w : World) → Reach w (record w { db = settle_stale now row w.db })
unfolding settle_stale
settle_stale-Reach now row w = elim (Bool-cases (is_paid_for row.id w.db)) [
  | inl e ↦ rw e (next here (pays w now row.id e))
  | inr e ↦ rw e (next here (expires w now row.id))
]

settle_all-Reach :
    (now : ℕ) (rows : List Session) (w : World)
    → Reach w (record w { db = settle_all now rows w.db })
unfolding settle_all
settle_all-Reach now [] w = here
settle_all-Reach now (row ∷ rows) w =
    Reach-trans (settle_stale-Reach now row w)
      (settle_all-Reach now rows (record w { db = settle_stale now row w.db }))

recover_stuck_processing-Reach :
    (now : ℕ) (horizon : Horizon) (w : World) → Reach w (recover_stuck_processing now horizon w)
unfolding recover_stuck_processing
recover_stuck_processing-Reach now horizon w =
    reconcile_all-Reach now horizon (filter (is_stuck now) w.db.sessions) w

recover_pending_with_payments-Reach :
    (now : ℕ) (w : World) → Reach w (recover_pending_with_payments now w)
unfolding recover_pending_with_payments
recover_pending_with_payments-Reach now w =
    pay_rows-Reach now (join_payments w.db.payments (filter (is_status pending) w.db.sessions)) w
      (join_payments-IsPaidRow w.db (filter (is_status pending) w.db.sessions))

recover_stuck_pending-Reach : (now : ℕ) (w : World) → Reach w (recover_stuck_pending now w)
unfolding recover_stuck_pending
recover_stuck_pending-Reach now w = settle_all-Reach now (filter (is_stale now) w.db.sessions) w

-- One run of the recovery job changes the tables by a sequence of the transactions (`Write`) of the
-- detector, the recovery job and the checkout service.
pub recover_stale_sessions-Reach :
    (now : ℕ) (horizon : Horizon) (w : World) → Reach w (recover_stale_sessions now horizon w)
unfolding recover_stale_sessions
recover_stale_sessions-Reach now horizon w =
    Reach-trans (recover_stuck_processing-Reach now horizon w) (
      Reach-trans (recover_pending_with_payments-Reach now (recover_stuck_processing now horizon w))
        (recover_stuck_pending-Reach now
          (recover_pending_with_payments now (recover_stuck_processing now horizon w))))

get_session-Reach :
    (now id : ℕ) (w : World) → Reach w (record w { db = (get_session now id w.db).1 })
unfolding get_session
get_session-Reach now id w = elim (Option-cases (find_session id w.db)) [
  | inl missing ↦ rw (missing, get_session) here
  | inr (s, found) ↦ elim (Bool-cases (has_run_out now s)) [
    | inl over ↦ rw (found, over, get_session, expire_read) (next here (expires w now s.id))
    | inr open_still ↦ rw (found, open_still, get_session, expire_read) here
  ]
]

cancel_session-Reach :
    (now id merchant_id : ℕ) (w : World)
    → Reach w (record w { db = (cancel_session now id merchant_id w.db).1 })
unfolding cancel_session
cancel_session-Reach now id merchant_id w =
    elim (Option-cases (find? (is_of_merchant id merchant_id) w.db.sessions)) [
      | inl missing ↦ rw (missing, cancel_session) here
      | inr (s, found) ↦ elim (Bool-cases (is_status pending s)) [
        | inl e ↦ rw (found, e, cancel_session) (next here (cancels w now id))
        | inr e ↦ rw (found, e, cancel_session) here
      ]
    ]

-- Every call of getSession, cancelSession and createSession changes the tables by at most one of the
-- transactions (`Write`) of the detector, the recovery job and the checkout service.
pub checkout-Reach :
    (now id merchant_id : ℕ) (config : CheckoutConfig) (memo : Text) (dto : CreateRequest)
    (w : World)
    → Reach w (record w { db = (get_session now id w.db).1 })
      × Reach w (record w { db = (cancel_session now id merchant_id w.db).1 })
      × Reach w (record w { db = (create_session now config id memo merchant_id dto w.db).1 })
checkout-Reach now id merchant_id config memo dto w = (
  get_session-Reach now id w,
  cancel_session-Reach now id merchant_id w,
  next here (creates w now config id memo merchant_id dto),
)
