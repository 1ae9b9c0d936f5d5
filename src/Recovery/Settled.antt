-- ===== src/Recovery/Settled.antt =====
-- After recoverStuckProcessing no session is stuck any more.
use orbit_stream_backend.Common.{
  ℕ, ◌≡◌, ◌≢◌, refl, ==_self, Bool, true, false, ◌&&◌, Option, none, some, arith, any, filter,
  find?, List, [], ◌∷◌, All, inl, inr, Option-cases, Bool-cases, if◌then◌else◌,
}
use orbit_stream_backend.Store.{
  pending, processing, paid, Session, World, has_id, is_status, set_status,
}
use orbit_stream_backend.Store.Keys.{insert_payment-sessions}
use orbit_stream_backend.Store.Invariant.{All-update_step, All-mono}
use orbit_stream_backend.Detector.{Op, memo_given}
use orbit_stream_backend.Recovery.{
  Horizon, Search, failed, unmatched, matched, search_result, confirms, find_confirming_payment,
  settle_search, revert_to_pending, confirm_session, reconcile_stuck_session, reconcile_all,
  is_stuck, recover_stuck_processing,
}

-- If the session is stuck, one of the rows has its id.
abbrev is_listed : ℕ → List Session → Session → Bool
is_listed now rows s = if is_stuck now s then any (has_id s.id) rows else true

abbrev AllListed : ℕ → List Session → List Session → Type 0
AllListed now rows = All (λ s. is_listed now rows s ≡ true)

paid_step :
    (now : ℕ) (row s : Session) (rows : List Session)
    → is_listed now (row ∷ rows) s ≡ true
    → is_listed now rows (if has_id row.id s then set_status paid now s else s) ≡ true
paid_step now row s rows h = ground arith

revert_step :
    (now : ℕ) (row s : Session) (rows : List Session)
    → is_listed now (row ∷ rows) s ≡ true
    → is_listed now rows
        (if has_id row.id s && is_status processing s then set_status pending now s else s)
      ≡ true
revert_step now row s rows h = ground arith

revert_to_pending-AllListed :
    (now : ℕ) (row : Session) (rows : List Session) (w : World)
    → AllListed now (row ∷ rows) w.db.sessions
    → AllListed now rows (revert_to_pending now row.id w).db.sessions
unfolding revert_to_pending
revert_to_pending-AllListed now row rows w h =
    All-update_step _ _ (λ s. has_id row.id s && is_status processing s) (set_status pending now)
      w.db.sessions (λ s. revert_step now row s rows) h

confirm_session-AllListed :
    (now : ℕ) (row : Session) (op : Op) (rows : List Session) (w : World)
    → AllListed now (row ∷ rows) w.db.sessions
    → AllListed now rows (confirm_session now row op w).db.sessions
unfolding confirm_session
confirm_session-AllListed now row op rows w h = rw insert_payment-sessions (
    All-update_step _ _ (has_id row.id) (set_status paid now) w.db.sessions
      (λ s. paid_step now row s rows) h)

settle_search-AllListed :
    (now : ℕ) (horizon : Horizon) (row : Session) (found : Search) (rows : List Session) (w : World)
    → found ≢ failed
    → AllListed now (row ∷ rows) w.db.sessions
    → AllListed now rows (settle_search now horizon row found w).db.sessions
unfolding settle_search
settle_search-AllListed now horizon row failed rows w ne h = absurd (ne refl)
settle_search-AllListed now horizon row unmatched rows w ne h =
    revert_to_pending-AllListed now row rows w h
settle_search-AllListed now horizon row (matched op) rows w ne h =
    elim (Bool-cases (horizon.verify_transaction op.transaction_hash)) [
      | inl e ↦ rw e (confirm_session-AllListed now row op rows w h)
      | inr e ↦ rw e (revert_to_pending-AllListed now row rows w h)
    ]

search_result-ne-failed : (o : Option Op) → search_result o ≢ failed
search_result-ne-failed none e = cc
search_result-ne-failed (some op) e = cc

find_confirming_payment-ne-failed :
    (horizon : Horizon) (row : Session)
    → horizon.payments_for_account row.receiving_account ≢ none
    → find_confirming_payment horizon row ≢ failed
unfolding find_confirming_payment
find_confirming_payment-ne-failed horizon row h e = elim (Option-cases (memo_given row.memo)) [
  | inl missing ↦ cc (rw (missing, find_confirming_payment) at e)
  | inr (memo, given) ↦ elim (Option-cases (horizon.payments_for_account row.receiving_account)) [
    | inl down ↦ h down
    | inr (page, up) ↦
        search_result-ne-failed (find? (confirms row) page)
          (rw (given, up, find_confirming_payment) at e)
  ]
]

reconcile_all-AllListed :
    (now : ℕ) (horizon : Horizon) (rows : List Session) (w : World)
    → ((a : ℕ) → horizon.payments_for_account a ≢ none)
    → AllListed now rows w.db.sessions
    → AllListed now [] (reconcile_all now horizon rows w).db.sessions
unfolding reconcile_all reconcile_stuck_session
reconcile_all-AllListed now horizon [] w up h = h
reconcile_all-AllListed now horizon (row ∷ rows) w up h =
    reconcile_all-AllListed now horizon rows (reconcile_stuck_session now horizon row w) up (
      settle_search-AllListed now horizon row (find_confirming_payment horizon row) rows w
        (find_confirming_payment-ne-failed horizon row (up row.receiving_account)) h)

more_listed :
    (now : ℕ) (s t : Session) (ss : List Session)
    → is_listed now (filter (is_stuck now) ss) t ≡ true
    → is_listed now (filter (is_stuck now) (s ∷ ss)) t ≡ true
more_listed now s t ss h = ground arith

first_listed :
    (now : ℕ) (s : Session) (ss : List Session)
    → is_listed now (filter (is_stuck now) (s ∷ ss)) s ≡ true
first_listed now s ss = ground (arith, ==_self s.id)

selected_listed : (now : ℕ) (ss : List Session) → AllListed now (filter (is_stuck now) ss) ss
selected_listed now [] = tt
selected_listed now (s ∷ ss) =
    (first_listed now s ss, All-mono _ _ ss (λ t. more_listed now s t ss) (selected_listed now ss))

not_stuck : (now : ℕ) (s : Session) → is_listed now [] s ≡ true → is_stuck now s ≡ false
not_stuck now s h = ground arith

-- If every request to Horizon is answered, no session is stuck in processing for more than five
-- minutes once recoverStuckProcessing has run.
pub recover_stuck_processing-settles :
    (now : ℕ) (horizon : Horizon) (w : World)
    → ((a : ℕ) → horizon.payments_for_account a ≢ none)
    → All (λ s. is_stuck now s ≡ false) (recover_stuck_processing now horizon w).db.sessions
unfolding recover_stuck_processing
recover_stuck_processing-settles now horizon w up = All-mono _ _ _ (not_stuck now) (
    reconcile_all-AllListed now horizon (filter (is_stuck now) w.db.sessions) w up
      (selected_listed now w.db.sessions))
