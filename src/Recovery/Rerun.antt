-- ===== src/Recovery/Rerun.antt =====
-- recoverPendingWithPayments is done after one run: it announces no payment again.
use orbit_stream_backend.Common.{
  ℕ, ◌≡◌, refl, ap, ==_self, Bool, true, false, ◌&&◌, arith, any, filter, List, [], ◌∷◌, All, inl,
  inr, Bool-cases, if◌then◌else◌,
}
use orbit_stream_backend.Store.{
  pending, paid, Session, Payment, World, has_id, is_status, set_status, pays_for,
}
use orbit_stream_backend.Store.Keys.{any-append}
use orbit_stream_backend.Store.Invariant.{All-update_step, All-mono}
use orbit_stream_backend.Recovery.{
  payment_pairs, join_payments, pay_rows, recover_pending_with_payments,
}

abbrev row_has_id : ℕ → Session × Payment → Bool
row_has_id id (s, p) = has_id id s

abbrev names : ℕ → List (Session × Payment) → Bool
names id = any (row_has_id id)

-- If the session is pending and has a payment, one of the joined rows has its id.
abbrev is_joined : List Payment → List (Session × Payment) → Session → Bool
is_joined ps rows s =
    if is_status pending s && any (pays_for s.id) ps then names s.id rows else true

abbrev AllJoined : List Payment → List (Session × Payment) → List Session → Type 0
AllJoined ps rows = All (λ s. is_joined ps rows s ≡ true)

paid_step :
    (now : ℕ) (ps : List Payment) (row s : Session) (p : Payment) (rows : List (Session × Payment))
    → is_joined ps ((row, p) ∷ rows) s ≡ true
    → is_joined ps rows (if has_id row.id s then set_status paid now s else s) ≡ true
paid_step now ps row s p rows h = ground arith

pay_rows-AllJoined :
    (now : ℕ) (ps : List Payment) (rows : List (Session × Payment)) (w : World)
    → w.db.payments ≡ ps
    → AllJoined ps rows w.db.sessions
    → AllJoined ps [] (pay_rows now rows w).db.sessions × ((pay_rows now rows w).db.payments ≡ ps)
unfolding pay_rows
pay_rows-AllJoined now ps [] w e h = (h, e)
pay_rows-AllJoined now ps ((row, p) ∷ rows) w e h = pay_rows-AllJoined now ps rows _ e (
    All-update_step _ _ (has_id row.id) (set_status paid now) w.db.sessions
      (λ s. paid_step now ps row s p rows) h)

any_matching :
    (s t : Session) (ps : List Payment)
    → names t.id (payment_pairs ps s) ≡ (has_id t.id s && any (pays_for s.id) ps)
any_matching s t [] = ground arith
any_matching s t (p ∷ ps) = ground (arith, any_matching s t ps)

more_joined :
    (ps : List Payment) (s t : Session) (ss : List Session)
    → is_joined ps (join_payments ps (filter (is_status pending) ss)) t ≡ true
    → is_joined ps (join_payments ps (filter (is_status pending) (s ∷ ss))) t ≡ true
more_joined ps s t ss h = elim (Bool-cases (is_status pending s)) [
  | inl e ↦ rw e (
      ground (
        arith,
        any-append (row_has_id t.id) (payment_pairs ps s)
            (join_payments ps (filter (is_status pending) ss)),
      ))
  | inr e ↦ rw e h
]

first_joined :
    (ps : List Payment) (s : Session) (ss : List Session)
    → is_joined ps (join_payments ps (filter (is_status pending) (s ∷ ss))) s ≡ true
first_joined ps s ss = elim (Bool-cases (is_status pending s)) [
  | inl e ↦ rw e (
      ground (
        arith,
        ==_self s.id,
        any_matching s s ps,
        any-append (row_has_id s.id) (payment_pairs ps s)
            (join_payments ps (filter (is_status pending) ss)),
      ))
  | inr e ↦ rw e refl
]

selected_joined :
    (ps : List Payment) (ss : List Session)
    → AllJoined ps (join_payments ps (filter (is_status pending) ss)) ss
selected_joined ps [] = tt
selected_joined ps (s ∷ ss) =
    (first_joined ps s ss, All-mono _ _ ss (λ t. more_joined ps s t ss) (selected_joined ps ss))

matching_nil :
    (s : Session) (ps : List Payment) → any (pays_for s.id) ps ≡ false → payment_pairs ps s ≡ []
matching_nil s [] h = refl
matching_nil s (p ∷ ps) h = ground (arith, matching_nil s ps)

join_nil :
    (ps : List Payment) (ss : List Session)
    → AllJoined ps [] ss
    → join_payments ps (filter (is_status pending) ss) ≡ []
join_nil ps [] h = refl
join_nil ps (s ∷ ss) (p, h) = elim (Bool-cases (is_status pending s)) [
  | inl e ↦ rw (e, matching_nil s ps (ground arith)) (join_nil ps ss h)
  | inr e ↦ rw e (join_nil ps ss h)
]

-- A second run of recoverPendingWithPayments changes nothing and dispatches no webhook.
pub recover_pending_with_payments-idempotent :
    (now later : ℕ) (w : World)
    → recover_pending_with_payments later (recover_pending_with_payments now w)
      ≡ recover_pending_with_payments now w
unfolding recover_pending_with_payments pay_rows
recover_pending_with_payments-idempotent now later w =
    let w1 =
      pay_rows now (join_payments w.db.payments (filter (is_status pending) w.db.sessions)) w in
    let (joined, same) =
      pay_rows-AllJoined now w.db.payments
        (join_payments w.db.payments (filter (is_status pending) w.db.sessions)) w refl
        (selected_joined w.db.payments w.db.sessions) in
    let nothing : join_payments w1.db.payments (filter (is_status pending) w1.db.sessions) ≡ [] =
      rw same (join_nil w.db.payments w1.db.sessions joined) in
    ap (λ rows. pay_rows later rows w1) nothing
