-- ===== src/Detector/Process.antt =====
-- `processPayment` from the claim to the webhook: what a run does when it goes through, when it is
-- refused, when the database fails in between, and when it is run again.
use orbit_stream_backend.Common.{
  ℕ, ◌≡◌, refl, ap, ◌∙◌, ◌⊎◌, inl, inr, true, false, ◌&&◌, [], ◌∷◌, ◌++◌, Option, none, some, arith,
  find?, Bool-cases, Option-cases,
}
use orbit_stream_backend.Common.Text.{Text, codes, text_eq}
use orbit_stream_backend.Store.{
  pending, processing, paid, Session, Db, World, has_id, is_status, has_memo, set_status,
  update_status_from,
}
use orbit_stream_backend.Store.Keys.{
  find?-update_where, insert_payment-sessions, insert_payment-fresh, changed,
}
use orbit_stream_backend.Detector.{
  Op, Faults, returns, payment_row, confirmed, finalize, complete, process_payment, memo_given,
  claim_session,
}
use orbit_stream_backend.Detector.Claim.{
  Claimable, claim_session-claims, claim_session-refused, claim_session-Claimable,
  claim_session-not_pending, claim_session-refused_later, no_claim,
}

-- The operation is a payment with the memo.
abbrev pub Carries : Op → Text → Type 0
Carries op memo =
    (text_eq op.type (codes "payment") ≡ true) × (memo_given op.transaction_memo ≡ some memo)

abbrev pub no_faults : Faults
no_faults = record { claim_fails = false; finalize_fails = false; dispatch_fails = false }

module _ (now : ℕ) (memo : Text) (op : Op) (w : World) {s : Session} (carries : Carries op memo)
    (found : find? (has_memo memo) w.db.sessions ≡ some s) where
  claimed_row :
      find? (has_memo memo) (update_status_from pending processing now s.id w.db).sessions
      ≡ changed (λ t. has_id s.id t && is_status pending t) (set_status processing now) (some s)
  claimed_row =
      find?-update_where (has_memo memo) (λ t. has_id s.id t && is_status pending t)
        (set_status processing now) w.db.sessions (λ t. refl)
      ∙ ap (changed (λ t. has_id s.id t && is_status pending t) (set_status processing now)) found

  finalized_row :
      (db : Db) {t : Session}
      → find? (has_memo memo) db.sessions ≡ some t
      → find? (has_memo memo) (finalize now s op db).sessions
        ≡ changed (has_id s.id) (set_status paid now) (some t)
  unfolding finalize
  finalized_row db e = rw insert_payment-sessions (
      find?-update_where (has_memo memo) (has_id s.id) (set_status paid now) db.sessions (λ t. refl)
      ∙ ap (changed (has_id s.id) (set_status paid now)) e)

  claimed_db : Db
  claimed_db = update_status_from pending processing now s.id w.db

  process_payment-claimed :
      (faults : Faults)
      → Claimable op w.db s
      → faults.claim_fails ≡ false
      → process_payment now faults op w ≡ complete now faults op w (some s, claimed_db)
  unfolding process_payment claimed_db
  process_payment-claimed faults c e = ground (arith, claim_session-claims now memo op w.db found c)

  completed_db :
      (faults : Faults)
      → faults.finalize_fails ≡ false
      → (complete now faults op w (some s, claimed_db)).1.db ≡ finalize now s op claimed_db
  unfolding complete
  completed_db faults e = ground arith

  paid_row :
      s.status ≡ pending
      → find? (has_memo memo) (finalize now s op claimed_db).sessions ≡ some (set_status paid now s)
  unfolding claimed_db
  paid_row e = finalized_row claimed_db claimed_row ∙ ground arith

  -- With no fault a claimable session ends as paid, its payment row is added and its one webhook
  -- goes out.
  pub process_payment-pays :
      Claimable op w.db s
      → let (ending, w') = process_payment now no_faults op w in
        (ending ≡ returns)
        × (find? (has_memo memo) w'.db.sessions ≡ some (set_status paid now s))
        × (w'.db.payments ≡ w.db.payments ++ payment_row now s op ∷ [])
        × (w'.dispatched ≡ w.dispatched ++ confirmed s op ∷ [])
  unfolding complete claimed_db
  process_payment-pays c = rw (process_payment-claimed no_faults c refl) (
    refl,
    paid_row c.is_pending,
    insert_payment-fresh (payment_row now s op) claimed_db c.unrecorded,
    refl,
  )

  -- When the transaction of phase 2 fails, the session stays in processing, with no payment row and
  -- no webhook, and `processPayment` returns.
  pub process_payment-interrupted :
      (faults : Faults)
      → Claimable op w.db s
      → faults.claim_fails ≡ false
      → faults.finalize_fails ≡ true
      → let (ending, w') = process_payment now faults op w in
        (ending ≡ returns)
        × (find? (has_memo memo) w'.db.sessions ≡ some (set_status processing now s))
        × (w'.db.payments ≡ w.db.payments)
        × (w'.dispatched ≡ w.dispatched)
  unfolding complete claimed_db
  process_payment-interrupted faults c e1 e2 =
      rw (process_payment-claimed faults c e1, complete, e2)
        (refl, claimed_row ∙ ground arith, refl, refl)

  -- The row that the run leaves is not pending.
  leaves_settled :
      (faults : Faults)
      → Claimable op w.db s
      → faults.claim_fails ≡ false
      → (t : Session) × (find? (has_memo memo) (process_payment now faults op w).1.db.sessions
          ≡ some t)
        × (is_status pending t ≡ false)
  leaves_settled faults c e = elim (Bool-cases faults.finalize_fails) [
    | inl failed ↦
        (set_status processing now s, (process_payment-interrupted faults c e failed).1, refl)
    | inr went_on ↦ (
      set_status paid now s,
      rw (process_payment-claimed faults c e, completed_db faults went_on) (paid_row c.is_pending),
      refl,
    )
  ]

-- A refused claim leaves everything as it was.
process_payment-refused :
    (now : ℕ) (memo : Text) (faults : Faults) (op : Op) (w : World)
    → Carries op memo
    → claim_session now memo op w.db ≡ (none, w.db)
    → (process_payment now faults op w).1 ≡ w
unfolding process_payment complete
process_payment-refused now memo faults op w carries e = ground arith

-- So does an operation that is no payment or has no memo.
process_payment-skipped :
    (now : ℕ) (faults : Faults) (op : Op) (w : World)
    → (text_eq op.type (codes "payment") ≡ false) ⊎ (memo_given op.transaction_memo ≡ none)
    → process_payment now faults op w ≡ (returns, w)
unfolding process_payment
process_payment-skipped now faults op w h = ground arith

rerun_memo :
    (now now' : ℕ) (memo : Text) (faults faults' : Faults) (op : Op) (w : World)
    → Carries op memo
    → faults.claim_fails ≡ false
    → (o : Option Session) → find? (has_memo memo) w.db.sessions ≡ o
    → (c : Option Session) → (claim_session now memo op w.db).0 ≡ c
    → let w' = (process_payment now faults op w).1 in (process_payment now' faults' op w').1 ≡ w'
rerun_memo now now' memo faults faults' op w carries e o found none refused =
    rw
      (process_payment-refused now memo faults op w carries
        (claim_session-refused now memo op w.db refused))
      (process_payment-refused now' memo faults' op w carries
        (claim_session-refused_later now now' memo op w.db refused))
rerun_memo now now' memo faults faults' op w carries e none missing (some t) claims =
    absurd (no_claim now memo op w.db missing t claims)
rerun_memo now now' memo faults faults' op w carries e (some s) found (some t) claims =
    let c = (claim_session-Claimable now memo op w.db found claims).0 in
    let (left, row, settled) = leaves_settled now memo op w carries found faults c e in
    process_payment-refused now' memo faults' op _ carries
      (claim_session-not_pending now' memo op _ left row settled)

-- Running an operation again, later and under any faults, changes nothing: no second payment row
-- and no second webhook. (A run whose claim failed has not run.)
pub process_payment-idempotent :
    (now now' : ℕ) (faults faults' : Faults) (op : Op) (w : World)
    → faults.claim_fails ≡ false
    → let w' = (process_payment now faults op w).1 in (process_payment now' faults' op w').1 ≡ w'
process_payment-idempotent now now' faults faults' op w e =
    elim (Option-cases (memo_given op.transaction_memo)) [
      | inl missing ↦
          rw (process_payment-skipped now faults op w (inr missing))
            (ap (λ r. r.1) (process_payment-skipped now' faults' op w (inr missing)))
      | inr (memo, given) ↦ elim (Bool-cases (text_eq op.type (codes "payment"))) [
        | inl payment ↦
            rerun_memo now now' memo faults faults' op w (payment, given) e _ refl _ refl
        | inr other ↦
            rw (process_payment-skipped now faults op w (inl other))
              (ap (λ r. r.1) (process_payment-skipped now' faults' op w (inl other)))
      ]
    ]

-- An operation that does not meet what the session of its memo asks for changes nothing at all,
-- however the run ends.
pub process_payment-rejects :
    (now : ℕ) (memo : Text) (faults : Faults) (op : Op) (w : World) (s : Session)
    → Carries op memo
    → find? (has_memo memo) w.db.sessions ≡ some s
    → ¬ Claimable op w.db s
    → (process_payment now faults op w).1 ≡ w
process_payment-rejects now memo faults op w s carries found bad =
    elim (Option-cases (claim_session now memo op w.db).0) [
      | inl refused ↦
          process_payment-refused now memo faults op w carries
            (claim_session-refused now memo op w.db refused)
      | inr (t, claims) ↦ absurd (bad (claim_session-Claimable now memo op w.db found claims).0)
    ]
