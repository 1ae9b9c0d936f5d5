-- ===== src/Detector/Claim.antt =====
-- When `claimSession` claims, and what it changes.
use orbit_stream_backend.Common.{
  ℕ, ◌<◌, ◌≡◌, refl, ap, ◌⊎◌, inl, inr, true, false, ◌&&◌, Option, none, some, arith, find?, any,
  count_if, Option-cases,
}
use orbit_stream_backend.Common.Text.{Text, codes, text_eq}
use orbit_stream_backend.Amount.{are_amounts_equal}
use orbit_stream_backend.Store.{
  pending, processing, Session, Db, has_id, is_status, has_memo, update_status_from, has_key,
}
use orbit_stream_backend.Store.Keys.{count_if_of_find?}
use orbit_stream_backend.Detector.{Op, is_asset, claim_session}

-- What the operation has to meet for the session to be claimed.
pub record Claimable (op : Op) (db : Db) (s : Session) : Type 0 where
  pub is_pending : s.status ≡ pending
  pub same_amount : are_amounts_equal op.amount s.amount 7 ≡ true
  pub asset_fits :
      (is_asset op.asset_code s.asset_code ≡ true) ⊎ (text_eq s.asset_code (codes "XLM") ≡ true)
  pub unrecorded : any (has_key op.transaction_hash s.id) db.payments ≡ false

module _ (now : ℕ) (memo : Text) (op : Op) (db : Db) {s : Session}
    (found : find? (has_memo memo) db.sessions ≡ some s) where
  -- The guarded update finds the locked row as long as it is pending.
  row_counts :
      s.status ≡ pending → 0 < count_if (λ t. has_id s.id t && is_status pending t) db.sessions
  row_counts e =
      count_if_of_find? (has_memo memo) (λ t. has_id s.id t && is_status pending t) db.sessions s
        found (ground arith)

  pub claim_session-claims :
      Claimable op db s
      → claim_session now memo op db ≡ (some s, update_status_from pending processing now s.id db)
  unfolding claim_session
  claim_session-claims c = ground (arith, row_counts c.is_pending)

  pub claim_session-Claimable :
      {t : Session} → (claim_session now memo op db).0 ≡ some t → Claimable op db s × (t ≡ s)
  unfolding claim_session
  claim_session-Claimable e = ground (arith, row_counts)

-- A refused claim leaves the database as it was.
pub claim_session-refused :
    (now : ℕ) (memo : Text) (op : Op) (db : Db)
    → (claim_session now memo op db).0 ≡ none
    → claim_session now memo op db ≡ (none, db)
unfolding claim_session
claim_session-refused now memo op db e = elim (Option-cases (find? (has_memo memo) db.sessions)) [
  | inl missing ↦ rw (missing, claim_session)
  | inr (s, found) ↦ ground (arith, row_counts now memo op db found)
]

-- A session that is processing, paid, expired or cancelled is not claimed.
pub claim_session-not_pending :
    (now : ℕ) (memo : Text) (op : Op) (db : Db) (s : Session)
    → find? (has_memo memo) db.sessions ≡ some s
    → is_status pending s ≡ false
    → claim_session now memo op db ≡ (none, db)
unfolding claim_session
claim_session-not_pending now memo op db s found h = ground arith

pub no_claim :
    (now : ℕ) (memo : Text) (op : Op) (db : Db)
    → find? (has_memo memo) db.sessions ≡ none
    → (t : Session) → (claim_session now memo op db).0 ≡ some t
    → ⊥
unfolding claim_session
no_claim now memo op db missing t claims = ground arith

-- A refusal does not depend on the time.
pub claim_session-refused_later :
    (now now' : ℕ) (memo : Text) (op : Op) (db : Db)
    → (claim_session now memo op db).0 ≡ none
    → claim_session now' memo op db ≡ (none, db)
claim_session-refused_later now now' memo op db e =
    elim (Option-cases (claim_session now' memo op db).0) [
      | inl refused ↦ claim_session-refused now' memo op db refused
      | inr (t, claims) ↦ absurd (clash (find? (has_memo memo) db.sessions) refl t claims)
    ]
  where
    clash :
        (o : Option Session)
        → find? (has_memo memo) db.sessions ≡ o
        → (t : Session) → (claim_session now' memo op db).0 ≡ some t
        → ⊥
    clash none missing t claims = no_claim now' memo op db missing t claims
    clash (some s) found t claims = cc (
        claim_session-claims now memo op db found
          (claim_session-Claimable now' memo op db found claims).0)

-- A claim leaves the tables alone or runs one guarded update.
pub claim_session-db :
    (now : ℕ) (memo : Text) (op : Op) (db : Db)
    → ((claim_session now memo op db).1 ≡ db)
      ⊎ ((s : Session) × ((claim_session now memo op db).1
            ≡ update_status_from pending processing now s.id db))
claim_session-db now memo op db = elim (Option-cases (claim_session now memo op db).0) [
  | inl refused ↦ inl (ap (λ r. r.1) (claim_session-refused now memo op db refused))
  | inr (t, claims) ↦ claimed_by (find? (has_memo memo) db.sessions) refl t claims
]
  where
    claimed_by :
        (o : Option Session)
        → find? (has_memo memo) db.sessions ≡ o
        → (t : Session) → (claim_session now memo op db).0 ≡ some t
        → ((claim_session now memo op db).1 ≡ db)
          ⊎ ((s : Session) × ((claim_session now memo op db).1
                ≡ update_status_from pending processing now s.id db))
    claimed_by none missing t claims = absurd (no_claim now memo op db missing t claims)
    claimed_by (some s) found t claims = inr (
      s,
      ap (λ r. r.1)
          (claim_session-claims now memo op db found
            (claim_session-Claimable now memo op db found claims).0),
    )
