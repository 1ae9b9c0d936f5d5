-- ===== src/Store/Invariant.antt =====
-- Two facts of the tables that every write of the services keeps: a paid session has a payment row,
-- and no two payment rows have the same transaction and session.
use orbit_stream_backend.Common.{
  ℕ, ◌≡◌, refl, ==_iff, Bool, true, false, ◌&&◌, List, [], ◌∷◌, ◌++◌, arith, if◌then◌else◌, any,
  All, Bool-cases, inl, inr,
}
use orbit_stream_backend.Store.{
  Status, paid, same_status, Session, Payment, Db, has_id, is_status, update_where, set_status,
  update_status, update_status_from, has_key, pays_for, insert_payment, is_paid_for,
}
use orbit_stream_backend.Store.Keys.{
  any-append, insert_payment-any, insert_payment-sessions, insert_payment-has_key,
}

-- If the session is paid, a payment row names it.
abbrev pub is_backed : List Payment → Session → Bool
is_backed ps s = if is_status paid s then any (pays_for s.id) ps else true

abbrev pub UniqueKeys : List Payment → Type 0
UniqueKeys [] = Unit
UniqueKeys (p ∷ ps) = (any (has_key p.tx_hash p.session_id) ps ≡ false) × UniqueKeys ps

pub record IsSound (db : Db) : Type 0 where
  pub backed : All (λ s. is_backed db.payments s ≡ true) db.sessions
  pub unique : UniqueKeys db.payments

pub All-update_where :
    (P : Session → Type 0) (q : Session → Bool) (f : Session → Session) (ss : List Session)
    → ((s : Session) → q s ≡ true → P s → P (f s))
    → All P ss
    → All P (update_where q f ss)
All-update_where P q f [] keep h = tt
All-update_where P q f (s ∷ ss) keep (p, h) = elim (Bool-cases (q s)) [
  | inl taken ↦ rw taken (keep s taken p, All-update_where P q f ss keep h)
  | inr left ↦ rw left (p, All-update_where P q f ss keep h)
]

-- The same where the predicate changes with the update.
pub All-update_step :
    (P Q : Session → Type 0) (q : Session → Bool) (f : Session → Session) (ss : List Session)
    → ((s : Session) → P s → Q (if q s then f s else s))
    → All P ss
    → All Q (update_where q f ss)
All-update_step P Q q f [] step h = tt
All-update_step P Q q f (s ∷ ss) step (p, h) = (step s p, All-update_step P Q q f ss step h)

pub All-mono :
    (P Q : Session → Type 0) (ss : List Session) → ((s : Session) → P s → Q s) → All P ss → All Q ss
All-mono P Q [] imp h = tt
All-mono P Q (s ∷ ss) imp (p, h) = (imp s p, All-mono P Q ss imp h)

-- A status other than paid asks for nothing.
pub update_status-IsSound :
    (st : Status) (now id : ℕ) (db : Db)
    → same_status st paid ≡ false
    → IsSound db
    → IsSound (update_status st now id db)
update_status-IsSound st now id db e h = record {
  backed =
      All-update_where (λ s. is_backed db.payments s ≡ true) (has_id id) (set_status st now)
        db.sessions (λ s taken p. ground arith) h.backed;
  unique = h.unique;
}

pub update_status_from-IsSound :
    (old st : Status) (now id : ℕ) (db : Db)
    → same_status st paid ≡ false
    → IsSound db
    → IsSound (update_status_from old st now id db)
update_status_from-IsSound old st now id db e h = record {
  backed =
      All-update_where (λ s. is_backed db.payments s ≡ true) (λ s. has_id id s && is_status old s)
        (set_status st now) db.sessions (λ s taken p. ground arith) h.backed;
  unique = h.unique;
}

-- A session with a payment row may become paid.
pub update_status-paid-IsSound :
    (now id : ℕ) (db : Db)
    → is_paid_for id db ≡ true
    → IsSound db
    → IsSound (update_status paid now id db)
update_status-paid-IsSound now id db e h = record {
  backed =
      All-update_where (λ s. is_backed db.payments s ≡ true) (has_id id) (set_status paid now)
        db.sessions (λ s taken p. rw ((==_iff s.id id).0 taken) e) h.backed;
  unique = h.unique;
}

has_key-sym : (p q : Payment) → has_key p.tx_hash p.session_id q ≡ has_key q.tx_hash q.session_id p
has_key-sym p q = ground arith

UniqueKeys-append :
    (p : Payment) (ps : List Payment)
    → any (has_key p.tx_hash p.session_id) ps ≡ false
    → UniqueKeys ps
    → UniqueKeys (ps ++ p ∷ [])
UniqueKeys-append p [] e h = (refl, tt)
UniqueKeys-append p (q ∷ ps) e (fresh, h) = ground (
  arith,
  has_key-sym p q,
  any-append (has_key q.tx_hash q.session_id) ps (p ∷ []),
  UniqueKeys-append p ps,
)

pub insert_payment-UniqueKeys :
    (p : Payment) (db : Db) → UniqueKeys db.payments → UniqueKeys (insert_payment p db).payments
unfolding insert_payment
insert_payment-UniqueKeys p db h =
    elim (Bool-cases (any (has_key p.tx_hash p.session_id) db.payments)) [
      | inl there ↦ rw there h
      | inr new ↦ rw new (UniqueKeys-append p db.payments new h)
    ]

pub insert_payment-IsSound : (p : Payment) (db : Db) → IsSound db → IsSound (insert_payment p db)
insert_payment-IsSound p db h = record {
  backed = rw insert_payment-sessions (All-mono _ _ db.sessions (λ s. stays_backed s) h.backed);
  unique = insert_payment-UniqueKeys p db h.unique;
}
  where
    stays_backed :
        (s : Session)
        → is_backed db.payments s ≡ true
        → is_backed (insert_payment p db).payments s ≡ true
    stays_backed s b = ground (arith, insert_payment-any (pays_for s.id) p db)

pays_for_of_key :
    (tx id : ℕ) (ps : List Payment) → any (has_key tx id) ps ≡ true → any (pays_for id) ps ≡ true
pays_for_of_key tx id [] h = h
pays_for_of_key tx id (p ∷ ps) h = ground (arith, pays_for_of_key tx id ps)

-- After the insert the session of the row is paid for.
pub insert_payment-is_paid_for :
    (p : Payment) (db : Db) → is_paid_for p.session_id (insert_payment p db) ≡ true
insert_payment-is_paid_for p db =
    pays_for_of_key p.tx_hash p.session_id _ (insert_payment-has_key p db)

-- The transaction that records a payment and marks its session as paid.
pub record_payment-IsSound :
    (now : ℕ) (p : Payment) (db : Db)
    → IsSound db
    → IsSound (update_status paid now p.session_id (insert_payment p db))
record_payment-IsSound now p db h =
    update_status-paid-IsSound now p.session_id (insert_payment p db)
      (insert_payment-is_paid_for p db) (insert_payment-IsSound p db h)
