-- ===== src/Store/Keys.antt =====
-- Lookups under the updates of the two tables.
use orbit_stream_backend.Common.{
  ◌<◌, ◌≡◌, refl, Bool, true, false, ◌||◌, List, [], ◌∷◌, ◌++◌, Option, none, some, arith,
  if◌then◌else◌, find?, any, count_if,
}
use orbit_stream_backend.Store.{Session, Payment, Db, update_where, has_key, insert_payment}

-- The row at hand after an update.
abbrev pub changed : (Session → Bool) → (Session → Session) → Option Session → Option Session
changed q f none = none
changed q f (some s) = some (if q s then f s else s)

-- A search by something that the update leaves alone finds the same row, updated if it is taken.
pub find?-update_where :
    (p q : Session → Bool) (f : Session → Session) (ss : List Session)
    → ((s : Session) → p (f s) ≡ p s)
    → find? p (update_where q f ss) ≡ changed q f (find? p ss)
find?-update_where p q f [] keep = refl
find?-update_where p q f (s ∷ ss) keep = ground (arith, keep s, find?-update_where p q f ss keep)

pub find?-holds {ℓ} :
    {A : Type ℓ} (p : A → Bool) (xs : List A) (x : A) → find? p xs ≡ some x → p x ≡ true
find?-holds p [] x e = ground arith
find?-holds p (y ∷ xs) x e = ground (arith, find?-holds p xs x)

-- A row that is found is counted by every test that it passes.
pub count_if_of_find? {ℓ} :
    {A : Type ℓ} (p q : A → Bool) (xs : List A) (x : A)
    → find? p xs ≡ some x
    → q x ≡ true
    → 0 < count_if q xs
count_if_of_find? p q [] x e h = ground arith
count_if_of_find? p q (y ∷ xs) x e h = ground (arith, count_if_of_find? p q xs x)

pub any-append {ℓ} :
    {A : Type ℓ} (p : A → Bool) (xs ys : List A) → any p (xs ++ ys) ≡ (any p xs || any p ys)
any-append p [] ys = refl
any-append p (x ∷ xs) ys = ground (arith, any-append p xs ys)

-- After the insert a row with its key is there, whether it was new or not.
pub insert_payment-has_key :
    (p : Payment) (db : Db)
    → any (has_key p.tx_hash p.session_id) (insert_payment p db).payments ≡ true
unfolding insert_payment
insert_payment-has_key p db =
    ground (arith, any-append (has_key p.tx_hash p.session_id) db.payments (p ∷ []))

-- Nothing that was there is lost.
pub insert_payment-any :
    (q : Payment → Bool) (p : Payment) (db : Db)
    → any q db.payments ≡ true
    → any q (insert_payment p db).payments ≡ true
unfolding insert_payment
insert_payment-any q p db h = ground (arith, any-append q db.payments (p ∷ []))

pub insert_payment-sessions : (p : Payment) (db : Db) → (insert_payment p db).sessions ≡ db.sessions
unfolding insert_payment
insert_payment-sessions p db = ground arith

pub insert_payment-fresh :
    (p : Payment) (db : Db)
    → any (has_key p.tx_hash p.session_id) db.payments ≡ false
    → (insert_payment p db).payments ≡ db.payments ++ p ∷ []
unfolding insert_payment
insert_payment-fresh p db h = ground arith
