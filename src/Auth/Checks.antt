-- ===== src/Auth/Checks.antt =====
-- What the checks of `verifyChallengeCore` of src/auth/auth.service.ts ask of the transaction.
use orbit_stream_backend.Common.{
  ◌≡◌, refl, Bool, true, false, List, [], ◌∷◌, ◌++◌, Option, none, some, Result, ok, err, ◌>>=◌,
  guard, arith,
}
use orbit_stream_backend.Common.Text.{Text, codes, text_eq}
use orbit_stream_backend.Auth.{
  Sdk, Operation, Transaction, AuthError, unauthorized, Call, has_text, verify_tx_signed_by, within,
  nonce_of, check_operation, check_transaction,
}

-- One operation of the wallet, whose value is the nonce.
abbrev pub Answers : Text → Text → Text → List Operation → Type 0
Answers server_key wallet nonce ops =
    (op : Operation) × (ops ≡ op ∷ [])
    × (has_text op.source wallet ≡ true)
    × (has_text op.name (server_key ++ codes " auth") ≡ true)
    × (has_text op.value nonce ≡ true)

-- What the transaction has to be.
abbrev pub IsAnswer : Sdk → Call → Text → Text → Transaction → Type 0
IsAnswer sdk call wallet nonce tx =
    (text_eq tx.source call.server_key ≡ true)
    × Answers call.server_key wallet nonce tx.operations
    × (within call.now_seconds tx.time_bounds ≡ true)
    × (verify_tx_signed_by sdk tx call.server_key ≡ true)

guard_ok :
    {B : Type 0} (b : Bool) (f : Unit {0} → Result AuthError B) (x : B)
    → guard b unauthorized >>= f ≡ ok x
    → (b ≡ true) × (f tt ≡ ok x)
guard_ok true f x e = (refl, e)
guard_ok false f x e = absurd (ground (arith, e))

guard_end : (b : Bool) (x : Unit {0}) → guard b unauthorized ≡ ok x → b ≡ true
guard_end true x e = refl
guard_end false x e = absurd (ground (arith, e))

bind_ok :
    {A B : Type 0} (r : Result AuthError A) (f : A → Result AuthError B) (x : B)
    → r >>= f ≡ ok x
    → (a : A) × (r ≡ ok a) × (f a ≡ ok x)
bind_ok (ok a) f x e = (a, refl, e)
bind_ok (err y) f x e = absurd (ground (arith, e))

value_lem :
    (v : Option Text) (stored : Text) (x : Unit {0})
    → nonce_of v >>= (λ nonce. guard (text_eq nonce stored) unauthorized) ≡ ok x
    → has_text v stored ≡ true
value_lem none stored x e = absurd (ground (arith, e))
value_lem (some v) stored x e = guard_end (text_eq v stored) x e

check_operation-Answers :
    (server_key wallet nonce : Text) (ops : List Operation) (x : Unit {0})
    → check_operation server_key wallet nonce ops ≡ ok x
    → Answers server_key wallet nonce ops
check_operation-Answers server_key wallet nonce [] x e = absurd (ground (arith, e))
check_operation-Answers server_key wallet nonce (op ∷ []) x e =
    let (source, e1) = guard_ok (has_text op.source wallet) _ x e in
    let (name, e2) = guard_ok (has_text op.name (server_key ++ codes " auth")) _ x e1 in
    (op, refl, source, name, value_lem op.value nonce x e2)
check_operation-Answers server_key wallet nonce (op ∷ op' ∷ ops) x e = absurd (ground (arith, e))

pub check_transaction-IsAnswer :
    (sdk : Sdk) (call : Call) (wallet nonce : Text) (tx : Transaction) (x : Unit {0})
    → check_transaction sdk call.now_seconds call.server_key wallet nonce tx ≡ ok x
    → IsAnswer sdk call wallet nonce tx
unfolding check_transaction
check_transaction-IsAnswer sdk call wallet nonce tx x e =
    let (source, e1) = guard_ok (text_eq tx.source call.server_key) _ x e in
    let (y, eo, e2) = bind_ok (check_operation call.server_key wallet nonce tx.operations) _ x e1 in
    let (bounds, e3) = guard_ok (within call.now_seconds tx.time_bounds) _ x e2 in
    (
      source,
      check_operation-Answers call.server_key wallet nonce tx.operations y eo,
      bounds,
      guard_end (verify_tx_signed_by sdk tx call.server_key) x e3,
    )
