-- ===== src/Auth.antt =====
-- src/auth/auth.service.ts: verifying a signed challenge, the limit on failed attempts, and the circuit
-- breaker before Horizon. The Stellar SDK is a parameter, and the server's key is configured. Keys of
-- Redis do not expire here.
pub mod Checks
pub mod Accepted
pub mod Concurrent
pub mod Challenge
pub mod Issued
mod Tests
use orbit_stream_backend.Common.{
  ℕ, zero, suc, ◌+◌, ◌-◌, ◌==◌, Bool, true, false, not, ◌&&◌, ◌||◌, List, [], ◌∷◌, ◌++◌, Option,
  none, some, if◌then◌else◌, ltb, leb, any, Result, ok, err, ◌>>=◌, guard,
}
use orbit_stream_backend.Common.Text.{Text, codes, text_eq, is_empty}

pub record Signature : Type 0 where
  pub hint : Text
  pub value : Text

-- The fields of the operation that are read; `none` for one that it does not have. The value is in hex.
pub record Operation : Type 0 where
  pub source : Option Text
  pub name : Option Text
  pub value : Option Text

pub record Transaction : Type 0 where
  pub source : Text
  pub operations : List Operation
  pub time_bounds : Option (ℕ × ℕ)
  pub hash : Text
  pub signatures : List Signature

-- The SDK: parsing an envelope, and the hint and the verification of a public key, `none` if it throws.
pub record Sdk : Type 0 where
  pub from_xdr : Text → Text → Option Transaction
  pub signature_hint : Text → Option Text
  pub verify : Text → Text → Text → Bool

-- What one request to Horizon gives; `server_error` stands for a timeout as well, `other_error` for any
-- other error.
pub data SignersReply : Type 0 where
  signers : List Text → SignersReply
  not_found server_error other_error : SignersReply

pub data AuthError : Type 0 where
  unauthorized unavailable unexpected : AuthError

pub record Breaker : Type 0 where
  pub failure_count : ℕ
  pub open_until : ℕ

-- The nonces and the counters of failed attempts in Redis, and the fields of the service.
pub record AuthState : Type 0 where
  pub nonces : Text → Option Text
  pub attempts : Text → ℕ
  pub breaker : Breaker

abbrev pub set_at {ℓ} : {A : Type ℓ} → (Text → A) → Text → A → Text → A
set_at f k v n = if text_eq k n then v else f n

abbrev pub has_text : Option Text → Text → Bool
has_text none t = false
has_text (some s) t = text_eq s t

abbrev signed_with : Sdk → Transaction → Text → Option Text → Bool
signed_with sdk tx public_key none = false
signed_with sdk tx public_key (some expected_hint) =
    any (λ sig. text_eq sig.hint expected_hint && sdk.verify public_key tx.hash sig.value)
      tx.signatures

unfoldable pub verify_tx_signed_by : Sdk → Transaction → Text → Bool
verify_tx_signed_by sdk tx public_key =
    signed_with sdk tx public_key (sdk.signature_hint public_key)

abbrev pub count_failure : ℕ → Breaker → Breaker
count_failure now b =
    let n = suc b.failure_count in
    if leb 3 n
    then record { failure_count = n; open_until = now + 30_000 }
    else record b { failure_count = n }

-- The retries; the argument before the last is how many are left.
unfoldable pub fetch_retries :
    ℕ → Text → (ℕ → SignersReply) → ℕ → Breaker → Result AuthError (List Text) × Breaker
fetch_retries now account reply zero b = elim (reply 2) [
  | signers l ↦ (ok l, record b { failure_count = 0 })
  | not_found ↦ (ok (account ∷ []), b)
  | server_error ↦ (err unavailable, count_failure now b)
  | other_error ↦ (err unexpected, b)
]
fetch_retries now account reply (suc n) b =
    let again = fetch_retries now account reply n b in
    elim (reply (1 - n)) [
      | signers l ↦ (ok l, record b { failure_count = 0 })
      | not_found ↦ (ok (account ∷ []), b)
      | server_error ↦ again
      | other_error ↦ (err unexpected, b)
    ]

-- `fetchAccountSignersWithResilience`; the time of the delays is left out.
unfoldable pub fetch_signers :
    ℕ → Text → (ℕ → SignersReply) → Breaker → Result AuthError (List Text) × Breaker
unfolding fetch_retries
fetch_signers now account reply b =
    if ltb now b.open_until then (err unavailable, b) else fetch_retries now account reply 2 b

abbrev pub within : ℕ → Option (ℕ × ℕ) → Bool
within now_seconds none = false
within now_seconds (some (min_time, max_time)) =
    not (ltb (now_seconds + 60) min_time || ltb (max_time + 60) now_seconds)

abbrev pub nonce_of : Option Text → Result AuthError Text
nonce_of none = err unexpected
nonce_of (some v) = ok v

-- The checks of the one operation, in the order of the source.
abbrev pub check_operation : Text → Text → Text → List Operation → Result AuthError (Unit {0})
check_operation server_key wallet stored_nonce (op ∷ []) =
    guard (has_text op.source wallet) unauthorized >>= (λ _.
      guard (has_text op.name (server_key ++ codes " auth")) unauthorized
      >>= (λ _. nonce_of op.value >>= (λ nonce. guard (text_eq nonce stored_nonce) unauthorized)))
check_operation server_key wallet stored_nonce _ = err unauthorized

-- The checks of the transaction before Horizon is asked.
unfoldable pub check_transaction :
    Sdk → ℕ → Text → Text → Text → Transaction → Result AuthError (Unit {0})
unfolding verify_tx_signed_by
check_transaction sdk now_seconds server_key wallet stored_nonce tx =
    guard (text_eq tx.source server_key) unauthorized >>= (λ _.
      check_operation server_key wallet stored_nonce tx.operations >>= (λ _.
        guard (within now_seconds tx.time_bounds) unauthorized
        >>= (λ _. guard (verify_tx_signed_by sdk tx server_key) unauthorized)))

-- The wallet itself or any signer of the account has signed.
unfoldable pub is_signed : Sdk → Transaction → Text → List Text → Bool
unfolding verify_tx_signed_by
is_signed sdk tx wallet l =
    verify_tx_signed_by sdk tx wallet || any (λ s. verify_tx_signed_by sdk tx s) l

-- Success deletes the nonce.
abbrev pub finish : Bool → Text → AuthState → Result AuthError Text × AuthState
finish true wallet s = (ok wallet, record s { nonces = set_at s.nonces wallet none })
finish false wallet s = (err unauthorized, s)

-- Everything after the signers are fetched. An error that is not `unavailable` becomes `unauthorized`.
unfoldable pub conclude :
    Sdk
    → Transaction
    → Text
    → AuthState
    → Result AuthError (List Text)
    → Result AuthError Text × AuthState
unfolding is_signed
conclude sdk tx wallet s (err unavailable) = (err unavailable, s)
conclude sdk tx wallet s (err _) = (err unauthorized, s)
conclude sdk tx wallet s (ok l) = finish (is_signed sdk tx wallet l) wallet s

-- The arguments of one call: the time in milliseconds, the key of the server, and what Horizon gives.
pub record Call : Type 0 where
  pub now : ℕ
  pub server_key : Text
  pub reply : ℕ → SignersReply
  pub now_seconds : ℕ

abbrev pub after_check :
    Sdk
    → Call
    → Text
    → Transaction
    → AuthState
    → Result AuthError (Unit {0})
    → Result AuthError Text × AuthState
after_check sdk call wallet tx s (err e) = (err e, s)
after_check sdk call wallet tx s (ok _) =
    let (fetched, b) = fetch_signers call.now wallet call.reply s.breaker in
    conclude sdk tx wallet (record s { breaker = b }) fetched

unfoldable pub verify_parsed :
    Sdk → Call → Text → Text → Transaction → AuthState → Result AuthError Text × AuthState
unfolding check_transaction fetch_signers conclude
verify_parsed sdk call wallet nonce tx s =
    after_check sdk call wallet tx s
      (check_transaction sdk call.now_seconds call.server_key wallet nonce tx)

abbrev pub verify_xdr :
    Sdk → Call → Text → Text → Option Transaction → AuthState → Result AuthError Text × AuthState
verify_xdr sdk call wallet nonce none s = (err unauthorized, s)
verify_xdr sdk call wallet nonce (some tx) s = verify_parsed sdk call wallet nonce tx s

-- `if (condition) throw new UnauthorizedException(...)` before the rest.
abbrev pub refuse_if :
    Bool → Result AuthError Text × AuthState → AuthState → Result AuthError Text × AuthState
refuse_if true r s = (err unauthorized, s)
refuse_if false r s = r

-- `verifyChallengeCore`, once the nonce is read; an empty text is as good as none.
abbrev pub verify_nonce :
    Sdk
    → Call
    → Text
    → Option Transaction
    → Option Text
    → AuthState
    → Result AuthError Text × AuthState
verify_nonce sdk call wallet tx none s = (err unauthorized, s)
verify_nonce sdk call wallet tx (some nonce) s =
    refuse_if (is_empty nonce) (verify_xdr sdk call wallet nonce tx s) s

abbrev pub count_attempt :
    Text → Result AuthError Text × AuthState → Result AuthError Text × AuthState
count_attempt wallet (ok w, s) = (ok w, s)
count_attempt wallet (err unauthorized, s) =
    (err unauthorized, record s { attempts = set_at s.attempts wallet (suc (s.attempts wallet)) })
count_attempt wallet (err e, s) = (err e, s)

-- `verifyChallenge`, with the transaction as the text of its envelope and the passphrase, when no other
-- call runs in between. Auth.Concurrent cuts it where others may.
unfoldable pub verify_challenge :
    Sdk → Call → Text → Text → Text → AuthState → Result AuthError Text × AuthState
unfolding verify_parsed
verify_challenge sdk call wallet xdr passphrase s =
    refuse_if (leb 10 (s.attempts wallet))
      (count_attempt wallet
        (verify_nonce sdk call wallet (sdk.from_xdr xdr passphrase) (s.nonces wallet) s))
      s
