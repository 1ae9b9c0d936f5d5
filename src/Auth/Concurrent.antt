-- ===== src/Auth/Concurrent.antt =====
-- `verifyChallenge` of src/auth/auth.service.ts cut at the request to Horizon, where other calls may run:
-- it has read the counter and the nonce before, in one step here, and deletes the nonce after.
use orbit_stream_backend.Common.{
  ℕ, zero, suc, ◌≡◌, refl, ◌∙◌, ap, inl, inr, List, Option, none, some, if◌then◌else◌, ltb, leb,
  Result, ok, err, arith, Bool-cases,
}
use orbit_stream_backend.Common.Text.{Text, is_empty}
use orbit_stream_backend.Auth.{
  Sdk, Transaction, AuthError, unauthorized, unavailable, unexpected, AuthState, Breaker, Call,
  SignersReply, fetch_retries, fetch_signers, check_transaction, is_signed, conclude, after_check,
  verify_parsed, verify_xdr, verify_nonce, count_attempt, verify_challenge,
}
use orbit_stream_backend.Auth.Accepted.{verify_challenge-accepts}

-- A call that has begun: refused for too many attempts, failed, or waiting for Horizon.
pub data Begun : Type 0 where
  too_many : Begun
  fails : AuthError → Begun
  waits : Transaction → Begun

-- The breaker is read before the request is sent.
abbrev begin_request : Call → Transaction → Breaker → Result AuthError (Unit {0}) → Begun
begin_request call tx b (err e) = fails e
begin_request call tx b (ok _) = if ltb call.now b.open_until then fails unavailable else waits tx

abbrev begin_parsed : Sdk → Call → Text → Text → Option Transaction → Breaker → Begun
begin_parsed sdk call wallet nonce none b = fails unauthorized
begin_parsed sdk call wallet nonce (some tx) b =
    begin_request call tx b (check_transaction sdk call.now_seconds call.server_key wallet nonce tx)

abbrev begin_nonce : Sdk → Call → Text → Option Transaction → Option Text → Breaker → Begun
begin_nonce sdk call wallet tx none b = fails unauthorized
begin_nonce sdk call wallet tx (some nonce) b =
    if is_empty nonce then fails unauthorized else begin_parsed sdk call wallet nonce tx b

-- `verifyChallenge` up to the request to Horizon, with the text of the envelope and the passphrase.
unfoldable pub begin_verification : Sdk → Call → Text → Text → Text → AuthState → Begun
begin_verification sdk call wallet xdr passphrase s =
    if leb 10 (s.attempts wallet)
    then too_many
    else begin_nonce sdk call wallet (sdk.from_xdr xdr passphrase) (s.nonces wallet) s.breaker

-- The rest of it, on the state that is there once Horizon has answered.
unfoldable pub end_verification :
    Sdk → Call → Text → Begun → AuthState → Result AuthError Text × AuthState
unfolding fetch_retries conclude
end_verification sdk call wallet too_many s = (err unauthorized, s)
end_verification sdk call wallet (fails e) s = count_attempt wallet (err e, s)
end_verification sdk call wallet (waits tx) s =
    let (fetched, b) = fetch_retries call.now wallet call.reply 2 s.breaker in
    count_attempt wallet (conclude sdk tx wallet (record s { breaker = b }) fetched)

request_eq :
    (sdk : Sdk) (call : Call) (wallet : Text) (tx : Transaction) (s : AuthState)
    (r : Result AuthError (Unit {0}))
    → end_verification sdk call wallet (begin_request call tx s.breaker r) s
      ≡ count_attempt wallet (after_check sdk call wallet tx s r)
unfolding end_verification fetch_signers conclude
request_eq sdk call wallet tx s (err e) = refl
request_eq sdk call wallet tx s (ok _) = elim (Bool-cases (ltb call.now s.breaker.open_until)) [
  | inl b ↦ rw b refl
  | inr b ↦ rw b refl
]

parsed_eq :
    (sdk : Sdk) (call : Call) (wallet nonce : Text) (tx : Option Transaction) (s : AuthState)
    → end_verification sdk call wallet (begin_parsed sdk call wallet nonce tx s.breaker) s
      ≡ count_attempt wallet (verify_xdr sdk call wallet nonce tx s)
unfolding end_verification verify_parsed
parsed_eq sdk call wallet nonce none s = refl
parsed_eq sdk call wallet nonce (some tx) s =
    request_eq sdk call wallet tx s
      (check_transaction sdk call.now_seconds call.server_key wallet nonce tx)

nonce_eq :
    (sdk : Sdk) (call : Call) (wallet : Text) (tx : Option Transaction) (stored : Option Text)
    (s : AuthState)
    → end_verification sdk call wallet (begin_nonce sdk call wallet tx stored s.breaker) s
      ≡ count_attempt wallet (verify_nonce sdk call wallet tx stored s)
unfolding end_verification
nonce_eq sdk call wallet tx none s = refl
nonce_eq sdk call wallet tx (some nonce) s = elim (Bool-cases (is_empty nonce)) [
  | inl b ↦ rw b refl
  | inr b ↦ rw b (parsed_eq sdk call wallet nonce tx s)
]

-- A call with no other call in between is `verify_challenge`.
pub end_verification-begin :
    (sdk : Sdk) (call : Call) (wallet xdr passphrase : Text) (s : AuthState)
    → end_verification sdk call wallet (begin_verification sdk call wallet xdr passphrase s) s
      ≡ verify_challenge sdk call wallet xdr passphrase s
unfolding begin_verification end_verification verify_challenge
end_verification-begin sdk call wallet xdr passphrase s =
    elim (Bool-cases (leb 10 (s.attempts wallet))) [
      | inl b ↦ rw b refl
      | inr b ↦ rw b (nonce_eq sdk call wallet (sdk.from_xdr xdr passphrase) (s.nonces wallet) s)
    ]

-- Whether the signers are fetched does not depend on the breaker once the request is sent.
fetch_retries-result :
    (now : ℕ) (account : Text) (reply : ℕ → SignersReply) (n : ℕ) (b b' : Breaker)
    → (fetch_retries now account reply n b).0 ≡ (fetch_retries now account reply n b').0
unfolding fetch_retries
fetch_retries-result now account reply zero b b' = ground arith
fetch_retries-result now account reply (suc n) b b' =
    ground (arith, fetch_retries-result now account reply n b b')

conclude-result :
    (sdk : Sdk) (tx : Transaction) (wallet : Text) (s s' : AuthState)
    (r : Result AuthError (List Text))
    → (count_attempt wallet (conclude sdk tx wallet s r)).0
      ≡ (count_attempt wallet (conclude sdk tx wallet s' r)).0
unfolding conclude
conclude-result sdk tx wallet s s' (err unauthorized) = refl
conclude-result sdk tx wallet s s' (err unavailable) = refl
conclude-result sdk tx wallet s s' (err unexpected) = refl
conclude-result sdk tx wallet s s' (ok l) = elim (Bool-cases (is_signed sdk tx wallet l)) [
  | inl b ↦ rw b refl
  | inr b ↦ rw b refl
]

-- What a call that has begun gives does not depend on the state in which it ends.
end_verification-result :
    (sdk : Sdk) (call : Call) (wallet : Text) (begun : Begun) (s s' : AuthState)
    → (end_verification sdk call wallet begun s).0 ≡ (end_verification sdk call wallet begun s').0
unfolding end_verification
end_verification-result sdk call wallet too_many s s' = refl
end_verification-result sdk call wallet (fails unauthorized) s s' = refl
end_verification-result sdk call wallet (fails unavailable) s s' = refl
end_verification-result sdk call wallet (fails unexpected) s s' = refl
end_verification-result sdk call wallet (waits tx) s s' =
    let (fetched, b) = fetch_retries call.now wallet call.reply 2 s.breaker in
    let (fetched', b') = fetch_retries call.now wallet call.reply 2 s'.breaker in
    let same = fetch_retries-result call.now wallet call.reply 2 s.breaker s'.breaker in
    conclude-result sdk tx wallet (record s { breaker = b }) (record s' { breaker = b' }) fetched
    ∙ ap (λ r. (count_attempt wallet (conclude sdk tx wallet (record s' { breaker = b' }) r)).0)
        same

-- Without a stored nonce the call is refused, whatever is stored when it ends.
begun_without_nonce :
    (sdk : Sdk) (call : Call) (wallet xdr passphrase : Text) (s s' : AuthState)
    → s.nonces wallet ≡ none
    → (end_verification sdk call wallet (begin_verification sdk call wallet xdr passphrase s) s').0
      ≡ err unauthorized
unfolding begin_verification end_verification
begun_without_nonce sdk call wallet xdr passphrase s s' e =
    elim (Bool-cases (leb 10 (s.attempts wallet))) [ inl b ↦ rw b refl | inr b ↦ rw (b, e) refl ]

-- Once a wallet has got a token, every call for it that begins on the state this leaves is refused,
-- whatever is sent and whenever it ends. But of two calls that both begin before one of them ends, both
-- get a token: the same request, sent twice at once, is exchanged twice.
pub verify_challenge-once :
    (sdk : Sdk) (call : Call) (wallet xdr passphrase w : Text) (s : AuthState)
    → (verify_challenge sdk call wallet xdr passphrase s).0 ≡ ok w
    → let begun = begin_verification sdk call wallet xdr passphrase s in
      let (first, s1) = end_verification sdk call wallet begun s in
      let (second, s2) = end_verification sdk call wallet begun s1 in
      ((call' : Call) (xdr' passphrase' : Text) (s' : AuthState)
        → (end_verification sdk call' wallet
            (begin_verification sdk call' wallet xdr' passphrase' s1)
            s').0
          ≡ err unauthorized)
      × (first ≡ ok w)
      × (second ≡ ok w)
verify_challenge-once sdk call wallet xdr passphrase w s e =
    let begun = begin_verification sdk call wallet xdr passphrase s in
    let alone = end_verification-begin sdk call wallet xdr passphrase s in
    let first : (end_verification sdk call wallet begun s).0 ≡ ok w = ap (λ r. r.0) alone ∙ e in
    let (_, (_, _, (_, _, (_, (_, gone, _))))) =
      verify_challenge-accepts sdk call wallet xdr passphrase w s e in
    (
      λ call' xdr' passphrase' s'.
          begun_without_nonce sdk call' wallet xdr' passphrase' _ s'
            (ap (λ r. r.1.nonces wallet) alone ∙ gone),
      first,
      end_verification-result sdk call wallet begun _ s ∙ first,
    )
