-- ===== src/Auth/Accepted.antt =====
-- What a challenge that `verifyChallenge` of src/auth/auth.service.ts accepts has shown.
use orbit_stream_backend.Common.{
  ℕ, zero, suc, ◌-◌, ◌≤◌, ◌⊎◌, inl, inr, any, ltb, Bool-cases, ◌<◌, ◌≡◌, refl, sym, subst, Bool,
  true, false, List, [], ◌∷◌, Option, none, some, leb, Result, ok, err, arith,
}
use orbit_stream_backend.Common.Text.{Text, text_eq, is_empty}
use orbit_stream_backend.Auth.{
  SignersReply, signers, not_found, server_error, other_error, Breaker, verify_tx_signed_by,
  fetch_retries, Sdk, Transaction, AuthError, unauthorized, unavailable, unexpected, AuthState,
  Call, fetch_signers, check_transaction, is_signed, finish, conclude, after_check, refuse_if,
  verify_parsed, verify_xdr, verify_nonce, count_attempt, verify_challenge,
}
use orbit_stream_backend.Auth.Checks.{IsAnswer, check_transaction-IsAnswer}

-- The wallet has signed, or one of the signers of its account that an attempt got from Horizon.
abbrev pub HasSigned : Sdk → Transaction → Text → (ℕ → SignersReply) → Type 0
HasSigned sdk tx wallet reply =
    (verify_tx_signed_by sdk tx wallet ≡ true)
    ⊎ ((attempt : ℕ) × (l : List Text) × (attempt ≤ 2)
        × (reply attempt ≡ signers l)
        × (any (λ key. verify_tx_signed_by sdk tx key) l ≡ true))

-- The signature, the result and the nonce at the end.
abbrev pub IsConcluded : Sdk → Transaction → Text → (ℕ → SignersReply) → Text → AuthState → Type 0
IsConcluded sdk tx wallet reply w s' =
    (w ≡ wallet) × (s'.nonces wallet ≡ none) × HasSigned sdk tx wallet reply

-- The account alone, if Horizon does not know it, or the signers that an attempt got.
abbrev pub IsFetched : Text → (ℕ → SignersReply) → List Text → Type 0
IsFetched account reply l =
    (l ≡ account ∷ []) ⊎ ((attempt : ℕ) × (attempt ≤ 2) × (reply attempt ≡ signers l))

last_reply :
    (now : ℕ) (account : Text) (reply : ℕ → SignersReply) (b : Breaker) (l : List Text)
    → (r : SignersReply) → reply 2 ≡ r
    → (fetch_retries now account reply 0 b).0 ≡ ok l
    → IsFetched account reply l
unfolding fetch_retries
last_reply now account reply b l (signers k) e h = inr (2, omega arith, ground arith)
last_reply now account reply b l not_found e h = inl (ground arith)
last_reply now account reply b l server_error e h = absurd (ground arith)
last_reply now account reply b l other_error e h = absurd (ground arith)

fetch_retries-IsFetched :
    (now : ℕ) (account : Text) (reply : ℕ → SignersReply) (n : ℕ) (b : Breaker) (l : List Text)
    → (fetch_retries now account reply n b).0 ≡ ok l
    → IsFetched account reply l
unfolding fetch_retries
fetch_retries-IsFetched now account reply zero b l h =
    last_reply now account reply b l (reply 2) refl h
fetch_retries-IsFetched now account reply (suc n) b l h =
    go (reply (1 - n)) refl (fetch_retries-IsFetched now account reply n b l)
  where
    go :
        (r : SignersReply)
        → reply (1 - n) ≡ r
        → ((fetch_retries now account reply n b).0 ≡ ok l → IsFetched account reply l)
        → IsFetched account reply l
    go (signers k) e again = inr (1 - n, omega arith, ground arith)
    go not_found e again = inl (ground arith)
    go server_error e again = again (ground arith)
    go other_error e again = absurd (ground arith)

fetch_signers-IsFetched :
    (now : ℕ) (account : Text) (reply : ℕ → SignersReply) (b : Breaker) (l : List Text)
    → (fetch_signers now account reply b).0 ≡ ok l
    → IsFetched account reply l
unfolding fetch_signers
fetch_signers-IsFetched now account reply b l h = elim (Bool-cases (ltb now b.open_until)) [
  | inl k ↦ absurd (ground arith)
  | inr k ↦ fetch_retries-IsFetched now account reply 2 b l (ground arith)
]

is_signed-HasSigned :
    (sdk : Sdk) (tx : Transaction) (wallet : Text) (reply : ℕ → SignersReply) (l : List Text)
    → IsFetched wallet reply l
    → is_signed sdk tx wallet l ≡ true
    → HasSigned sdk tx wallet reply
unfolding is_signed
is_signed-HasSigned sdk tx wallet reply l f h =
    elim (Bool-cases (verify_tx_signed_by sdk tx wallet)) [
      | inl b ↦ inl b
      | inr b ↦ elim f [
        | inl e ↦ absurd (ground (arith, e, h, b))
        | inr (attempt, le, got) ↦ inr (attempt, l, le, got, ground (arith, h, b))
      ]
    ]

text_eq_self : (t : Text) → text_eq t t ≡ true
text_eq_self [] = refl
text_eq_self (c ∷ t) = ground (arith, text_eq_self t)

finish-nonce :
    (b : Bool) (wallet w : Text) (s : AuthState)
    → (finish b wallet s).0 ≡ ok w
    → (b ≡ true) × (w ≡ wallet) × ((finish b wallet s).1.nonces wallet ≡ none)
finish-nonce true wallet w s e = (refl, ground (arith, e), rw (text_eq_self wallet) refl)
finish-nonce false wallet w s e = absurd (ground (arith, e))

conclude-IsConcluded :
    (sdk : Sdk) (tx : Transaction) (wallet w : Text) (reply : ℕ → SignersReply) (s : AuthState)
    (r : Result AuthError (List Text))
    → ((l : List Text) → r ≡ ok l → IsFetched wallet reply l)
    → (conclude sdk tx wallet s r).0 ≡ ok w
    → IsConcluded sdk tx wallet reply w (conclude sdk tx wallet s r).1
unfolding conclude
conclude-IsConcluded sdk tx wallet w reply s (err unauthorized) f e = absurd (ground (arith, e))
conclude-IsConcluded sdk tx wallet w reply s (err unavailable) f e = absurd (ground (arith, e))
conclude-IsConcluded sdk tx wallet w reply s (err unexpected) f e = absurd (ground (arith, e))
conclude-IsConcluded sdk tx wallet w reply s (ok l) f e =
    let (signed, same, gone) = finish-nonce (is_signed sdk tx wallet l) wallet w s e in
    (same, gone, is_signed-HasSigned sdk tx wallet reply l (f l refl) signed)

-- A transaction that passes the checks, and whose wallet has signed it or has a signer who has.
abbrev pub IsProof : Sdk → Call → Text → Text → Transaction → Text → AuthState → Type 0
IsProof sdk call wallet nonce tx w s' =
    IsAnswer sdk call wallet nonce tx × IsConcluded sdk tx wallet call.reply w s'

parsed-IsProof :
    (sdk : Sdk) (call : Call) (wallet nonce w : Text) (tx : Transaction) (s : AuthState)
    → (verify_parsed sdk call wallet nonce tx s).0 ≡ ok w
    → IsProof sdk call wallet nonce tx w (verify_parsed sdk call wallet nonce tx s).1
unfolding verify_parsed
parsed-IsProof sdk call wallet nonce w tx s e =
    go (check_transaction sdk call.now_seconds call.server_key wallet nonce tx) refl e
  where
    go :
        (r : Result AuthError (Unit {0}))
        → check_transaction sdk call.now_seconds call.server_key wallet nonce tx ≡ r
        → (after_check sdk call wallet tx s r).0 ≡ ok w
        → IsProof sdk call wallet nonce tx w (after_check sdk call wallet tx s r).1
    go (err x) c e = absurd (ground (arith, e))
    go (ok x) c e =
        let (fetched, b) = fetch_signers call.now wallet call.reply s.breaker in
        (
          check_transaction-IsAnswer sdk call wallet nonce tx x c,
          conclude-IsConcluded sdk tx wallet w call.reply (record s { breaker = b }) fetched
              (fetch_signers-IsFetched call.now wallet call.reply s.breaker) e,
        )

xdr-IsProof :
    (sdk : Sdk) (call : Call) (wallet nonce w : Text) (o : Option Transaction) (s : AuthState)
    → (verify_xdr sdk call wallet nonce o s).0 ≡ ok w
    → (tx : Transaction) × (o ≡ some tx)
      × IsProof sdk call wallet nonce tx w (verify_xdr sdk call wallet nonce o s).1
xdr-IsProof sdk call wallet nonce w none s e = absurd (ground (arith, e))
xdr-IsProof sdk call wallet nonce w (some tx) s e =
    (tx, refl, parsed-IsProof sdk call wallet nonce w tx s e)

-- The stored nonce, and the transaction that answers it.
abbrev pub HasProof :
    Sdk → Call → Text → Option Transaction → Option Text → Text → AuthState → Type 0
HasProof sdk call wallet o stored w s' =
    (nonce : Text) × (stored ≡ some nonce)
    × ((tx : Transaction) × (o ≡ some tx) × IsProof sdk call wallet nonce tx w s')

nonce-HasProof :
    (sdk : Sdk) (call : Call) (wallet w : Text) (o : Option Transaction) (stored : Option Text)
    (s : AuthState)
    → (verify_nonce sdk call wallet o stored s).0 ≡ ok w
    → HasProof sdk call wallet o stored w (verify_nonce sdk call wallet o stored s).1
nonce-HasProof sdk call wallet w o none s e = absurd (ground (arith, e))
nonce-HasProof sdk call wallet w o (some nonce) s e = go (is_empty nonce) e
  where
    go :
        (b : Bool)
        → (refuse_if b (verify_xdr sdk call wallet nonce o s) s).0 ≡ ok w
        → HasProof sdk call wallet o
            (some nonce)
            w
            (refuse_if b (verify_xdr sdk call wallet nonce o s) s).1
    go true e = absurd (ground (arith, e))
    go false e = (nonce, refl, xdr-IsProof sdk call wallet nonce w o s e)

counted :
    (wallet w : Text) (r : Result AuthError Text × AuthState)
    → (count_attempt wallet r).0 ≡ ok w
    → (r.0 ≡ ok w) × (count_attempt wallet r ≡ r)
counted wallet w (ok x, s) e = (e, refl)
counted wallet w (err unauthorized, s) e = absurd (ground (arith, e))
counted wallet w (err unavailable, s) e = absurd (ground (arith, e))
counted wallet w (err unexpected, s) e = absurd (ground (arith, e))

-- A wallet that gets a token has fewer than ten failed attempts counted, and has answered the stored
-- nonce: the envelope holds one operation of the wallet with the name and the nonce of the challenge,
-- its source is the server, its time bounds hold up to a minute, it is signed by the server, and by the
-- wallet or by one of the signers that Horizon gave for its account in one of three attempts. The
-- nonce is gone afterwards. The call runs with no other call in between.
pub verify_challenge-accepts :
    (sdk : Sdk) (call : Call) (wallet xdr passphrase w : Text) (s : AuthState)
    → (verify_challenge sdk call wallet xdr passphrase s).0 ≡ ok w
    → (s.attempts wallet < 10)
      × HasProof sdk call wallet
          (sdk.from_xdr xdr passphrase)
          (s.nonces wallet)
          w
          (verify_challenge sdk call wallet xdr passphrase s).1
unfolding verify_challenge
verify_challenge-accepts sdk call wallet xdr passphrase w s e =
    go (leb 10 (s.attempts wallet)) refl e
  where
    r : Result AuthError Text × AuthState
    r = verify_nonce sdk call wallet (sdk.from_xdr xdr passphrase) (s.nonces wallet) s

    go :
        (b : Bool)
        → leb 10 (s.attempts wallet) ≡ b
        → (refuse_if b (count_attempt wallet r) s).0 ≡ ok w
        → (s.attempts wallet < 10)
          × HasProof sdk call wallet
              (sdk.from_xdr xdr passphrase)
              (s.nonces wallet)
              w
              (refuse_if b (count_attempt wallet r) s).1
    go true c e = absurd (ground (arith, e))
    go false c e =
        let (h, same) = counted wallet w r e in
        (
          ground (arith, c),
          subst
              (λ q. HasProof sdk call wallet (sdk.from_xdr xdr passphrase) (s.nonces wallet) w q.1)
              (sym same)
              (nonce-HasProof sdk call wallet w (sdk.from_xdr xdr passphrase) (s.nonces wallet) s
                h),
        )
