-- ===== src/Auth/Issued.antt =====
-- A challenge that is issued, signed by the wallet and sent back.
use orbit_stream_backend.Common.{
  ℕ, ◌+◌, ◌/◌, ◌≤◌, ◌<◌, ◌≡◌, refl, true, false, ◌&&◌, List, [], ◌∷◌, ◌++◌, some, leb, Result, ok,
  err, arith,
}
use orbit_stream_backend.Common.Text.{Text, codes, text_eq, text_eq_self, is_empty}
use orbit_stream_backend.Auth.{
  Sdk, Signature, Transaction, AuthError, AuthState, Call, set_at, within, verify_tx_signed_by,
  fetch_signers, check_transaction, check_operation, is_signed, conclude, verify_parsed,
  count_attempt, verify_challenge,
}
use orbit_stream_backend.Auth.Challenge.{
  Signing, AuthConfig, Challenge, get_network_config, given_secret, challenge_operation,
  challenge_bounds, challenge_transaction, request_challenge,
}

-- What the SDK documents: an envelope is parsed back for its passphrase, and a signature of a key has
-- the hint of its public key and verifies under it.
pub record IsSdk (sdk : Sdk) (signing : Signing) : Type 0 where
  pub parses :
      (tx : Transaction) (passphrase : Text) (bounds : ℕ × ℕ)
      → tx.time_bounds ≡ some bounds
      → tx.hash ≡ signing.hash passphrase tx.source tx.operations bounds
      → sdk.from_xdr (signing.to_xdr tx) passphrase ≡ some tx
  pub hints :
      (secret hash : Text)
      → sdk.signature_hint (signing.public_key secret) ≡ some (signing.sign secret hash).hint
  pub verifies :
      (secret hash : Text)
      → sdk.verify (signing.public_key secret) hash (signing.sign secret hash).value ≡ true

module _ (sdk : Sdk) (signing : Signing) (laws : IsSdk sdk signing) where
  -- The wallet adds its signature.
  abbrev pub countersigned : Text → Transaction → Transaction
  countersigned wallet_secret tx = record tx {
    signatures = tx.signatures ++ signing.sign wallet_secret tx.hash ∷ [];
  }

  good_signature :
      (secret hash : Text)
      → (text_eq (signing.sign secret hash).hint (signing.sign secret hash).hint
          && sdk.verify (signing.public_key secret) hash (signing.sign secret hash).value)
        ≡ true
  good_signature secret hash =
      rw (text_eq_self (signing.sign secret hash).hint, laws.verifies secret hash) refl

  server_signed :
      (secret : Text) (tx : Transaction) (rest : List Signature)
      → tx.signatures ≡ signing.sign secret tx.hash ∷ rest
      → verify_tx_signed_by sdk tx (signing.public_key secret) ≡ true
  unfolding verify_tx_signed_by
  server_signed secret tx rest e =
      rw (laws.hints secret tx.hash, e, good_signature secret tx.hash) refl

  wallet_signed :
      (secret : Text) (tx : Transaction) (first : Signature)
      → tx.signatures ≡ first ∷ signing.sign secret tx.hash ∷ []
      → verify_tx_signed_by sdk tx (signing.public_key secret) ≡ true
  unfolding verify_tx_signed_by
  wallet_signed secret tx first e =
      rw (laws.hints secret tx.hash, e, good_signature secret tx.hash) (ground arith)

  -- The operation of the challenge passes the checks.
  operation_passes :
      (server_key wallet nonce : Text)
      → check_operation server_key wallet nonce (challenge_operation server_key wallet nonce ∷ [])
        ≡ ok tt
  operation_passes server_key wallet nonce =
      rw (text_eq_self wallet, text_eq_self (server_key ++ codes " auth"), text_eq_self nonce) refl

  bounds_hold :
      (ttl start now : ℕ)
      → start ≤ now
      → now < start + ttl
      → within now (some (challenge_bounds ttl start)) ≡ true
  bounds_hold ttl start now le lt = ground (arith, le, lt)

  -- The transaction of the challenge, with the signature of the wallet.
  abbrev pub response : ℕ → Text → Text → Text → Text → ℕ → Transaction
  response ttl passphrase secret wallet_secret nonce start = countersigned wallet_secret (
      challenge_transaction signing ttl passphrase secret (signing.public_key wallet_secret) nonce
        start)

  passes :
      (ttl : ℕ) (passphrase secret wallet_secret nonce : Text) (start now : ℕ)
      → start ≤ now
      → now < start + ttl
      → check_transaction sdk now
          (signing.public_key secret)
          (signing.public_key wallet_secret)
          nonce
          (response ttl passphrase secret wallet_secret nonce start)
        ≡ ok tt
  unfolding check_transaction
  passes ttl passphrase secret wallet_secret nonce start now le lt =
      rw
        (
          text_eq_self (signing.public_key secret),
          operation_passes (signing.public_key secret) (signing.public_key wallet_secret) nonce,
          bounds_hold ttl start now le lt,
          server_signed secret (response ttl passphrase secret wallet_secret nonce start) _ refl,
        )
        refl

  concludes :
      (tx : Transaction) (wallet : Text) (l : List Text) (s : AuthState)
      → verify_tx_signed_by sdk tx wallet ≡ true
      → (conclude sdk tx wallet s (ok l)).0 ≡ ok wallet
  unfolding conclude is_signed
  concludes tx wallet l s e = rw e refl

  answered :
      (call : Call) (tx : Transaction) (wallet nonce : Text) (l : List Text) (s : AuthState)
      → check_transaction sdk call.now_seconds call.server_key wallet nonce tx ≡ ok tt
      → (fetch_signers call.now wallet call.reply s.breaker).0 ≡ ok l
      → verify_tx_signed_by sdk tx wallet ≡ true
      → (verify_parsed sdk call wallet nonce tx s).0 ≡ ok wallet
  unfolding verify_parsed
  answered call tx wallet nonce l s good fetched signed =
      rw (good, fetched) (concludes tx wallet l _ signed)

  counted :
      (wallet : Text) (r : Result AuthError Text × AuthState)
      → r.0 ≡ ok wallet
      → (count_attempt wallet r).0 ≡ ok wallet
  counted wallet (ok w, s) e = e
  counted wallet (err x, s) e = absurd (ground (arith, e))

  few_attempts : (n : ℕ) → n < 10 → leb 10 n ≡ false
  few_attempts n lt = ground (arith, lt)

  verified :
      (call : Call) (xdr passphrase wallet nonce : Text) (tx : Transaction) (s : AuthState)
      → s.attempts wallet < 10
      → sdk.from_xdr xdr passphrase ≡ some tx
      → s.nonces wallet ≡ some nonce
      → is_empty nonce ≡ false
      → (verify_parsed sdk call wallet nonce tx s).0 ≡ ok wallet
      → (verify_challenge sdk call wallet xdr passphrase s).0 ≡ ok wallet
  unfolding verify_challenge
  verified call xdr passphrase wallet nonce tx s few parsed stored full good =
      rw (few_attempts (s.attempts wallet) few, parsed, stored, full)
        (counted wallet (verify_parsed sdk call wallet nonce tx s) good)

  -- A challenge that is issued, signed by the wallet and sent back before it expires is exchanged for a
  -- token, if fewer than ten failed attempts are counted, Horizon answers and no other call for the
  -- wallet runs in between.
  pub request_challenge-verify :
      (config : AuthConfig) (secret wallet_secret nonce : Text) (now : ℕ) (call : Call)
      (l : List Text) (s : AuthState)
      → given_secret (get_network_config config).secret ≡ some secret
      → call.server_key ≡ signing.public_key secret
      → is_empty nonce ≡ false
      → s.attempts (signing.public_key wallet_secret) < 10
      → now / 1000 ≤ call.now_seconds
      → call.now_seconds < now / 1000 + config.challenge_ttl_seconds
      → (fetch_signers call.now (signing.public_key wallet_secret) call.reply s.breaker).0 ≡ ok l
      → let (issued, s') =
          request_challenge signing config (signing.public_key wallet_secret) nonce now s in
        (c : Challenge) × (issued ≡ some c)
        × ((tx : Transaction) × (sdk.from_xdr c.transaction c.passphrase ≡ some tx)
            × ((verify_challenge sdk call
                  (signing.public_key wallet_secret)
                  (signing.to_xdr (countersigned wallet_secret tx))
                  c.passphrase
                  s').0
                ≡ ok (signing.public_key wallet_secret)))
  unfolding request_challenge
  request_challenge-verify config secret wallet_secret nonce now call l s has_secret key full few le
        lt fetched =
      let wallet = signing.public_key wallet_secret in
      let start = now / 1000 in
      let passphrase = (get_network_config config).passphrase in
      let ttl = config.challenge_ttl_seconds in
      let tx = challenge_transaction signing ttl passphrase secret wallet nonce start in
      let answer = response ttl passphrase secret wallet_secret nonce start in
      let s' : AuthState = record s { nonces = set_at s.nonces wallet (some nonce) } in
      rw has_secret (
        _,
        refl,
        (
          tx,
          laws.parses tx passphrase (challenge_bounds ttl start) refl refl,
          verified call (signing.to_xdr answer) passphrase wallet nonce answer s' few
              (laws.parses answer passphrase (challenge_bounds ttl start) refl refl)
              (rw (text_eq_self wallet) refl) full
              (answered call answer wallet nonce l s'
                (rw key
                  (passes ttl passphrase secret wallet_secret nonce start call.now_seconds le lt))
                fetched (wallet_signed wallet_secret answer _ refl)),
        ),
      )
