-- ===== src/Auth/Tests.antt =====
-- A challenge that is answered, and the theorems applied to it.
mod Envelope
use orbit_stream_backend.Common.{◌<◌, ◌≡◌, arith, refl, [], ◌∷◌, none, some, ok, err, if◌then◌else◌}
use orbit_stream_backend.Common.Text.{codes, text_eq}
use orbit_stream_backend.Auth.{
  Sdk, Operation, Transaction, SignersReply, unauthorized, AuthState, Call, verify_challenge,
  verify_tx_signed_by, fetch_signers, fetch_retries, check_transaction, is_signed, conclude,
  verify_parsed,
}
use orbit_stream_backend.Auth.Challenge.{
  AuthConfig, Challenge, get_network_config, request_challenge,
}
use orbit_stream_backend.Auth.Issued.{countersigned, request_challenge-verify}
use orbit_stream_backend.Auth.Tests.Envelope.{sdk, signing, sdk-IsSdk}
use orbit_stream_backend.Auth.Accepted.{HasProof, verify_challenge-accepts}
use orbit_stream_backend.Auth.Concurrent.{
  begin_verification, end_verification, verify_challenge-once,
}
use orbit_stream_backend.Common.Text.{Text}

abbrev answer_op : Operation
answer_op = record {
  source = some (codes "GW");
  name = some (codes "GS auth");
  value = some (codes "ab");
}

-- Signed by the server GS and by the wallet GW.
abbrev answered : Transaction
answered = record {
  source = codes "GS";
  operations = answer_op ∷ [];
  time_bounds = some (1_000, 1_600);
  hash = codes "h";
  signatures =
      record { hint = codes "S"; value = codes "GS" }
      ∷ record { hint = codes "W"; value = codes "GW" }
      ∷ [];
}

-- A signature is the key itself, and the hint of a key is all but its first character.
abbrev toy_sdk : Sdk
toy_sdk = record {
  from_xdr = λ xdr passphrase. if text_eq xdr (codes "tx") then some answered else none;
  signature_hint = λ key. elim key [ [] ↦ none | c ∷ rest ↦ some rest ];
  verify = λ key hash value. text_eq key value;
}

abbrev call : Call
call = record {
  now = 1_300_000;
  server_key = codes "GS";
  reply = λ attempt. SignersReply.signers (codes "GW" ∷ []);
  now_seconds = 1_300;
}

abbrev challenged : AuthState
challenged = record {
  nonces = λ wallet. if text_eq wallet (codes "GW") then some (codes "ab") else none;
  attempts = λ wallet. 0;
  breaker = record { failure_count = 0; open_until = 0 };
}

accepted :
    (verify_challenge toy_sdk call (codes "GW") (codes "tx") (codes "test") challenged).0
    ≡ ok (codes "GW")
unfolding verify_challenge verify_parsed check_transaction fetch_signers fetch_retries conclude
    is_signed verify_tx_signed_by
accepted = refl

-- Three calls of which each finds Horizon failing three times open the breaker for thirty seconds.
breaker_opens :
    (fetch_signers 5_000
      (codes "GW")
      (λ attempt. SignersReply.server_error)
      (record { failure_count = 2; open_until = 0 })).1
    ≡ record { failure_count = 3; open_until = 35_000 }
unfolding fetch_signers fetch_retries
breaker_opens = refl

verify_challenge-accepts_example :
    (0 < 10)
    × HasProof toy_sdk call
        (codes "GW")
        (some answered)
        (some (codes "ab"))
        (codes "GW")
        (verify_challenge toy_sdk call (codes "GW") (codes "tx") (codes "test") challenged).1
verify_challenge-accepts_example =
    verify_challenge-accepts toy_sdk call (codes "GW") (codes "tx") (codes "test") (codes "GW")
      challenged accepted

verify_challenge-once_example :
    let begun =
      begin_verification toy_sdk call (codes "GW") (codes "tx") (codes "test") challenged in
    let (first, s1) = end_verification toy_sdk call (codes "GW") begun challenged in
    let (second, s2) = end_verification toy_sdk call (codes "GW") begun s1 in
    ((call' : Call) (xdr' passphrase' : Text) (s' : AuthState)
      → (end_verification toy_sdk call'
          (codes "GW")
          (begin_verification toy_sdk call' (codes "GW") xdr' passphrase' s1)
          s').0
        ≡ err unauthorized)
    × (first ≡ ok (codes "GW"))
    × (second ≡ ok (codes "GW"))
verify_challenge-once_example =
    verify_challenge-once toy_sdk call (codes "GW") (codes "tx") (codes "test") (codes "GW")
      challenged accepted

abbrev config : AuthConfig
config = record {
  stellar_network = none;
  mainnet_secret = none;
  testnet_secret = some (codes "GS");
  platform_secret = none;
  public_passphrase = codes "public";
  testnet_passphrase = codes "test";
  challenge_ttl_seconds = 300;
}

abbrev fresh : AuthState
fresh = record {
  nonces = λ wallet. none;
  attempts = λ wallet. 0;
  breaker = record { failure_count = 0; open_until = 0 };
}

request_challenge-verify_example :
    let (issued, s') = request_challenge signing config (codes "GW") (codes "ab") 1_200_000 fresh in
    (c : Challenge) × (issued ≡ some c)
    × ((tx : Transaction) × (sdk.from_xdr c.transaction c.passphrase ≡ some tx)
        × ((verify_challenge sdk call
              (codes "GW")
              (signing.to_xdr (countersigned sdk signing sdk-IsSdk (codes "GW") tx))
              c.passphrase
              s').0
            ≡ ok (codes "GW")))
unfolding get_network_config fetch_signers fetch_retries
request_challenge-verify_example =
    request_challenge-verify sdk signing sdk-IsSdk config (codes "GS") (codes "GW") (codes "ab")
      1_200_000 call (codes "GW" ∷ []) fresh refl refl refl (omega arith) (omega arith)
      (omega arith) refl
