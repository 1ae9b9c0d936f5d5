-- ===== src/Auth/Tests/Envelope.antt =====
-- An instance of the Stellar SDK: an envelope is the list of the parts of a transaction, each behind its
-- length, and a signature is the key.
use orbit_stream_backend.Common.{
  ℕ, zero, suc, ◌≡◌, refl, ap, List, [], ◌∷◌, ◌++◌, Option, none, some, length, take, drop,
}
use orbit_stream_backend.Common.Text.{Text, text_eq, text_eq_self}
use orbit_stream_backend.Auth.{Sdk, Signature, Operation, Transaction}
use orbit_stream_backend.Auth.Challenge.{Signing}
use orbit_stream_backend.Auth.Issued.{IsSdk}

abbrev put_text : Text → Text → Text
put_text t rest = length t ∷ (t ++ rest)

abbrev get_text : Text → Text × Text
get_text [] = ([], [])
get_text (n ∷ xs) = (take n xs, drop n xs)

abbrev put_option : Option Text → Text → Text
put_option none rest = 0 ∷ rest
put_option (some t) rest = 1 ∷ put_text t rest

abbrev get_option : Text → Option Text × Text
get_option [] = (none, [])
get_option (zero ∷ xs) = (none, xs)
get_option (suc n ∷ xs) = let (t, rest) = get_text xs in (some t, rest)

abbrev put_operation : Operation → Text → Text
put_operation op rest = put_option op.source (put_option op.name (put_option op.value rest))

abbrev get_operation : Text → Operation × Text
get_operation xs =
    let (source, xs1) = get_option xs in
    let (name, xs2) = get_option xs1 in
    let (value, xs3) = get_option xs2 in
    (record { source = source; name = name; value = value }, xs3)

abbrev put_signature : Signature → Text → Text
put_signature sig rest = put_text sig.hint (put_text sig.value rest)

abbrev get_signature : Text → Signature × Text
get_signature xs =
    let (hint, xs1) = get_text xs in
    let (value, xs2) = get_text xs1 in (record { hint = hint; value = value }, xs2)

take-length : (t rest : Text) → take (length t) (t ++ rest) ≡ t
take-length [] rest = refl
take-length (c ∷ t) rest = ap (λ l. c ∷ l) (take-length t rest)

drop-length : (t rest : Text) → drop (length t) (t ++ rest) ≡ rest
drop-length [] rest = refl
drop-length (c ∷ t) rest = drop-length t rest

get_text-put : (t rest : Text) → get_text (put_text t rest) ≡ (t, rest)
get_text-put t rest = rw (take-length t rest, drop-length t rest) refl

get_option-put : (o : Option Text) (rest : Text) → get_option (put_option o rest) ≡ (o, rest)
get_option-put none rest = refl
get_option-put (some t) rest = rw (take-length t rest, drop-length t rest) refl

get_operation-put :
    (op : Operation) (rest : Text) → get_operation (put_operation op rest) ≡ (op, rest)
get_operation-put op rest =
    rw
      (
        get_option-put op.source (put_option op.name (put_option op.value rest)),
        get_option-put op.name (put_option op.value rest),
        get_option-put op.value rest,
      )
      refl

get_signature-put :
    (sig : Signature) (rest : Text) → get_signature (put_signature sig rest) ≡ (sig, rest)
get_signature-put sig rest =
    rw
      (
        take-length sig.hint (put_text sig.value rest),
        drop-length sig.hint (put_text sig.value rest),
        take-length sig.value rest,
        drop-length sig.value rest,
      )
      refl

module _ {A : Type 0} where
  abbrev put_all : (A → Text → Text) → List A → Text → Text
  put_all put [] rest = rest
  put_all put (a ∷ l) rest = put a (put_all put l rest)

  abbrev get_all : (Text → A × Text) → ℕ → Text → List A × Text
  get_all get zero xs = ([], xs)
  get_all get (suc n) xs = let (a, xs1) = get xs in let (l, xs2) = get_all get n xs1 in (a ∷ l, xs2)

  get_all-put :
      (put : A → Text → Text) (get : Text → A × Text)
      → ((a : A) (rest : Text) → get (put a rest) ≡ (a, rest))
      → (l : List A) (rest : Text) → get_all get (length l) (put_all put l rest) ≡ (l, rest)
  get_all-put put get lem [] rest = refl
  get_all-put put get lem (a ∷ l) rest =
      rw (lem a (put_all put l rest), get_all-put put get lem l rest) refl

abbrev bounds_or_zero : Option (ℕ × ℕ) → ℕ × ℕ
bounds_or_zero none = (0, 0)
bounds_or_zero (some b) = b

abbrev to_xdr : Transaction → Text
to_xdr tx =
    let (from, to) = bounds_or_zero tx.time_bounds in
    from
    ∷ to
    ∷ length tx.operations
    ∷ length tx.signatures
    ∷ put_text tx.source (
        put_text tx.hash
          (put_all put_operation tx.operations (put_all put_signature tx.signatures [])))

abbrev from_xdr : Text → Option Transaction
from_xdr (from ∷ to ∷ n ∷ m ∷ xs) =
    let (source, xs1) = get_text xs in
    let (hash, xs2) = get_text xs1 in
    let (operations, xs3) = get_all get_operation n xs2 in
    let (signatures, xs4) = get_all get_signature m xs3 in
    some (record {
      source = source;
      operations = operations;
      time_bounds = some (from, to);
      hash = hash;
      signatures = signatures;
    })
from_xdr _ = none

from_xdr-to_xdr :
    (tx : Transaction) (b : ℕ × ℕ) → tx.time_bounds ≡ some b → from_xdr (to_xdr tx) ≡ some tx
from_xdr-to_xdr tx b e =
    rw
      (
        e,
        take-length tx.source (put_text tx.hash operations),
        drop-length tx.source (put_text tx.hash operations),
        take-length tx.hash operations,
        drop-length tx.hash operations,
        get_all-put put_operation get_operation get_operation-put tx.operations signatures,
        get_all-put put_signature get_signature get_signature-put tx.signatures [],
      )
      refl
  where
    signatures : Text
    signatures = put_all put_signature tx.signatures []

    operations : Text
    operations = put_all put_operation tx.operations signatures

-- A key is its own secret, its hint and its signature.
abbrev pub sdk : Sdk
sdk = record {
  from_xdr = λ xdr passphrase. from_xdr xdr;
  signature_hint = λ key. some key;
  verify = λ key hash value. text_eq key value;
}

abbrev pub signing : Signing
signing = record {
  public_key = λ secret. secret;
  sign = λ secret hash. record { hint = secret; value = secret };
  hash = λ passphrase source ops bounds. passphrase;
  to_xdr = to_xdr;
}

pub sdk-IsSdk : IsSdk sdk signing
sdk-IsSdk = record {
  parses = λ tx passphrase bounds e h. from_xdr-to_xdr tx bounds e;
  hints = λ secret hash. refl;
  verifies = λ secret hash. text_eq_self secret;
}
