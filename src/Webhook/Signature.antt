-- ===== src/Webhook/Signature.antt =====
-- `signPayload` of src/webhook/webhook.constants.ts. HMAC-SHA256 is a parameter.
use orbit_stream_backend.Common.{◌≡◌, ◌≢◌, [], ◌∷◌, ◌++◌, All, length, arith}
use orbit_stream_backend.Common.Text.{Text}
use orbit_stream_backend.Webhook.Constants.{build_signed_content}

-- `createHmac('sha256', secret).update(content).digest('hex')`
unfoldable pub sign_payload : (Text → Text → Text) → Text → Text → Text → Text → Text
unfolding build_signed_content
sign_payload hmac secret delivery_id timestamp payload =
    hmac secret (build_signed_content delivery_id timestamp payload)

-- No dot, as in a UUID.
abbrev pub HasNoDot : Text → Type 0
HasNoDot = All (λ c. c ≢ b'.')

dot_split :
    (a b x y : Text)
    → HasNoDot a
    → HasNoDot b
    → a ++ (b'.' ∷ x) ≡ b ++ (b'.' ∷ y)
    → (a ≡ b) × (x ≡ y)
dot_split [] [] x y ha hb e = ground arith
dot_split [] (d ∷ b) x y ha hb e = ground arith
dot_split (c ∷ a) [] x y ha hb e = ground arith
dot_split (c ∷ a) (d ∷ b) x y ha hb e = ground (arith, dot_split a b x y ha.1 hb.1)

length_split :
    (a b x y : Text) → length a ≡ length b → a ++ (b'.' ∷ x) ≡ b ++ (b'.' ∷ y) → (a ≡ b) × (x ≡ y)
length_split [] [] x y h e = ground arith
length_split [] (d ∷ b) x y h e = absurd (omega arith)
length_split (c ∷ a) [] x y h e = absurd (omega arith)
length_split (c ∷ a) (d ∷ b) x y h e = ground (arith, length_split a b x y)

-- The content that is signed determines the delivery, the time and the payload, when the ids hold no
-- dot (UUIDs do not) and the times are of one length (ISO 8601 with milliseconds).
pub build_signed_content-injective :
    (id id' timestamp timestamp' payload payload' : Text)
    → HasNoDot id
    → HasNoDot id'
    → length timestamp ≡ length timestamp'
    → build_signed_content id timestamp payload ≡ build_signed_content id' timestamp' payload'
    → (id ≡ id') × (timestamp ≡ timestamp') × (payload ≡ payload')
unfolding build_signed_content
build_signed_content-injective id id' timestamp timestamp' payload payload' h h' same e =
    let (ids, rest) = dot_split id id' _ _ h h' e in
    let (times, payloads) = length_split timestamp timestamp' payload payload' same rest in
    (ids, times, payloads)
