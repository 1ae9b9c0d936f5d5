-- ===== src/RateLimit/Rules.antt =====
-- src/api/middleware/rate-limit.config.ts: exempt paths, the rule for a request, and the identity
-- that it is counted under.
use orbit_stream_backend.Common.{
  ℕ, ◌-◌, ◌==◌, Bool, true, false, not, ◌&&◌, ◌||◌, List, [], ◌∷◌, ◌++◌, Option, none, some,
  if◌then◌else◌, leb, any, map, get_or,
}
use orbit_stream_backend.Common.Text.{
  Text, codes, text_eq, is_empty, starts_with, slice, trim, split,
}

pub data Scope : Type 0 where
  ip api_key : Scope

pub record Rule : Type 0 where
  pub name : Text
  pub limit : ℕ
  pub scope : Scope

abbrev pub exempt_prefixes : List Text
exempt_prefixes = codes "/health" ∷ codes "/metrics" ∷ []

abbrev pub under : Text → Text → Bool
under path p = text_eq path p || starts_with path (p ++ codes "/")

unfoldable pub is_exempt : Text → Bool
is_exempt path = any (under path) exempt_prefixes

-- `s.toUpperCase()` on the ASCII letters, which are all that a method has.
abbrev pub to_upper : Text → Text
to_upper = map (λ c. if leb b'a' c && leb c b'z' then c - 32 else c)

-- What follows the prefix, if the text has it.
abbrev pub strip_prefix : Text → Text → Option Text
strip_prefix [] s = some s
strip_prefix (c ∷ p) [] = none
strip_prefix (c ∷ p) (x ∷ s) = if x == c then strip_prefix p s else none

abbrev pub after_prefix : (Text → Bool) → Option Text → Bool
after_prefix rest none = false
after_prefix rest (some s) = rest s

-- `\/?$`
abbrev pub optional_slash : Text → Bool
optional_slash [] = true
optional_slash (c ∷ []) = c == b'/'
optional_slash (c ∷ d ∷ s) = false

-- `[^/]*\/?$`
abbrev pub segment_end : Text → Bool
segment_end [] = true
segment_end (c ∷ s) = if c == b'/' then is_empty s else segment_end s

-- `[^/]+\/?$`
abbrev pub segment : Text → Bool
segment [] = false
segment (c ∷ s) = not (c == b'/') && segment_end s

-- /^\/v1\/checkout\/sessions\/[^/]+\/?$/
unfoldable pub is_checkout_session : Text → Bool
is_checkout_session path = after_prefix segment (strip_prefix (codes "/v1/checkout/sessions/") path)

-- /^\/v1\/checkout\/sessions\/?$/
unfoldable pub is_checkout_sessions : Text → Bool
is_checkout_sessions path =
    after_prefix optional_slash (strip_prefix (codes "/v1/checkout/sessions") path)

abbrev pub auth_rule : Rule
auth_rule = record { name = codes "auth"; limit = 5; scope = ip }

abbrev pub register_rule : Rule
register_rule = record { name = codes "merchants-register"; limit = 3; scope = ip }

abbrev pub create_rule : Rule
create_rule = record { name = codes "checkout-create"; limit = 100; scope = api_key }

abbrev pub get_rule : Rule
get_rule = record { name = codes "checkout-get"; limit = 60; scope = ip }

abbrev pub default_rule : Rule
default_rule = record { name = codes "default"; limit = 60; scope = ip }

unfoldable pub resolve_rule : Text → Text → Rule
unfolding is_checkout_session is_checkout_sessions
resolve_rule method path =
    let m = to_upper method in
    if text_eq path (codes "/auth/verify")
    then auth_rule
    else if text_eq path (codes "/merchants/register")
    then register_rule
    else if text_eq m (codes "POST") && is_checkout_sessions path
    then create_rule
    else if text_eq m (codes "GET") && is_checkout_session path
    then get_rule
    else default_rule

-- A header of the request: missing, given once, or several times.
pub data Header : Type 0 where
  missing : Header
  single : Text → Header
  repeated : List Text → Header

-- The request, as far as the limiter reads it.
pub record Request : Type 0 where
  pub method : Text
  pub path : Text
  pub forwarded_for : Header
  pub authorization : Header
  pub ip : Option Text
  pub remote_address : Option Text

-- `req.ip ?? req.socket?.remoteAddress ?? 'unknown'`
abbrev pub peer_address : Request → Text
peer_address req = elim req.ip [
  | some a ↦ a
  | none ↦ elim req.remote_address [ some a ↦ a | none ↦ codes "unknown" ]
]

-- `s.split(',')[0].trim()`
pub first_hop : Text → Text
unfolding trim split
first_hop s = trim (get_or (split b',' s) 0 [])

unfoldable pub client_ip : Request → Text
unfolding first_hop
client_ip req = elim req.forwarded_for [
  | missing ↦ peer_address req
  | single s ↦ if is_empty s then peer_address req else first_hop s
  | repeated l ↦ elim l [ [] ↦ peer_address req | s ∷ _ ↦ first_hop s ]
]

abbrev pub bearer : Text → Option Text
bearer s = if starts_with s (codes "Bearer ") then some (slice s 7) else none

unfoldable pub request_api_key : Request → Option Text
request_api_key req = elim req.authorization [
  | missing ↦ none
  | single s ↦ bearer s
  | repeated _ ↦ none
]

abbrev pub key_or_ip : Option Text → Text → Text
key_or_ip none addr = codes "ip:" ++ addr
key_or_ip (some key) addr = if is_empty key then codes "ip:" ++ addr else codes "key:" ++ key

unfoldable pub rate_limit_identity : Request → Rule → Text
unfolding client_ip request_api_key
rate_limit_identity req rule = elim rule.scope [
  | ip ↦ codes "ip:" ++ client_ip req
  | api_key ↦ key_or_ip (request_api_key req) (client_ip req)
]
