-- ===== src/InternalUrl.antt =====
-- src/merchants/is-not-internal-url.validator.ts: which URLs a webhook may have. The URL parser of
-- JavaScript is an argument; its host names are ASCII and in lower case letters or not.
pub mod Quads
mod Tests
use orbit_stream_backend.Common.{
  ℕ, ◌+◌, ◌-◌, ◌==◌, leb, Bool, true, false, not, ◌&&◌, ◌||◌, List, [], ◌∷◌, ◌++◌, Option, none,
  some, if◌then◌else◌, any, map,
}
use orbit_stream_backend.Common.Text.{Text, codes, text_eq, starts_with}

abbrev pub blocked_hosts : List Text
blocked_hosts =
    codes "localhost"
    ∷ codes "127.0.0.1"
    ∷ codes "0.0.0.0"
    ∷ codes "::1"
    ∷ codes "metadata.google.internal"
    ∷ []

-- (1[6-9]|2[0-9]|3[01])\.
abbrev pub is_second_octet : Text → Bool
is_second_octet (x ∷ y ∷ z ∷ s) =
    ((x == 49 && (leb 54 y && leb y 57))
      || (x == 50 && (leb 48 y && leb y 57))
      || (x == 51 && (y == 48 || y == 49)))
    && z == 46
is_second_octet _ = false

abbrev pub test_after : Text → (Text → Bool) → Text → Bool
test_after [] test s = test s
test_after (p ∷ ps) test [] = false
test_after (p ∷ ps) test (c ∷ s) = p == c && test_after ps test s

-- The regular expressions, in their order.
abbrev pub in_private_range : Text → Bool
in_private_range s =
    starts_with s (codes "10.")
    || test_after (codes "172.") is_second_octet s
    || starts_with s (codes "192.168.")
    || starts_with s (codes "169.254.")
    || starts_with s (codes "fc00:")
    || starts_with s (codes "fe80:")

abbrev pub to_lower : Text → Text
to_lower = map (λ c. if leb 65 c && leb c 90 then c + 32 else c)

-- `replace(/^\[|\]$/g, '')`
abbrev pub strip_last : Text → Text
strip_last [] = []
strip_last (c ∷ []) = if c == 93 then [] else c ∷ []
strip_last (c ∷ d ∷ s) = c ∷ strip_last (d ∷ s)

abbrev pub strip_brackets : Text → Text
strip_brackets [] = []
strip_brackets (c ∷ s) = if c == 91 then strip_last s else strip_last (c ∷ s)

unfoldable pub is_private_or_reserved_host : Text → Bool
is_private_or_reserved_host hostname =
    let lower = strip_brackets (to_lower hostname) in
    any (text_eq lower) blocked_hosts || in_private_range lower

pub record ParsedUrl : Type 0 where
  pub protocol : Text
  pub hostname : Text

-- `validate` of the decorator, for a value that is a string.
unfoldable pub is_not_internal_url : (Text → Option ParsedUrl) → Text → Bool
unfolding is_private_or_reserved_host
is_not_internal_url parse value = elim (parse value) [
  | none ↦ false
  | some url ↦
      (text_eq url.protocol (codes "https:") || text_eq url.protocol (codes "http:"))
      && not (is_private_or_reserved_host url.hostname)
]
