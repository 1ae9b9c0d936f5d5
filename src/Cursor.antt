-- ===== src/Cursor.antt =====
-- src/payments/payment-cursor.service.ts, for one account: the stored cursor, the checkpoints and the
-- lock. A key of Redis is an optional value; the cursor and the checkpoints do not expire here.
pub mod Restore
use orbit_stream_backend.Common.{
  ℕ, ◌+◌, ◌-◌, ◌*◌, ◌==◌, Bool, true, false, not, ◌&&◌, ◌||◌, List, [], ◌∷◌, Option, none, some,
  if◌then◌else◌, ltb, leb, take, head?,
}
use orbit_stream_backend.Common.Text.{Text, codes, text_eq, is_empty}

abbrev pub checkpoint_max : ℕ
checkpoint_max = 50

abbrev pub persist_every : ℕ
persist_every = 10

abbrev pub lock_ttl_ms : ℕ
lock_ttl_ms = 30_000

-- The value of the lock key and the time at which it expires.
pub record Lock : Type 0 where
  pub holder : ℕ
  pub expires_at : ℕ

pub record CursorStore : Type 0 where
  pub cursor : Option Text
  pub checkpoints : List Text
  pub lock : Option Lock

abbrev all_digits : Text → Bool
all_digits [] = true
all_digits (c ∷ s) = leb b'0' c && leb c b'9' && all_digits s

-- /^\d+$/
abbrev pub is_numeric : Text → Bool
is_numeric s = not (is_empty s) && all_digits s

-- `BigInt(s)` of a text of digits, with the value of the digits before it.
abbrev pub big_int_from : ℕ → Text → ℕ
big_int_from acc [] = acc
big_int_from acc (c ∷ s) = big_int_from (acc * 10 + (c - b'0')) s

unfoldable pub is_ahead : Text → Text → Bool
is_ahead a b =
    if is_numeric a && is_numeric b
    then ltb (big_int_from 0 b) (big_int_from 0 a)
    else not (is_numeric a) && is_numeric b

abbrev pub get_latest_checkpoint : CursorStore → Option Text
get_latest_checkpoint st = head? st.checkpoints

-- What `restoreCursor` returns for a stored cursor and a checkpoint; an empty text is as good as none.
abbrev pub safe_cursor : Text → Option Text → Text
safe_cursor stored none = stored
safe_cursor stored (some checkpoint) =
    if not (is_empty checkpoint) && is_ahead stored checkpoint then checkpoint else stored

abbrev pub restore_from : Option Text → Option Text → Text
restore_from none checkpoint = codes "now"
restore_from (some stored) checkpoint =
    if is_empty stored then codes "now" else safe_cursor stored checkpoint

unfoldable pub restore_cursor : CursorStore → Text
unfolding is_ahead
restore_cursor st = restore_from st.cursor (get_latest_checkpoint st)

-- `current == ARGV[1] or current == false`
abbrev pub may_swap : Option Text → Text → Bool
may_swap none expected = true
may_swap (some current) expected = text_eq current expected

unfoldable pub update_cursor : Text → Text → CursorStore → Bool × CursorStore
update_cursor expected next st =
    if may_swap st.cursor expected then (true, record st { cursor = some next }) else (false, st)

unfoldable pub append_checkpoint : Text → CursorStore → CursorStore
append_checkpoint token st = record st {
  checkpoints = take checkpoint_max (token ∷ st.checkpoints);
}

-- GET of the lock
abbrev pub live_holder : ℕ → Option Lock → Option ℕ
live_holder now none = none
live_holder now (some l) = if ltb now l.expires_at then some l.holder else none

abbrev pub holds : Option ℕ → ℕ → Bool
holds none instance_id = false
holds (some h) instance_id = h == instance_id

abbrev is_free : Option ℕ → Bool
is_free none = true
is_free (some h) = false

abbrev pub lock_for : ℕ → ℕ → Lock
lock_for now instance_id = record { holder = instance_id; expires_at = now + lock_ttl_ms }

-- SET NX EX
unfoldable pub acquire_lock : ℕ → ℕ → CursorStore → Bool × CursorStore
acquire_lock now instance_id st =
    if is_free (live_holder now st.lock)
    then (true, record st { lock = some (lock_for now instance_id) })
    else (false, st)

-- The GET and the EXPIRE are two commands in the source; here no other instance comes between.
unfoldable pub renew_lock : ℕ → ℕ → CursorStore → Bool × CursorStore
renew_lock now instance_id st =
    if holds (live_holder now st.lock) instance_id
    then (true, record st { lock = some (lock_for now instance_id) })
    else (false, st)

unfoldable pub release_lock : ℕ → ℕ → CursorStore → CursorStore
release_lock now instance_id st =
    if holds (live_holder now st.lock) instance_id then record st { lock = none } else st
