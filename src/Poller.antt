-- ===== src/Poller.antt =====
-- The polling loop of src/payments/payment-detector.service.ts: the leader lock, the page of
-- operations, the cursor, and the back-off. The body of the loop is one call of `poll_once`.
pub mod Stored
pub mod Tracked
mod Tests
use orbit_stream_backend.Common.{
  ℕ, suc, ◌+◌, ◌==◌, Bool, true, false, ◌||◌, List, [], ◌∷◌, Option, none, some, if◌then◌else◌, ltb,
  leb,
}
use orbit_stream_backend.Common.Text.{Text, is_empty}
use orbit_stream_backend.Store.{World}
use orbit_stream_backend.Detector.{Op, Faults, Ending, process_payment}
use orbit_stream_backend.Cursor.{
  CursorStore, persist_every, update_cursor, append_checkpoint, acquire_lock, renew_lock,
  restore_cursor, release_lock,
}

abbrev pub default_interval_ms : ℕ
default_interval_ms = 3_000

abbrev pub backoff_429_ms : ℕ
backoff_429_ms = 10_000

abbrev pub backoff_5xx_ms : ℕ
backoff_5xx_ms = 5_000

abbrev pub backoff_429_duration : ℕ
backoff_429_duration = 60_000

abbrev pub backoff_5xx_duration : ℕ
backoff_5xx_duration = 30_000

abbrev pub rate_limit_warn_at : ℕ
rate_limit_warn_at = 10

-- The fields of the service that the loop changes.
pub record Poller : Type 0 where
  pub cursor : Text
  pub ops_since_flush : ℕ
  pub poll_interval_ms : ℕ
  pub backoff_until_ms : ℕ

-- What `getPaymentsPage` gives: a page with the requests that remain, or an error with its status,
-- 0 for an error without one.
pub data PageReply : Type 0 where
  page : List Op → ℕ → PageReply
  page_error : ℕ → PageReply

-- The tables and queues, the keys of Redis, and the fields.
pub record Polling : Type 0 where
  pub world : World
  pub store : CursorStore
  pub poller : Poller

abbrev pub token_given : Option Text → Option Text
token_given none = none
token_given (some t) = if is_empty t then none else some t

-- Which command of Redis fails while the cursor is advanced: LPUSH, LTRIM or EXPIRE of
-- `appendCheckpoint`, or the script of `updateCursor`.
pub data RedisFailure : Type 0 where
  all_succeed push_fails trim_fails expire_fails swap_fails : RedisFailure

-- `appendCheckpoint`, and whether it returns.
abbrev pub try_checkpoint : RedisFailure → Text → CursorStore → Ending × CursorStore
try_checkpoint all_succeed token st = (Ending.returns, append_checkpoint token st)
try_checkpoint push_fails token st = (Ending.throws, st)
try_checkpoint trim_fails token st =
    (Ending.throws, record st { checkpoints = token ∷ st.checkpoints })
try_checkpoint expire_fails token st = (Ending.throws, append_checkpoint token st)
try_checkpoint swap_fails token st = (Ending.returns, append_checkpoint token st)

abbrev pub is_swap_failure : RedisFailure → Bool
is_swap_failure swap_fails = true
is_swap_failure _ = false

-- The end of the body, once the fields are set and the checkpoint is appended; `prev` is the cursor
-- from before.
abbrev pub flush :
    RedisFailure → Text → Poller → Ending × CursorStore → Ending × (Poller × CursorStore)
flush failure prev p (Ending.throws, st) = (Ending.throws, (p, st))
flush failure prev p (Ending.returns, st) =
    if leb persist_every p.ops_since_flush
    then if is_swap_failure failure
      then (Ending.throws, (p, st))
      else (Ending.returns, (record p { ops_since_flush = 0 }, (update_cursor prev p.cursor st).1))
    else (Ending.returns, (p, st))

-- `if (op.paging_token)`, once the operation is processed. The fields change before Redis is asked.
unfoldable pub advance :
    RedisFailure → Option Text → Poller → CursorStore → Ending × (Poller × CursorStore)
unfolding update_cursor append_checkpoint
advance failure none p st = (Ending.returns, (p, st))
advance failure (some token) p st =
    flush failure p.cursor (record p { cursor = token; ops_since_flush = suc p.ops_since_flush })
      (try_checkpoint failure token st)

-- A throw leaves the loop in the state it has reached.
abbrev pub unless_thrown : Ending → Polling → Ending × Polling → Ending × Polling
unless_thrown Ending.returns s rest = rest
unless_thrown Ending.throws s rest = (Ending.throws, s)

-- The loop over the records. An operation that throws ends it, and so does a failure of Redis.
unfoldable pub poll_records :
    ℕ → (Op → Faults) → (Op → RedisFailure) → List Op → Polling → Ending × Polling
unfolding advance
poll_records now faults redis [] s = (Ending.returns, s)
poll_records now faults redis (op ∷ ops) s =
    let (ending, world) = process_payment now (faults op) op s.world in
    let (stored, (p, st)) = advance (redis op) (token_given op.paging_token) s.poller s.store in
    let s1 : Polling = record { world = world; store = st; poller = p } in
    let rest = poll_records now faults redis ops s1 in
    unless_thrown ending (record s { world = world }) (unless_thrown stored s1 rest)

abbrev pub back_off : ℕ → ℕ → Poller → Poller
back_off interval until_ms p = record p { poll_interval_ms = interval; backoff_until_ms = until_ms }

abbrev pub heed_rate_limit : ℕ → ℕ → Poller → Poller
heed_rate_limit now remaining p =
    if ltb remaining rate_limit_warn_at
    then back_off backoff_429_ms (now + backoff_429_duration) p
    else p

-- The branches of the `catch`.
unfoldable pub after_error : ℕ → ℕ → Poller → Poller
after_error now status p =
    if status == 429
    then back_off backoff_429_ms (now + backoff_429_duration) p
    else if leb 500 status
    then back_off backoff_5xx_ms (now + backoff_5xx_duration) p
    else p

abbrev pub end_back_off : ℕ → Poller → Poller
end_back_off now p =
    if ltb p.backoff_until_ms now then record p { poll_interval_ms = default_interval_ms } else p

abbrev pub after_records : ℕ → Ending × Polling → Polling
after_records now (Ending.returns, s) = record s { poller = end_back_off now s.poller }
after_records now (Ending.throws, s) = record s { poller = after_error now 0 s.poller }

-- Fetching and processing; an error of processing has no status.
unfoldable pub fetch_and_process :
    ℕ → (Op → Faults) → (Op → RedisFailure) → PageReply → Polling → Polling
unfolding poll_records after_error
fetch_and_process now faults redis (page records remaining) s = after_records now (
    poll_records now faults redis records
      (record s { poller = heed_rate_limit now remaining s.poller }))
fetch_and_process now faults redis (page_error status) s = record s {
  poller = after_error now status s.poller;
}

unfoldable pub current_interval : ℕ → Poller → ℕ × Poller
current_interval now p =
    if ltb now p.backoff_until_ms
    then (p.poll_interval_ms, p)
    else (default_interval_ms, record p { poll_interval_ms = default_interval_ms })

-- `renewLock || acquireLock`
unfoldable pub has_lock : ℕ → ℕ → CursorStore → Bool × CursorStore
unfolding renew_lock acquire_lock
has_lock now instance_id st =
    let (renewed, st1) = renew_lock now instance_id st in
    if renewed then (true, st1) else acquire_lock now instance_id st1

-- The body of the loop: how long it sleeps, and the state. Failures of the lock are left out.
unfoldable pub poll_once :
    ℕ → ℕ → (Op → Faults) → (Op → RedisFailure) → (Text → PageReply) → Polling → ℕ × Polling
unfolding has_lock fetch_and_process current_interval
poll_once now instance_id faults redis horizon s =
    let (held, st) = has_lock now instance_id s.store in
    let s1 = record s { store = st } in
    let s2 = if held then fetch_and_process now faults redis (horizon s.poller.cursor) s1 else s1 in
    let (interval, p) = current_interval now s2.poller in (interval, record s2 { poller = p })

-- `onModuleInit`, up to the loop.
unfoldable pub start_polling : CursorStore → Poller
unfolding restore_cursor
start_polling st = record {
  cursor = restore_cursor st;
  ops_since_flush = 0;
  poll_interval_ms = default_interval_ms;
  backoff_until_ms = 0;
}
