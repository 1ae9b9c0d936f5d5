-- ===== src/Poller/Tests.antt =====
-- Tests of the cursor and of the polling loop, and their theorems applied to concrete inputs.
use orbit_stream_backend.Common.{
  ◌≡◌, refl, Bool, if◌then◌else◌, Option, false, List, [], ◌∷◌, none, some,
}
use orbit_stream_backend.Common.Text.{Text, codes, text_eq}
use orbit_stream_backend.Detector.{Op, Faults, Ending, process_payment}
use orbit_stream_backend.Cursor.{CursorStore, restore_cursor, acquire_lock, renew_lock}
use orbit_stream_backend.Poller.{
  RedisFailure, Polling, PageReply, poll_records, poll_once, has_lock, fetch_and_process,
  current_interval,
}
use orbit_stream_backend.Poller.Stored.{IsBehind, poll_records-stalls}
use orbit_stream_backend.Poller.Tracked.{Ends, poll_records-tracks}

abbrev ahead_store : CursorStore
ahead_store = record { cursor = some (codes "120"); checkpoints = codes "110" ∷ []; lock = none }

rolls_back : restore_cursor ahead_store ≡ codes "110"
unfolding restore_cursor
rolls_back = refl

abbrev no_fault : Op → Faults
no_fault op = record { claim_fails = false; finalize_fails = false; dispatch_fails = false }

abbrev no_failure : Op → RedisFailure
no_failure op = RedisFailure.all_succeed

abbrev has_token : Text → Option Text → Bool
has_token t none = false
has_token t (some token) = text_eq token t

-- An operation that is no payment.
abbrev other_op : Text → Op
other_op token = record {
  type = codes "create_account";
  transaction_memo = none;
  transaction_hash = 0;
  amount = codes "1";
  asset_code = none;
  asset_issuer = none;
  sender = 0;
  paging_token = some token;
}

-- The stored cursor is 10, the one in memory 19, and the next operation is the tenth since the flush.
abbrev behind : Polling
behind = record {
  world = record { db = record { sessions = []; payments = [] }; dispatched = [] };
  store = record { cursor = some (codes "10"); checkpoints = codes "19" ∷ []; lock = none };
  poller = record {
    cursor = codes "19";
    ops_since_flush = 9;
    poll_interval_ms = 3_000;
    backoff_until_ms = 0;
  };
}

abbrev next_page : List Op
next_page = other_op (codes "20") ∷ other_op (codes "21") ∷ []

flush_fails :
    (poll_records 0 no_fault no_failure next_page behind).1.store.cursor ≡ some (codes "10")
unfolding poll_records process_payment
flush_fails = refl

poll_records-stalls_example :
    IsBehind
      (codes "10")
      (poll_records 0 no_fault no_failure next_page behind).1.poller
      (poll_records 0 no_fault no_failure next_page behind).1.store
poll_records-stalls_example =
    poll_records-stalls 0 no_fault no_failure next_page behind (codes "10") (refl, (refl, tt))
      (refl, refl)

-- Redis fails at the second operation of the page.
abbrev trim_at_21 : Op → RedisFailure
trim_at_21 op =
    if has_token (codes "21") op.paging_token
    then RedisFailure.trim_fails
    else RedisFailure.all_succeed

torn : (poll_records 0 no_fault trim_at_21 next_page behind).0 ≡ Ending.throws
unfolding poll_records process_payment
torn = refl

poll_records-tracks_example :
    Ends behind.poller
      (codes "19" ∷ [])
      trim_at_21
      next_page
      (poll_records 0 no_fault trim_at_21 next_page behind)
poll_records-tracks_example = poll_records-tracks 0 no_fault trim_at_21 next_page behind

-- A page that leaves few requests makes the loop sleep for ten seconds.
slows_down :
    (poll_once 1_000 7 no_fault no_failure (λ cursor. PageReply.page [] 5) behind).0 ≡ 10_000
unfolding poll_once has_lock renew_lock acquire_lock fetch_and_process poll_records current_interval
slows_down = refl

-- Another instance holds the lock.
waits :
    (poll_once 1_000 7 no_fault no_failure
      (λ cursor. PageReply.page_error 429)
      (record behind {
        store = record ahead_store { lock = some (record { holder = 8; expires_at = 2_000 }) };
      })).0
    ≡ 3_000
unfolding poll_once has_lock renew_lock acquire_lock current_interval
waits = refl
