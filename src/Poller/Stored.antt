-- ===== src/Poller/Stored.antt =====
-- The stored cursor over one page of operations of src/payments/payment-detector.service.ts.
use orbit_stream_backend.Common.{
  ℕ, suc, ◌≡◌, refl, ap, ◌∙◌, inl, inr, false, List, [], ◌∷◌, All, Option, none, some, leb,
  Bool-cases,
}
use orbit_stream_backend.Common.Text.{Text, text_eq}
use orbit_stream_backend.Detector.{Op, Faults, Ending, process_payment}
use orbit_stream_backend.Cursor.{
  CursorStore, persist_every, update_cursor, append_checkpoint, may_swap,
}
use orbit_stream_backend.Poller.{
  RedisFailure, all_succeed, push_fails, trim_fails, expire_fails, swap_fails, try_checkpoint,
  is_swap_failure, flush, Poller, Polling, token_given, advance, unless_thrown, poll_records,
}

-- A predicate on the fields and the keys that each token preserves holds after the page.
module _ (P : Poller → CursorStore → Type 0) (redis : Op → RedisFailure) where
  -- The token of the operation preserves it.
  abbrev pub IsKept : Op → Type 0
  IsKept op =
      (p : Poller) (st : CursorStore)
      → P p st
      → P (advance (redis op) (token_given op.paging_token) p st).1.0
          (advance (redis op) (token_given op.paging_token) p st).1.1

  unless_thrown-keeps :
      (e : Ending) (s : Polling) (r : Ending × Polling)
      → P s.poller s.store
      → P r.1.poller r.1.store
      → P (unless_thrown e s r).1.poller (unless_thrown e s r).1.store
  unless_thrown-keeps Ending.returns s r h k = k
  unless_thrown-keeps Ending.throws s r h k = h

  kept :
      (now : ℕ) (faults : Op → Faults) (ops : List Op) (s : Polling)
      → All IsKept ops
      → P s.poller s.store
      → P
          (poll_records now faults redis ops s).1.poller
          (poll_records now faults redis ops s).1.store
  unfolding poll_records
  kept now faults [] s steps h = h
  kept now faults (op ∷ ops) s (step, steps) h =
      let (stored, (p, st)) = advance (redis op) (token_given op.paging_token) s.poller s.store in
      let (ending, world) = process_payment now (faults op) op s.world in
      let s1 : Polling = record { world = world; store = st; poller = p } in
      let k = step s.poller s.store h in
      unless_thrown-keeps ending (record s { world = world }) _ h
        (unless_thrown-keeps stored s1 _ k (kept now faults ops s1 steps k))

-- The token, if there is one, is not the given text.
abbrev pub OtherToken : Text → Option Text → Type 0
OtherToken c none = Unit
OtherToken c (some t) = text_eq c t ≡ false

-- The stored cursor is the text, and the cursor in memory is not.
abbrev pub IsBehind : Text → Poller → CursorStore → Type 0
IsBehind c p st = (st.cursor ≡ some c) × (text_eq c p.cursor ≡ false)

no_swap :
    (c expected next : Text) (st : CursorStore)
    → st.cursor ≡ some c
    → text_eq c expected ≡ false
    → (update_cursor expected next st).1.cursor ≡ some c
unfolding update_cursor
no_swap c expected next st e h = rw (ap (λ o. may_swap o expected) e ∙ h) e

-- The checkpoint leaves the stored cursor.
try_checkpoint-cursor :
    (failure : RedisFailure) (t : Text) (st : CursorStore)
    → (try_checkpoint failure t st).1.cursor ≡ st.cursor
unfolding append_checkpoint
try_checkpoint-cursor all_succeed t st = refl
try_checkpoint-cursor push_fails t st = refl
try_checkpoint-cursor trim_fails t st = refl
try_checkpoint-cursor expire_fails t st = refl
try_checkpoint-cursor swap_fails t st = refl

flush-IsBehind :
    (c prev : Text) (failure : RedisFailure) (p : Poller) (r : Ending × CursorStore)
    → text_eq c prev ≡ false
    → IsBehind c p r.1
    → IsBehind c (flush failure prev p r).1.0 (flush failure prev p r).1.1
flush-IsBehind c prev failure p (Ending.throws, st) h b = b
flush-IsBehind c prev failure p (Ending.returns, st) h (e, b) =
    elim (Bool-cases (leb persist_every p.ops_since_flush)) [
      | inl f ↦ elim (Bool-cases (is_swap_failure failure)) [
        | inl g ↦ rw (f, g) (e, b)
        | inr g ↦ rw (f, g) (no_swap c prev p.cursor st e h, b)
      ]
      | inr f ↦ rw f (e, b)
    ]

advance-IsBehind :
    (c : Text) (failure : RedisFailure) (o : Option Text) (p : Poller) (st : CursorStore)
    → OtherToken c o
    → IsBehind c p st
    → IsBehind c (advance failure o p st).1.0 (advance failure o p st).1.1
unfolding advance
advance-IsBehind c failure none p st h b = b
advance-IsBehind c failure (some t) p st h (e, b) =
    flush-IsBehind c p.cursor failure
      (record p { cursor = t; ops_since_flush = suc p.ops_since_flush })
      (try_checkpoint failure t st) b (try_checkpoint-cursor failure t st ∙ e, h)

All-steps :
    (c : Text) (redis : Op → RedisFailure) (ops : List Op)
    → All (λ op. OtherToken c (token_given op.paging_token)) ops
    → All (IsKept (IsBehind c) redis) ops
All-steps c redis [] h = tt
All-steps c redis (op ∷ ops) (k, h) = (
  (λ p st b. advance-IsBehind c (redis op) (token_given op.paging_token) p st k b),
  All-steps c redis ops h,
)

-- Once the cursor in memory has moved on from the stored cursor, no page moves the stored cursor, as
-- long as no operation of the page has the stored cursor as its token: each flush expects the token
-- just before its own, not the one that is stored. The same then holds before the next page.
pub poll_records-stalls :
    (now : ℕ) (faults : Op → Faults) (redis : Op → RedisFailure) (ops : List Op) (s : Polling)
    (c : Text)
    → All (λ op. OtherToken c (token_given op.paging_token)) ops
    → IsBehind c s.poller s.store
    → IsBehind c
        (poll_records now faults redis ops s).1.poller
        (poll_records now faults redis ops s).1.store
poll_records-stalls now faults redis ops s c h b =
    kept (IsBehind c) redis now faults ops s (All-steps c redis ops h) b
