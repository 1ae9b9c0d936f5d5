-- ===== src/Poller/Tracked.antt =====
-- The cursor in memory and the checkpoints, over one page of operations of
-- src/payments/payment-detector.service.ts.
use orbit_stream_backend.Common.{
  ℕ, sym, ◌≢◌, ◌≤◌, ◌<◌, ◌≡◌, ◌⊎◌, refl, ap, ◌∙◌, inl, inr, List, [], ◌∷◌, Option, none, some, leb,
  length, length-take, take, head?, arith, Bool-cases,
}
use orbit_stream_backend.Common.Text.{Text}
use orbit_stream_backend.Detector.{Op, Faults, Ending, process_payment}
use orbit_stream_backend.Cursor.{
  CursorStore, checkpoint_max, persist_every, update_cursor, append_checkpoint, may_swap,
}
use orbit_stream_backend.Poller.{
  RedisFailure, all_succeed, push_fails, trim_fails, expire_fails, swap_fails, is_swap_failure,
  flush, Poller, Polling, token_given, advance, unless_thrown, poll_records,
}

-- What a page has left of the fields and the checkpoints: fewer than ten operations wait for a flush, at
-- most fifty checkpoints are kept, and the latest of them is the cursor in memory; or nothing has
-- changed since the given values.
abbrev pub IsTracked : Poller → List Text → Poller → List Text → Type 0
IsTracked p0 checkpoints0 p checkpoints =
    ((p.ops_since_flush < 10) × (length checkpoints ≤ 50) × (head? checkpoints ≡ some p.cursor))
    ⊎ ((p.ops_since_flush ≡ p0.ops_since_flush)
        × (p.cursor ≡ p0.cursor)
        × (checkpoints ≡ checkpoints0))

-- A command of Redis has failed: the cursor in memory has moved to the token, and the latest checkpoint
-- is the token, unless the command was the one that adds it.
abbrev pub IsTorn : RedisFailure → Text → Poller → List Text → Type 0
IsTorn failure token p checkpoints =
    (failure ≢ all_succeed)
    × (p.cursor ≡ token)
    × ((head? checkpoints ≡ some token) ⊎ (failure ≡ push_fails))

-- The page has ended at one of the operations, with a failure of Redis there.
abbrev pub EndsTorn : (Op → RedisFailure) → List Op → Ending → Poller → List Text → Type 0
EndsTorn redis [] ending p checkpoints = ⊥
EndsTorn redis (op ∷ ops) ending p checkpoints =
    ((ending ≡ Ending.throws)
      × ((token : Text) × (token_given op.paging_token ≡ some token)
          × IsTorn (redis op) token p checkpoints))
    ⊎ EndsTorn redis ops ending p checkpoints

-- What one operation does: it returns with the fields tracked, or throws with the keys torn.
abbrev pub IsAdvanced :
    Poller → List Text → RedisFailure → Option Text → Ending × (Poller × CursorStore) → Type 0
IsAdvanced p0 checkpoints0 failure o (Ending.returns, (p, st)) =
    IsTracked p0 checkpoints0 p st.checkpoints
IsAdvanced p0 checkpoints0 failure none (Ending.throws, (p, st)) = ⊥
IsAdvanced p0 checkpoints0 failure (some token) (Ending.throws, (p, st)) =
    IsTorn failure token p st.checkpoints

swap_keeps :
    (expected next : Text) (st : CursorStore)
    → (update_cursor expected next st).1.checkpoints ≡ st.checkpoints
unfolding update_cursor
swap_keeps expected next st = elim (Bool-cases (may_swap st.cursor expected)) [
  | inl b ↦ rw b refl
  | inr b ↦ rw b refl
]

appended : (t : Text) (ts : List Text) → length (take checkpoint_max (t ∷ ts)) ≤ 50
appended t ts = omega (arith, length-take checkpoint_max (t ∷ ts))

flush-IsAdvanced :
    (p0 : Poller) (checkpoints0 : List Text) (failure : RedisFailure) (prev t : Text) (p : Poller)
    (st : CursorStore)
    → p.cursor ≡ t
    → length st.checkpoints ≤ 50
    → head? st.checkpoints ≡ some t
    → IsAdvanced p0 checkpoints0 failure (some t) (flush failure prev p (Ending.returns, st))
flush-IsAdvanced p0 checkpoints0 failure prev t p st e short latest =
    elim (Bool-cases (leb persist_every p.ops_since_flush)) [
      | inl f ↦ elim (Bool-cases (is_swap_failure failure)) [
        | inl g ↦ rw (f, g) ((λ k. absurd (ground (arith, g, k))), e, inl latest)
        | inr g ↦
            rw (f, g, swap_keeps prev p.cursor st)
              (inl (omega arith, short, latest ∙ ap some (sym e)))
      ]
      | inr f ↦ rw f (inl (ground (arith, f), short, latest ∙ ap some (sym e)))
    ]

advance-IsAdvanced :
    (p0 : Poller) (checkpoints0 : List Text) (failure : RedisFailure) (o : Option Text) (p : Poller)
    (st : CursorStore)
    → IsTracked p0 checkpoints0 p st.checkpoints
    → IsAdvanced p0 checkpoints0 failure o (advance failure o p st)
unfolding advance append_checkpoint
advance-IsAdvanced p0 checkpoints0 failure none p st h = h
advance-IsAdvanced p0 checkpoints0 push_fails (some t) p st h =
    ((λ e. absurd (ground (arith, e))), refl, inr refl)
advance-IsAdvanced p0 checkpoints0 trim_fails (some t) p st h =
    ((λ e. absurd (ground (arith, e))), refl, inl refl)
advance-IsAdvanced p0 checkpoints0 expire_fails (some t) p st h =
    ((λ e. absurd (ground (arith, e))), refl, inl refl)
advance-IsAdvanced p0 checkpoints0 all_succeed (some t) p st h =
    flush-IsAdvanced p0 checkpoints0 all_succeed p.cursor t _ (append_checkpoint t st) refl
      (appended t st.checkpoints) refl
advance-IsAdvanced p0 checkpoints0 swap_fails (some t) p st h =
    flush-IsAdvanced p0 checkpoints0 swap_fails p.cursor t _ (append_checkpoint t st) refl
      (appended t st.checkpoints) refl

-- One of the two.
abbrev pub Ends : Poller → List Text → (Op → RedisFailure) → List Op → Ending × Polling → Type 0
Ends p0 checkpoints0 redis ops (ending, s) =
    IsTracked p0 checkpoints0 s.poller s.store.checkpoints
    ⊎ EndsTorn redis ops ending s.poller s.store.checkpoints

widen :
    (p0 : Poller) (checkpoints0 : List Text) (redis : Op → RedisFailure) (op : Op) (ops : List Op)
    (r : Ending × Polling)
    → Ends p0 checkpoints0 redis ops r
    → Ends p0 checkpoints0 redis (op ∷ ops) r
widen p0 checkpoints0 redis op ops (ending, s) (inl h) = inl h
widen p0 checkpoints0 redis op ops (ending, s) (inr h) = inr (inr h)

-- The rest of the page is only run if the operation returns.
after_advance :
    (p0 : Poller) (checkpoints0 : List Text) (redis : Op → RedisFailure) (op : Op) (ops : List Op)
    (o : Option Text) (stored : Ending) (s1 : Polling) (rest : Ending × Polling)
    → token_given op.paging_token ≡ o
    → IsAdvanced p0 checkpoints0 (redis op) o (stored, (s1.poller, s1.store))
    → (IsTracked p0 checkpoints0 s1.poller s1.store.checkpoints
        → Ends p0 checkpoints0 redis ops rest)
    → Ends p0 checkpoints0 redis (op ∷ ops) (unless_thrown stored s1 rest)
after_advance p0 checkpoints0 redis op ops o Ending.returns s1 rest e h k =
    widen p0 checkpoints0 redis op ops rest (k h)
after_advance p0 checkpoints0 redis op ops none Ending.throws s1 rest e h k = absurd h
after_advance p0 checkpoints0 redis op ops (some token) Ending.throws s1 rest e h k =
    inr (inl (refl, (token, e, h)))

unless_process_throws :
    (p0 : Poller) (checkpoints0 : List Text) (redis : Op → RedisFailure) (ops : List Op)
    (ending : Ending) (s : Polling) (rest : Ending × Polling)
    → IsTracked p0 checkpoints0 s.poller s.store.checkpoints
    → Ends p0 checkpoints0 redis ops rest
    → Ends p0 checkpoints0 redis ops (unless_thrown ending s rest)
unless_process_throws p0 checkpoints0 redis ops Ending.returns s rest h k = k
unless_process_throws p0 checkpoints0 redis ops Ending.throws s rest h k = inl h

page-Ends :
    (p0 : Poller) (checkpoints0 : List Text) (now : ℕ) (faults : Op → Faults)
    (redis : Op → RedisFailure) (ops : List Op) (s : Polling)
    → IsTracked p0 checkpoints0 s.poller s.store.checkpoints
    → Ends p0 checkpoints0 redis ops (poll_records now faults redis ops s)
unfolding poll_records
page-Ends p0 checkpoints0 now faults redis [] s h = inl h
page-Ends p0 checkpoints0 now faults redis (op ∷ ops) s h =
    let o = token_given op.paging_token in
    let (stored, (p, st)) = advance (redis op) o s.poller s.store in
    let (ending, world) = process_payment now (faults op) op s.world in
    let s1 : Polling = record { world = world; store = st; poller = p } in
    let rest = poll_records now faults redis ops s1 in
    unless_process_throws p0 checkpoints0 redis (op ∷ ops) ending (record s { world = world })
      (unless_thrown stored s1 rest) h
      (after_advance p0 checkpoints0 redis op ops o stored s1 rest refl
        (advance-IsAdvanced p0 checkpoints0 (redis op) o s.poller s.store h)
        (page-Ends p0 checkpoints0 now faults redis ops s1))

-- However a page ends, it has moved neither the cursor in memory nor the checkpoints nor the count of
-- operations, or fewer than ten operations wait for a flush, at most fifty checkpoints are kept and the
-- latest one is the cursor; unless a command of Redis failed at an operation of the page. Then the page
-- ends there with the cursor at the token of this operation, and the latest checkpoint is that token
-- too, unless the command was the one that adds it.
pub poll_records-tracks :
    (now : ℕ) (faults : Op → Faults) (redis : Op → RedisFailure) (ops : List Op) (s : Polling)
    → Ends s.poller s.store.checkpoints redis ops (poll_records now faults redis ops s)
poll_records-tracks now faults redis ops s =
    page-Ends s.poller s.store.checkpoints now faults redis ops s (inr (refl, refl, refl))
