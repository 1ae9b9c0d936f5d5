-- ===== src/Webhook/Worker/Serial.antt =====
-- What holds of the worker of src/webhook/webhook-queue.service.ts at all times.
use orbit_stream_backend.Common.{
  ℕ, zero, suc, ◌+◌, ◌≤◌, ◌==◌, ◌≡◌, inl, inr, true, false, List, [], ◌∷◌, All, length, Option,
  none, some, arith, Bool-cases,
}
use orbit_stream_backend.Webhook.Job.{QueueJob}
use orbit_stream_backend.Webhook.Worker.{
  Scan, Worker, has, is_blocked, add_session, start, dispatch,
}

-- The session of a running job is marked as in flight.
abbrev pub InFlight : List ℕ → Option ℕ → Type 0
InFlight inflight none = Unit
InFlight inflight (some sid) = has inflight sid ≡ true

abbrev pub Apart : Option ℕ → Option ℕ → Type 0
Apart (some a) (some b) = (a == b) ≡ false
Apart _ _ = Unit

-- No two jobs are of one session.
abbrev pub SessionsDiffer : List QueueJob → Type 0
SessionsDiffer [] = Unit
SessionsDiffer (j ∷ js) = All (λ k. Apart j.session_id k.session_id) js × SessionsDiffer js

abbrev pub FitsScan : ℕ → ℕ → Option Scan → Type 0
FitsScan active top none = Unit
FitsScan active top (some s) = active + s.capacity ≤ top

-- The jobs that run are counted, are at most `max_concurrency`, and are of different sessions, each
-- marked as in flight; a tick that has begun may still start as many jobs as its capacity says.
abbrev pub IsSerial : Worker → Type 0
IsSerial w =
    (w.active ≡ length w.running)
    × (w.active ≤ w.max_concurrency)
    × All (λ j. InFlight w.inflight_sessions j.session_id) w.running
    × SessionsDiffer w.running
    × FitsScan w.active w.max_concurrency w.scan

add_keeps :
    (inflight : List ℕ) (s t : Option ℕ) → InFlight inflight t → InFlight (add_session inflight s) t
add_keeps inflight none t h = h
add_keeps inflight (some a) none h = tt
add_keeps inflight (some a) (some b) h = ground (arith, h)

adds : (inflight : List ℕ) (s : Option ℕ) → InFlight (add_session inflight s) s
adds inflight none = tt
adds inflight (some a) = ground arith

-- A session that is not in flight differs from one that is.
apart_of :
    (inflight : List ℕ) (a b : ℕ)
    → has inflight a ≡ false
    → has inflight b ≡ true
    → (a == b) ≡ false
apart_of [] a b h k = absurd (ground (arith, k))
apart_of (x ∷ xs) a b h k = ground (arith, apart_of xs a b, h, k)

unblocked-Apart :
    (inflight : List ℕ) (s t : Option ℕ)
    → is_blocked inflight s ≡ false
    → InFlight inflight t
    → Apart s t
unblocked-Apart inflight none t h k = tt
unblocked-Apart inflight (some a) none h k = tt
unblocked-Apart inflight (some a) (some b) h k = apart_of inflight a b h k

All-Apart :
    (inflight : List ℕ) (s : Option ℕ) (js : List QueueJob)
    → is_blocked inflight s ≡ false
    → All (λ j. InFlight inflight j.session_id) js
    → All (λ k. Apart s k.session_id) js
All-Apart inflight s [] h k = tt
All-Apart inflight s (j ∷ js) h (p, k) =
    (unblocked-Apart inflight s j.session_id h p, All-Apart inflight s js h k)

All-keep :
    (inflight : List ℕ) (s : Option ℕ) (js : List QueueJob)
    → All (λ j. InFlight inflight j.session_id) js
    → All (λ j. InFlight (add_session inflight s) j.session_id) js
All-keep inflight s [] k = tt
All-keep inflight s (j ∷ js) (p, k) =
    (add_keeps inflight s j.session_id p, All-keep inflight s js k)

-- What holds while jobs are started, with the number that may still be.
abbrev pub Dispatching : ℕ → Worker → Type 0
Dispatching n w =
    (w.active ≡ length w.running)
    × (w.active + n ≤ w.max_concurrency)
    × All (λ j. InFlight w.inflight_sessions j.session_id) w.running
    × SessionsDiffer w.running

start_keeps :
    (n : ℕ) (job : QueueJob) (w : Worker)
    → is_blocked w.inflight_sessions job.session_id ≡ false
    → Dispatching (suc n) w
    → Dispatching n (start job w)
start_keeps n job w free (count, fits, cover, differ) = (
  omega (arith, count),
  omega (arith, fits),
  (
    adds w.inflight_sessions job.session_id,
    All-keep w.inflight_sessions job.session_id w.running cover,
  ),
  (All-Apart w.inflight_sessions job.session_id w.running free cover, differ),
)

pub dispatch_keeps :
    (n : ℕ) (jobs : List QueueJob) (w : Worker)
    → Dispatching n w
    → Dispatching 0 (dispatch n jobs w)
unfolding dispatch
dispatch_keeps zero jobs w h = h
dispatch_keeps (suc n) [] w (count, fits, cover, differ) =
    (count, omega (arith, fits), cover, differ)
dispatch_keeps (suc n) (job ∷ jobs) w h =
    elim (Bool-cases (is_blocked w.inflight_sessions job.session_id)) [
      | inl b ↦ rw b (dispatch_keeps (suc n) jobs w h)
      | inr b ↦ rw b (dispatch_keeps n jobs (start job w) (start_keeps n job w b h))
    ]
