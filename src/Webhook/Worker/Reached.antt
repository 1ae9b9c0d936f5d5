-- ===== src/Webhook/Worker/Reached.antt =====
-- The states of the worker of src/webhook/webhook-queue.service.ts, whatever Redis answers and in
-- whatever order its jobs settle.
use orbit_stream_backend.Common.{
  ℕ, suc, ◌-◌, ◌==◌, ◌≡◌, refl, inl, inr, true, false, List, [], ◌∷◌, All, length, Option, none,
  some, leb, arith, Bool-cases,
}
use orbit_stream_backend.Webhook.Job.{QueueJob}
use orbit_stream_backend.Webhook.Zsets.{Zsets}
use orbit_stream_backend.Webhook.Queue.{Queue}
use orbit_stream_backend.Webhook.Worker.{
  Scan, Worker, has, without, delete_session, sort, dispatch_scan, settle_job, begin_tick,
  is_ticking, scan_of, tick_next, tick_scan, tick_step,
}
use orbit_stream_backend.Webhook.Worker.Serial.{
  IsSerial, InFlight, Apart, SessionsDiffer, FitsScan, dispatch_keeps,
}

-- A list, one of its jobs, and the others.
pub data Taken : List QueueJob → QueueJob → List QueueJob → Type 0 where
  first : (job : QueueJob) (jobs : List QueueJob) → Taken (job ∷ jobs) job jobs
  later :
      (k job : QueueJob) (jobs rest : List QueueJob)
      → Taken jobs job rest
      → Taken (k ∷ jobs) job (k ∷ rest)

Taken-length :
    (jobs rest : List QueueJob) (job : QueueJob)
    → Taken jobs job rest
    → length jobs ≡ suc (length rest)
Taken-length _ _ _ (Taken.first job jobs) = refl
Taken-length _ _ _ (Taken.later k job jobs rest t) = omega (arith, Taken-length jobs rest job t)

Taken-All :
    (P : QueueJob → Type 0) (jobs rest : List QueueJob) (job : QueueJob)
    → Taken jobs job rest
    → All P jobs
    → P job × All P rest
Taken-All P _ _ _ (Taken.first job jobs) (p, h) = (p, h)
Taken-All P _ _ _ (Taken.later k job jobs rest t) (p, h) =
    let (q, r) = Taken-All P jobs rest job t h in (q, (p, r))

Apart-sym : (s t : Option ℕ) → Apart s t → Apart t s
Apart-sym none none h = tt
Apart-sym none (some b) h = tt
Apart-sym (some a) none h = tt
Apart-sym (some a) (some b) h = ground (arith, h)

Taken-differ :
    (jobs rest : List QueueJob) (job : QueueJob)
    → Taken jobs job rest
    → SessionsDiffer jobs
    → All (λ k. Apart job.session_id k.session_id) rest × SessionsDiffer rest
Taken-differ _ _ _ (Taken.first job jobs) h = h
Taken-differ _ _ _ (Taken.later k job jobs rest t) (p, h) =
    let (apart, differ) = Taken-differ jobs rest job t h in
    let (q, r) = Taken-All (λ j. Apart k.session_id j.session_id) jobs rest job t p in
    ((Apart-sym k.session_id job.session_id q, apart), (r, differ))

without_keeps :
    (xs : List ℕ) (a b : ℕ) → (a == b) ≡ false → has xs b ≡ true → has (without xs a) b ≡ true
without_keeps [] a b h k = k
without_keeps (x ∷ xs) a b h k = ground (arith, without_keeps xs a b h, h, k)

delete_keeps :
    (inflight : List ℕ) (s t : Option ℕ)
    → Apart s t
    → InFlight inflight t
    → InFlight (delete_session inflight s) t
delete_keeps inflight none t h k = k
delete_keeps inflight (some a) none h k = tt
delete_keeps inflight (some a) (some b) h k = without_keeps inflight a b h k

delete-All :
    (inflight : List ℕ) (s : Option ℕ) (js : List QueueJob)
    → All (λ k. Apart s k.session_id) js
    → All (λ j. InFlight inflight j.session_id) js
    → All (λ j. InFlight (delete_session inflight s) j.session_id) js
delete-All inflight s [] h k = tt
delete-All inflight s (j ∷ js) (a, h) (p, k) =
    (delete_keeps inflight s j.session_id a p, delete-All inflight s js h k)

fewer :
    (active top : ℕ) (scan : Option Scan)
    → FitsScan active top scan
    → FitsScan (active - 1) top scan
fewer active top none h = tt
fewer active top (some s) h = omega (arith, h)

settle_job_keeps :
    (job : QueueJob) (rest : List QueueJob) (w : Worker)
    → Taken w.running job rest
    → IsSerial w
    → IsSerial (settle_job job rest w)
unfolding settle_job
settle_job_keeps job rest w t (count, fits, cover, differ, scan) =
    let (apart, differ') = Taken-differ w.running rest job t differ in
    let (_, cover') =
      Taken-All (λ j. InFlight w.inflight_sessions j.session_id) w.running rest job t cover in
    (
      omega (arith, count, Taken-length w.running rest job t),
      omega (arith, fits),
      delete-All w.inflight_sessions job.session_id rest apart cover',
      differ',
      fewer w.active w.max_concurrency w.scan scan,
    )

dispatch_scan_keeps :
    (s : Scan) (w : Worker)
    → FitsScan w.active w.max_concurrency (some s)
    → IsSerial w
    → IsSerial (dispatch_scan s w)
unfolding dispatch_scan
dispatch_scan_keeps s w fits (count, _, cover, differ, _) =
    let (count', fits', cover', differ') =
      dispatch_keeps s.capacity (sort s.candidates) w (count, fits, cover, differ) in
    (count', omega (arith, fits'), cover', differ', tt)

module _ (redis : Zsets) where
  scan_fits :
      (active top : ℕ) (ids : List ℕ)
      → leb top active ≡ false
      → FitsScan active top (scan_of redis (top - active) ids)
  scan_fits active top [] c = tt
  scan_fits active top (id ∷ ids) c = ground (arith, c)

  begin_keeps :
      (now : ℕ) (q : Queue redis) (w : Worker) → IsSerial w → IsSerial (begin_tick redis now q w)
  unfolding begin_tick
  begin_keeps now q w h = elim (Bool-cases (is_ticking w.scan)) [
    | inl b ↦ rw b h
    | inr b ↦ elim (Bool-cases (leb w.max_concurrency w.active)) [
      | inl c ↦ rw (b, c) h
      | inr c ↦
          rw (b, c)
            (
              h.0,
              h.1,
              h.2,
              h.3,
              scan_fits w.active w.max_concurrency (redis.zrangebyscore q.scheduled now) c,
            )
    ]
  ]

  next_keeps :
      (q q' : Queue redis) (w : Worker) (s : Scan) (ids : List ℕ)
      → FitsScan w.active w.max_concurrency (some s)
      → IsSerial w
      → IsSerial (tick_next redis q q' w s ids).0
  next_keeps q q' w s [] fits h = dispatch_scan_keeps s w fits h
  next_keeps q q' w s (id ∷ ids) fits h = (h.0, h.1, h.2, h.3, fits)

  scan_keeps :
      (q q' : Queue redis) (w : Worker) (o : Option Scan)
      → FitsScan w.active w.max_concurrency o
      → IsSerial w
      → IsSerial (tick_scan redis q q' w o).0
  scan_keeps q q' w none fits h = h
  scan_keeps q q' w (some s) fits h = next_keeps q q' w s s.due_ids fits h

  -- A step of the worker. Redis is in any state at each step, and any running job may settle.
  pub data Step : Worker → Worker → Type 0 where
    begins : (now : ℕ) (q : Queue redis) (w : Worker) → Step w (begin_tick redis now q w)
    goes_on : (q q' : Queue redis) (w : Worker) → Step w (tick_step redis q q' w).0
    settles :
        (job : QueueJob) (rest : List QueueJob) (w : Worker)
        → Taken w.running job rest
        → Step w (settle_job job rest w)

  pub data Steps : Worker → Worker → Type 0 where
    done : (w : Worker) → Steps w w
    more : (w w' w'' : Worker) → Step w w' → Steps w' w'' → Steps w w''

  Step-IsSerial : (w w' : Worker) → Step w w' → IsSerial w → IsSerial w'
  unfolding tick_step
  Step-IsSerial _ _ (Step.begins now q w) h = begin_keeps now q w h
  Step-IsSerial _ _ (Step.goes_on q q' w) h = scan_keeps q q' w w.scan h.4 h
  Step-IsSerial _ _ (Step.settles job rest w t) h = settle_job_keeps job rest w t h

  -- Whatever Redis holds at each read, and in whatever order the jobs settle, from a serial state on
  -- at most `max_concurrency` jobs run at a time, no two of them of one session, each session of a
  -- running job is marked as in flight, and `active` counts the running jobs.
  pub steps-IsSerial : (w w' : Worker) → Steps w w' → IsSerial w → IsSerial w'
  steps-IsSerial _ _ (Steps.done w) h = h
  steps-IsSerial _ _ (Steps.more w w1 w2 s rest) h =
      steps-IsSerial w1 w2 rest (Step-IsSerial w w1 s h)
