-- ===== src/Webhook/Worker.antt =====
-- src/webhook/webhook-queue.service.ts: the scheduling of the worker. `tick` waits for Redis between
-- its reads, so it is cut into its first read, one step for each due job, and the loop that dispatches.
-- The step of a due job takes the queue twice, as each of its two commands finds it. What settles
-- between the two does not matter to the step: it reads the fields of the worker before the second
-- command only. Errors of Redis within a tick are left out.
pub mod Serial
pub mod Reached
pub mod Picked
pub mod Ended
use orbit_stream_backend.Common.{
  ℕ, zero, suc, ◌+◌, ◌-◌, ◌==◌, Bool, true, false, not, ◌||◌, ◌&&◌, List, [], ◌∷◌, ◌++◌, Option,
  none, some, if◌then◌else◌, ltb, leb, filter, any,
}
use orbit_stream_backend.Webhook.Job.{QueueJob}
use orbit_stream_backend.Webhook.Zsets.{Zsets}
use orbit_stream_backend.Webhook.Queue.{Queue, read_job}

-- A tick that has begun: how many jobs it may start, the due ids that it has not looked at, and the
-- jobs it may start.
pub record Scan : Type 0 where
  pub capacity : ℕ
  pub due_ids : List ℕ
  pub candidates : List QueueJob

-- `ticking` is on while `scan` is there, and `running` are the jobs whose `process` has not settled.
pub record Worker : Type 0 where
  pub max_concurrency : ℕ
  pub active : ℕ
  pub inflight_sessions : List ℕ
  pub processing : List ℕ
  pub running : List QueueJob
  pub scan : Option Scan

abbrev pub has : List ℕ → ℕ → Bool
has xs x = any (λ y. y == x) xs

abbrev pub without : List ℕ → ℕ → List ℕ
without xs x = filter (λ y. not (y == x)) xs

-- `job.sessionId && this.inflightSessions.has(job.sessionId)`
abbrev pub is_blocked : List ℕ → Option ℕ → Bool
is_blocked inflight none = false
is_blocked inflight (some sid) = has inflight sid

abbrev pub add_session : List ℕ → Option ℕ → List ℕ
add_session inflight none = inflight
add_session inflight (some sid) = sid ∷ inflight

abbrev pub delete_session : List ℕ → Option ℕ → List ℕ
delete_session inflight none = inflight
delete_session inflight (some sid) = without inflight sid

-- The comparison of `candidates.sort`: a strictly before b.
abbrev pub precedes : QueueJob → QueueJob → Bool
precedes a b =
    ltb a.priority b.priority
    || (a.priority == b.priority
        && (ltb a.sequence b.sequence
            || (a.sequence == b.sequence && ltb a.available_at b.available_at)))

-- `sort` is stable: of two jobs that tie, the earlier one stays first.
unfoldable pub insert : QueueJob → List QueueJob → List QueueJob
insert job [] = job ∷ []
insert job (k ∷ ks) = if precedes k job then k ∷ insert job ks else job ∷ k ∷ ks

unfoldable pub sort : List QueueJob → List QueueJob
sort [] = []
sort (job ∷ jobs) = insert job (sort jobs)

-- The body of the loop that dispatches: the job is marked, and `process` begins.
abbrev pub start : QueueJob → Worker → Worker
start job w = record w {
  active = suc w.active;
  inflight_sessions = add_session w.inflight_sessions job.session_id;
  processing = job.id ∷ w.processing;
  running = job ∷ w.running;
}

-- The loop, with the number of jobs that may still be started.
unfoldable pub dispatch : ℕ → List QueueJob → Worker → Worker
dispatch zero jobs w = w
dispatch (suc n) [] w = w
dispatch (suc n) (job ∷ jobs) w =
    let skip = dispatch (suc n) jobs w in
    let go = dispatch n jobs (start job w) in
    if is_blocked w.inflight_sessions job.session_id then skip else go

abbrev pub end_scan : Worker → Worker
end_scan w = record w { scan = none }

-- The end of `tick`, when every due id was looked at.
unfoldable pub dispatch_scan : Scan → Worker → Worker
unfolding dispatch
dispatch_scan s w = end_scan (dispatch s.capacity (sort s.candidates) w)

-- The `finally` of `process`.
unfoldable pub settle_job : QueueJob → List QueueJob → Worker → Worker
settle_job job rest w = record w {
  active = w.active - 1;
  inflight_sessions = delete_session w.inflight_sessions job.session_id;
  processing = without w.processing job.id;
  running = rest;
}

-- `head[0] === id`
abbrev pub is_id : Option ℕ → ℕ → Bool
is_id none id = false
is_id (some head) id = head == id

-- `this.ticking`
abbrev pub is_ticking : Option Scan → Bool
is_ticking none = false
is_ticking (some s) = true

abbrev pub new_scan : ℕ → List ℕ → Scan
new_scan capacity due_ids = record { capacity = capacity; due_ids = due_ids; candidates = [] }

module _ (redis : Zsets) where
  open redis use {zrem, zrangebyscore, zrange_head}

  -- A tick without due ids is over at once.
  abbrev pub scan_of : ℕ → List ℕ → Option Scan
  scan_of capacity [] = none
  scan_of capacity (id ∷ ids) = some (new_scan capacity (id ∷ ids))

  -- `tick` up to its first read.
  unfoldable pub begin_tick : ℕ → Queue redis → Worker → Worker
  begin_tick now q w =
      if is_ticking w.scan then w else if leb w.max_concurrency w.active then w else record w {
        scan = scan_of (w.max_concurrency - w.active) (zrangebyscore q.scheduled now);
      }

  -- `head[0] === job.id`, for a job of a session
  abbrev pub is_head : Queue redis → QueueJob → Option ℕ → Bool
  is_head q job none = true
  is_head q job (some sid) = is_id (zrange_head (q.sessions sid)) job.id

  -- Whether the job that was read becomes a candidate.
  abbrev pub may_run : Queue redis → Worker → QueueJob → Bool
  may_run q w job =
      not (is_blocked w.inflight_sessions job.session_id) && is_head q job job.session_id

  -- The body of the loop over the due ids, once the hash is read, with the queue as ZRANGE or ZREM
  -- finds it.
  unfoldable pub visit_job :
      ℕ → Option QueueJob → Queue redis → Worker → List QueueJob → List QueueJob × Queue redis
  visit_job id none q w candidates = (candidates, record q { scheduled = zrem q.scheduled id })
  visit_job id (some job) q w candidates =
      (if may_run q w job then candidates ++ job ∷ [] else candidates, q)

  -- The queue as HGETALL finds it, and as the next command does.
  unfoldable pub visit :
      ℕ → Queue redis → Queue redis → Worker → List QueueJob → List QueueJob × Queue redis
  unfolding visit_job
  visit id q q' w candidates =
      if has w.processing id
      then (candidates, q')
      else visit_job id (read_job redis id q) q' w candidates

  -- The rest of `tick`, one due id and then, at the end, the dispatch.
  abbrev pub tick_next : Queue redis → Queue redis → Worker → Scan → List ℕ → Worker × Queue redis
  tick_next q q' w s [] = (dispatch_scan s w, q')
  tick_next q q' w s (id ∷ ids) =
      let (candidates, q1) = visit id q q' w s.candidates in
      (
        record w {
          scan = some (record { capacity = s.capacity; due_ids = ids; candidates = candidates });
        },
        q1,
      )

  abbrev pub tick_scan : Queue redis → Queue redis → Worker → Option Scan → Worker × Queue redis
  tick_scan q q' w none = (w, q')
  tick_scan q q' w (some s) = tick_next q q' w s s.due_ids

  unfoldable pub tick_step : Queue redis → Queue redis → Worker → Worker × Queue redis
  unfolding visit dispatch_scan
  tick_step q q' w = tick_scan q q' w w.scan
