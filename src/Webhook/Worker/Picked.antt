-- ===== src/Webhook/Worker/Picked.antt =====
-- Which jobs a tick of src/webhook/webhook-queue.service.ts picks, and in which order.
use orbit_stream_backend.Common.{
  ℕ, zero, suc, ◌+◌, ◌≤◌, ==_iff, ◌≡◌, ◌⊎◌, refl, sym, subst, ap, ◌∙◌, inl, inr, Bool, true, false,
  not, ◌&&◌, List, [], ◌∷◌, ◌++◌, All, count_if, Option, none, some, arith, Bool-cases,
}
use orbit_stream_backend.Webhook.Job.{QueueJob}
use orbit_stream_backend.Webhook.Zsets.{Zsets}
use orbit_stream_backend.Webhook.Queue.{Queue}
use orbit_stream_backend.Webhook.Worker.{
  Worker, has, is_blocked, add_session, precedes, insert, sort, start, dispatch, is_head, is_id,
  may_run, visit, visit_job,
}

-- No job of the list precedes one that stands before it.
abbrev pub IsInOrder : List QueueJob → Type 0
IsInOrder [] = Unit
IsInOrder (j ∷ js) = All (λ k. precedes k j ≡ false) js × IsInOrder js

precedes_asym : (j k : QueueJob) → precedes k j ≡ true → precedes j k ≡ false
precedes_asym j k h = ground (arith, h)

precedes_trans :
    (j k l : QueueJob) → precedes k j ≡ false → precedes l k ≡ false → precedes l j ≡ false
precedes_trans j k l h h' = ground (arith, h, h')

All-trans :
    (j k : QueueJob) (ks : List QueueJob)
    → precedes k j ≡ false
    → All (λ l. precedes l k ≡ false) ks
    → All (λ l. precedes l j ≡ false) ks
All-trans j k [] h r = tt
All-trans j k (l ∷ ks) h (p, r) = (precedes_trans j k l h p, All-trans j k ks h r)

insert-All :
    (P : QueueJob → Type 0) (j : QueueJob) (ks : List QueueJob)
    → P j
    → All P ks
    → All P (insert j ks)
unfolding insert
insert-All P j [] p h = (p, tt)
insert-All P j (k ∷ ks) p (q, h) = elim (Bool-cases (precedes k j)) [
  | inl b ↦ rw b (q, insert-All P j ks p h)
  | inr b ↦ rw b (p, (q, h))
]

insert_ordered : (j : QueueJob) (ks : List QueueJob) → IsInOrder ks → IsInOrder (insert j ks)
unfolding insert
insert_ordered j [] h = (tt, tt)
insert_ordered j (k ∷ ks) (p, h) = elim (Bool-cases (precedes k j)) [
  | inl b ↦
      rw b
        (insert-All (λ l. precedes l k ≡ false) j ks (precedes_asym j k b) p, insert_ordered j ks h)
  | inr b ↦ rw b ((b, All-trans j k ks b p), (p, h))
]

insert_counts :
    (p : QueueJob → Bool) (j : QueueJob) (ks : List QueueJob)
    → count_if p (insert j ks) ≡ count_if p (j ∷ ks)
unfolding insert
insert_counts p j [] = refl
insert_counts p j (k ∷ ks) = elim (Bool-cases (precedes k j)) [
  | inl b ↦ rw b (ground (arith, insert_counts p j ks))
  | inr b ↦ rw b refl
]

-- The candidates are put in the order of priority, then of sequence, then of the time they became due,
-- and every job occurs as often as before.
pub sort-IsInOrder :
    (jobs : List QueueJob)
    → IsInOrder (sort jobs) × ((p : QueueJob → Bool) → count_if p (sort jobs) ≡ count_if p jobs)
unfolding sort
sort-IsInOrder [] = (tt, λ p. refl)
sort-IsInOrder (j ∷ js) =
    let (ordered, counts) = sort-IsInOrder js in
    (
      insert_ordered j (sort js) ordered,
      λ p. insert_counts p j (sort js) ∙ ground (arith, counts p),
    )

-- The job occurs in the list.
abbrev pub Occurs : QueueJob → List QueueJob → Type 0
Occurs job [] = ⊥
Occurs job (k ∷ ks) = (job ≡ k) ⊎ Occurs job ks

-- A candidate is served, its session is taken, or the limit is reached.
abbrev pub Settled : Worker → ℕ → QueueJob → Type 0
Settled w limit job =
    Occurs job w.running
    ⊎ ((is_blocked w.inflight_sessions job.session_id ≡ true) ⊎ (w.active ≡ limit))

add_blocks :
    (inflight : List ℕ) (s t : Option ℕ)
    → is_blocked inflight t ≡ true
    → is_blocked (add_session inflight s) t ≡ true
add_blocks inflight none t h = h
add_blocks inflight (some a) none h = h
add_blocks inflight (some a) (some b) h = ground (arith, h)

-- What is running, and what is blocked, stays so while jobs are started.
dispatch_grows :
    (n : ℕ) (jobs : List QueueJob) (w : Worker) (job : QueueJob)
    → (Occurs job w.running → Occurs job (dispatch n jobs w).running)
      × (is_blocked w.inflight_sessions job.session_id ≡ true
          → is_blocked (dispatch n jobs w).inflight_sessions job.session_id ≡ true)
unfolding dispatch
dispatch_grows zero jobs w job = (λ h. h, λ h. h)
dispatch_grows (suc n) [] w job = (λ h. h, λ h. h)
dispatch_grows (suc n) (j ∷ jobs) w job =
    elim (Bool-cases (is_blocked w.inflight_sessions j.session_id)) [
      | inl b ↦ rw b (dispatch_grows (suc n) jobs w job)
      | inr b ↦
          let (runs, blocks) = dispatch_grows n jobs (start j w) job in
          rw b (
            λ h. runs (inr h),
            λ h. blocks (add_blocks w.inflight_sessions j.session_id job.session_id h),
          )
    ]

stopped : (jobs : List QueueJob) (w : Worker) → (dispatch 0 jobs w).active ≡ w.active + 0
unfolding dispatch
stopped jobs w = omega arith

dispatch_skip :
    (n : ℕ) (job : QueueJob) (jobs : List QueueJob) (w : Worker)
    → is_blocked w.inflight_sessions job.session_id ≡ true
    → dispatch (suc n) (job ∷ jobs) w ≡ dispatch (suc n) jobs w
unfolding dispatch
dispatch_skip n job jobs w b = rw b refl

dispatch-start :
    (n : ℕ) (job : QueueJob) (jobs : List QueueJob) (w : Worker)
    → is_blocked w.inflight_sessions job.session_id ≡ false
    → dispatch (suc n) (job ∷ jobs) w ≡ dispatch n jobs (start job w)
unfolding dispatch
dispatch-start n job jobs w b = rw b refl

-- The loop does nothing when no job may be started.
full :
    (jobs all : List QueueJob) (w : Worker) → All (Settled (dispatch 0 all w) (w.active + 0)) jobs
full [] all w = tt
full (job ∷ jobs) all w = (inr (inr (stopped all w)), full jobs all w)

-- Every candidate that the loop leaves out either belongs to a session that has a job in flight, or
-- the number of active jobs has reached its limit.
pub dispatch-serves :
    (n : ℕ) (jobs : List QueueJob) (w : Worker)
    → All (Settled (dispatch n jobs w) (w.active + n)) jobs
dispatch-serves n [] w = tt
dispatch-serves zero (job ∷ jobs) w = full (job ∷ jobs) (job ∷ jobs) w
dispatch-serves (suc n) (job ∷ jobs) w =
    let Goal : Worker → Type 0 = λ v. All (Settled v (w.active + suc n)) (job ∷ jobs) in
    elim (Bool-cases (is_blocked w.inflight_sessions job.session_id)) [
      | inl b ↦
          subst Goal (sym (dispatch_skip n job jobs w b))
            (inr (inl ((dispatch_grows (suc n) jobs w job).1 b)), dispatch-serves (suc n) jobs w)
      | inr b ↦
          let limit : w.active + suc n ≡ suc w.active + n = omega arith in
          subst Goal (sym (dispatch-start n job jobs w b)) (
            inl ((dispatch_grows n jobs (start job w) job).0 (inl refl)),
            subst (λ l. All (Settled (dispatch n jobs (start job w)) l) jobs) (sym limit)
                (dispatch-serves n jobs (start job w)),
          )
    ]

is_id-some : (o : Option ℕ) (id : ℕ) → is_id o id ≡ true → o ≡ some id
is_id-some none id h = absurd (ground (arith, h))
is_id-some (some head) id h = ap some ((==_iff head id).0 h)

may_run_parts :
    (blocked head : Bool) → not blocked && head ≡ true → (blocked ≡ false) × (head ≡ true)
may_run_parts true head h = absurd (ground (arith, h))
may_run_parts false head h = (refl, h)

module _ (redis : Zsets) where
  -- The job is the first one of its session, which has no job in flight.
  abbrev pub IsFirst : Queue redis → Worker → Option ℕ → QueueJob → Type 0
  IsFirst q w none job = Unit
  IsFirst q w (some sid) job =
      (is_blocked w.inflight_sessions (some sid) ≡ false)
      × ((s : ℕ) × (redis.zscore (q.sessions sid) job.id ≡ some s)
          × ((id t : ℕ) → redis.zscore (q.sessions sid) id ≡ some t → s ≤ t))

  head-IsFirst :
      (q : Queue redis) (w : Worker) (job : QueueJob) (session : Option ℕ)
      → (is_blocked w.inflight_sessions session ≡ false) × (is_head redis q job session ≡ true)
      → IsFirst q w session job
  head-IsFirst q w job none h = tt
  head-IsFirst q w job (some sid) (free, head) = (
    free,
    redis.zrange_head-least (q.sessions sid) job.id
        (is_id-some (redis.zrange_head (q.sessions sid)) job.id head),
  )

  picked :
      (id : ℕ) (o : Option QueueJob) (q : Queue redis) (w : Worker) (candidates : List QueueJob)
      → ((visit_job redis id o q w candidates).0 ≡ candidates)
        ⊎ ((job : QueueJob) × (o ≡ some job)
            × ((visit_job redis id o q w candidates).0 ≡ candidates ++ job ∷ [])
            × IsFirst q w job.session_id job)
  unfolding visit_job
  picked id none q w candidates = inl refl
  picked id (some job) q w candidates = elim (Bool-cases (may_run redis q w job)) [
    | inl b ↦ inr (job, refl, rw b refl, head-IsFirst q w job job.session_id (may_run_parts _ _ b))
    | inr b ↦ inl (rw b refl)
  ]

  -- Looking at one due id adds a job to the candidates at most, whatever Redis holds at each of the two
  -- reads. If it does, the id is not being processed, the job is the one stored under the id at the first
  -- read, and if it belongs to a session then the session has no job in flight and at the second read no
  -- job of it has a lower number.
  pub visit-picks :
      (id : ℕ) (q q' : Queue redis) (w : Worker) (candidates : List QueueJob)
      → ((visit redis id q q' w candidates).0 ≡ candidates)
        ⊎ ((job : QueueJob) × (has w.processing id ≡ false)
            × (q.jobs id ≡ some job)
            × ((visit redis id q q' w candidates).0 ≡ candidates ++ job ∷ [])
            × IsFirst q' w job.session_id job)
  unfolding visit
  visit-picks id q q' w candidates = elim (Bool-cases (has w.processing id)) [
    | inl b ↦ inl (rw b refl)
    | inr b ↦ elim (picked id (q.jobs id) q' w candidates) [
      | inl e ↦ inl (rw b e)
      | inr (job, stored, added, first) ↦ inr (job, b, stored, rw b added, first)
    ]
  ]
