-- ===== src/Webhook/Requeue/Revived.antt =====
-- `recoverPending` of src/webhook/webhook-queue.service.ts: what the sweep writes for a delivery whose
-- job was lost.
use orbit_stream_backend.Common.{
  ℕ, suc, ◌==◌, ◌≡◌, refl, sym, subst, ==_iff, ◌∙◌, ap, inl, inr, false, List, [], ◌∷◌, All, filter,
  find?, Option, none, some, arith, Bool-cases,
}
use orbit_stream_backend.Webhook.Job.{QueueJob, DeliveryRow, Surroundings, put-same, put-other}
use orbit_stream_backend.Webhook.Zsets.{Zsets}
use orbit_stream_backend.Webhook.Queue.{Queue, is_open, has_delivery_id, write_job, add_to_session}
use orbit_stream_backend.Webhook.Requeue.{
  revived, is_behind, is_some, raise_sequence, revive_from_row, has_job, revive_rows,
  recover_pending,
}
use orbit_stream_backend.Webhook.Requeue.Sweep.{
  HasJob, revive_jobs, revive_keeps, skip_eq, revive_eq, sweep_keeps, sweep_adds, sweep_rows,
  sweep_idle,
}

module _ (redis : Zsets) where
  -- The session lists the job with its number.
  abbrev pub IsListed : Queue redis → QueueJob → Option ℕ → Type 0
  IsListed q job none = Unit
  IsListed q job (some sid) = redis.zscore (q.sessions sid) job.id ≡ some job.sequence

  -- The job is stored, is scheduled for the time at which it is due, and stands in its session.
  abbrev pub IsQueued : Queue redis → QueueJob → Type 0
  IsQueued q job =
      (q.jobs job.id ≡ some job)
      × (redis.zscore q.scheduled job.id ≡ some job.available_at)
      × IsListed q job job.session_id

  raise_sets :
      (session : Option ℕ) (n : ℕ) (q : Queue redis)
      → ((raise_sequence redis session n q).scheduled ≡ q.scheduled)
        × ((raise_sequence redis session n q).sessions ≡ q.sessions)
  raise_sets none n q = (refl, refl)
  raise_sets (some sid) n q = elim (Bool-cases (is_behind (q.seqs sid) n)) [
    | inl b ↦ rw b (refl, refl)
    | inr b ↦ rw b (refl, refl)
  ]

  add_scheduled :
      (session : Option ℕ) (job : QueueJob) (q : Queue redis)
      → (add_to_session redis session job q).scheduled ≡ q.scheduled
  add_scheduled none job q = refl
  add_scheduled (some sid) job q = refl

  -- The sorted sets after one revival.
  revive_sets :
      (env : Surroundings) (row : DeliveryRow) (q : Queue redis)
      → ((revive_from_row redis env row q).scheduled
          ≡ redis.zadd q.scheduled env.now row.delivery_id)
        × ((revive_from_row redis env row q).sessions
            ≡ (add_to_session redis row.session_id (revived env row) q).sessions)
  unfolding revive_from_row
  revive_sets env row q =
      let job = revived env row in
      let added = add_to_session redis row.session_id job (write_job redis job q) in
      let (rs, re) = raise_sets row.session_id row.sequence added in
      (
        ap (λ z. redis.zadd z env.now row.delivery_id)
            (rs ∙ add_scheduled row.session_id job (write_job redis job q)),
        re ∙ same_sessions row.session_id job q,
      )
    where
      same_sessions :
          (session : Option ℕ) (job : QueueJob) (q : Queue redis)
          → (add_to_session redis session job (write_job redis job q)).sessions
            ≡ (add_to_session redis session job q).sessions
      same_sessions none job q = refl
      same_sessions (some sid) job q = refl

  zadd_other :
      (z : redis.ZSet) (score m n : ℕ)
      → (m == n) ≡ false
      → redis.zscore (redis.zadd z score m) n ≡ redis.zscore z n
  zadd_other z score m n h = redis.zscore-zadd z score m n ∙ rw h refl

  zadd_same : (z : redis.ZSet) (score m : ℕ) → redis.zscore (redis.zadd z score m) m ≡ some score
  zadd_same z score m = ground (arith, redis.zscore-zadd z score m m)

  listed :
      (session : Option ℕ) (job : QueueJob) (q : Queue redis)
      → IsListed (add_to_session redis session job q) job session
  listed none job q = tt
  listed (some sid) job q =
      rw (put-same q.sessions sid (redis.zadd (q.sessions sid) job.sequence job.id))
        (zadd_same (q.sessions sid) job.sequence job.id)

  sessions-IsListed :
      (q q' : Queue redis) (job : QueueJob) (session : Option ℕ)
      → q'.sessions ≡ q.sessions
      → IsListed q job session
      → IsListed q' job session
  sessions-IsListed q q' job none e h = tt
  sessions-IsListed q q' job (some sid) e h = rw e h

  -- A session that gets another job still lists the job.
  add_to_session-IsListed :
      (session session' : Option ℕ) (job other : QueueJob) (q : Queue redis)
      → (other.id == job.id) ≡ false
      → IsListed q job session'
      → IsListed (add_to_session redis session other q) job session'
  add_to_session-IsListed none session' job other q h l = l
  add_to_session-IsListed (some sid) none job other q h l = tt
  add_to_session-IsListed (some sid) (some sid') job other q h l = elim (Bool-cases (sid == sid')) [
    | inl b ↦ rw b (
        zadd_other (q.sessions sid) other.sequence other.id job.id h
        ∙ ap (λ k. redis.zscore (q.sessions k) job.id) ((==_iff sid sid').0 b)
        ∙ l)
    | inr b ↦ rw b l
  ]

  revive-IsQueued :
      (env : Surroundings) (row : DeliveryRow) (q : Queue redis)
      → IsQueued (revive_from_row redis env row q) (revived env row)
  revive-IsQueued env row q =
      let (sched, sess) = revive_sets env row q in
      (
        rw ((revive_jobs redis env row q).0, put-same) refl,
        rw sched (zadd_same q.scheduled env.now row.delivery_id),
        sessions-IsListed (add_to_session redis row.session_id (revived env row) q)
            (revive_from_row redis env row q) (revived env row) row.session_id sess
            (listed row.session_id (revived env row) q),
      )

  free_other :
      (q : Queue redis) (k : ℕ) (job : QueueJob)
      → is_some (q.jobs k) ≡ false
      → q.jobs job.id ≡ some job
      → (k == job.id) ≡ false
  free_other q k job free h = elim (Bool-cases (k == job.id)) [
    | inl b ↦
        absurd (ground (arith, sym (ap is_some (ap q.jobs ((==_iff k job.id).0 b) ∙ h)) ∙ free))
    | inr b ↦ b
  ]

  kept-IsQueued :
      (env : Surroundings) (row : DeliveryRow) (q : Queue redis) (job : QueueJob)
      → is_some (q.jobs row.delivery_id) ≡ false
      → IsQueued q job
      → IsQueued (revive_from_row redis env row q) job
  kept-IsQueued env row q job free (stored, due, listing) =
      let (sched, sess) = revive_sets env row q in
      let other = free_other q row.delivery_id job free stored in
      (
        revive_keeps redis env row q job.id job free stored,
        rw sched (zadd_other q.scheduled env.now row.delivery_id job.id other ∙ due),
        sessions-IsListed (add_to_session redis row.session_id (revived env row) q)
            (revive_from_row redis env row q) job job.session_id sess
            (add_to_session-IsListed row.session_id job.session_id job (revived env row) q other
              listing),
      )

  sweep-IsQueued :
      (env : Surroundings) (rows : List DeliveryRow) (n : ℕ) (q : Queue redis) (job : QueueJob)
      → IsQueued q job
      → IsQueued (revive_rows redis env rows n q).1 job
  sweep-IsQueued env [] n q job h = rw (sweep_idle redis env [] n q tt) h
  sweep-IsQueued env (row ∷ rows) n q job h = elim (Bool-cases (has_job redis row.delivery_id q)) [
    | inl b ↦ rw (skip_eq redis env row rows n q b) (sweep-IsQueued env rows n q job h)
    | inr b ↦ rw (revive_eq redis env row rows n q b) (
        sweep-IsQueued env rows (suc n) (revive_from_row redis env row q) job
          (kept-IsQueued env row q job b h))
  ]

  first_revived :
      (env : Surroundings) (row row' : DeliveryRow) (rows : List DeliveryRow) (n : ℕ)
      (q : Queue redis)
      → q.jobs row.delivery_id ≡ none
      → row ≡ row'
      → IsQueued (revive_rows redis env (row ∷ rows) n q).1 (revived env row')
  first_revived env row row' rows n q free e =
      rw (revive_eq redis env row rows n q (ap is_some free)) (
        sweep-IsQueued env rows (suc n) (revive_from_row redis env row q) (revived env row') (
          subst (λ r. IsQueued (revive_from_row redis env row q) (revived env r)) e
            (revive-IsQueued env row q)))

  still_free :
      (env : Surroundings) (row : DeliveryRow) (q : Queue redis) (id : ℕ)
      → (row.delivery_id == id) ≡ false
      → q.jobs id ≡ none
      → (revive_from_row redis env row q).jobs id ≡ none
  still_free env row q id other free =
      ap (λ f. f id) (revive_jobs redis env row q).0
      ∙ put-other q.jobs row.delivery_id id (some (revived env row)) other
      ∙ free

  -- The first row of an id without a job is revived.
  sweep_revives :
      (env : Surroundings) (rows : List DeliveryRow) (n : ℕ) (q : Queue redis) (id : ℕ)
      (row : DeliveryRow)
      → find? (has_delivery_id id) rows ≡ some row
      → q.jobs id ≡ none
      → IsQueued (revive_rows redis env rows n q).1 (revived env row)
  sweep_revives env [] n q id row e free = absurd (ground (arith, e))
  sweep_revives env (r ∷ rs) n q id row e free = elim (Bool-cases (r.delivery_id == id)) [
    | inl b ↦
        first_revived env r row rs n q (ap q.jobs ((==_iff r.delivery_id id).0 b) ∙ free)
          (ground (arith, e, b))
    | inr b ↦
        let rest : find? (has_delivery_id id) rs ≡ some row = ground (arith, e, b) in
        elim (Bool-cases (has_job redis r.delivery_id q)) [
          | inl k ↦ rw (skip_eq redis env r rs n q k) (sweep_revives env rs n q id row rest free)
          | inr k ↦ rw (revive_eq redis env r rs n q k) (
              sweep_revives env rs (suc n) (revive_from_row redis env r q) id row rest
                (still_free env r q id b free))
        ]
  ]

  -- After the sweep every delivery that is pending or failed has a job. One that had none has the job
  -- of its row, with the attempts of the row counted, scheduled for now and listed in its session under
  -- its old number. The jobs that were there are as before, and a second sweep revives nothing and
  -- changes nothing.
  pub recover_pending_complete :
      (env env' : Surroundings) (q : Queue redis)
      → let q' = (recover_pending redis env q).1 in
        All (λ row. HasJob redis q' row.delivery_id) (filter is_open q'.deliveries)
        × ((id : ℕ) (row : DeliveryRow)
            → find? (has_delivery_id id) (filter is_open q.deliveries) ≡ some row
            → q.jobs id ≡ none
            → IsQueued q' (revived env row))
        × ((id : ℕ) (job : QueueJob) → q.jobs id ≡ some job → q'.jobs id ≡ some job)
        × (recover_pending redis env' q' ≡ (0, q'))
  unfolding recover_pending
  recover_pending_complete env env' q =
      let rows = filter is_open q.deliveries in
      let q' = (revive_rows redis env rows 0 q).1 in
      let has : All (λ row. HasJob redis q' row.delivery_id) (filter is_open q'.deliveries) =
        rw (sweep_rows redis env rows 0 q) (sweep_adds redis env rows 0 q) in
      (
        has,
        sweep_revives env rows 0 q,
        sweep_keeps redis env rows 0 q,
        sweep_idle redis env' (filter is_open q'.deliveries) 0 q' has,
      )
