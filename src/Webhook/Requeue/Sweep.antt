-- ===== src/Webhook/Requeue/Sweep.antt =====
-- `recoverPending` of src/webhook/webhook-queue.service.ts: which jobs there are after the sweep.
use orbit_stream_backend.Common.{
  ℕ, suc, ◌==◌, ◌≡◌, refl, sym, subst, ==_iff, ◌∙◌, ap, inl, inr, true, false, List, [], ◌∷◌, All,
  Option, none, some, arith, Bool-cases,
}
use orbit_stream_backend.Webhook.Job.{QueueJob, DeliveryRow, Surroundings, put, put-same}
use orbit_stream_backend.Webhook.Zsets.{Zsets}
use orbit_stream_backend.Webhook.Queue.{Queue, write_job, add_to_session}
use orbit_stream_backend.Webhook.Requeue.{
  revived, is_behind, is_some, raise_sequence, revive_from_row, has_job, revive_rows,
}

module _ (redis : Zsets) where
  -- The jobs and the rows after one revival.
  raise_jobs :
      (session : Option ℕ) (n : ℕ) (q : Queue redis)
      → ((raise_sequence redis session n q).jobs ≡ q.jobs)
        × ((raise_sequence redis session n q).deliveries ≡ q.deliveries)
  raise_jobs none n q = (refl, refl)
  raise_jobs (some sid) n q = elim (Bool-cases (is_behind (q.seqs sid) n)) [
    | inl b ↦ rw b (refl, refl)
    | inr b ↦ rw b (refl, refl)
  ]

  add_jobs :
      (session : Option ℕ) (job : QueueJob) (q : Queue redis)
      → ((add_to_session redis session job q).jobs ≡ q.jobs)
        × ((add_to_session redis session job q).deliveries ≡ q.deliveries)
  add_jobs none job q = (refl, refl)
  add_jobs (some sid) job q = (refl, refl)

  pub revive_jobs :
      (env : Surroundings) (row : DeliveryRow) (q : Queue redis)
      → ((revive_from_row redis env row q).jobs
          ≡ put q.jobs row.delivery_id (some (revived env row)))
        × ((revive_from_row redis env row q).deliveries ≡ q.deliveries)
  unfolding revive_from_row
  revive_jobs env row q =
      let job = revived env row in
      let added = add_to_session redis row.session_id job (write_job redis job q) in
      let (rj, rd) = raise_jobs row.session_id row.sequence added in
      let (aj, ad) = add_jobs row.session_id job (write_job redis job q) in (rj ∙ aj, rd ∙ ad)

  -- There is a job with the id.
  abbrev pub HasJob : Queue redis → ℕ → Type 0
  HasJob q id = has_job redis id q ≡ true

  put-some :
      (jobs : ℕ → Option QueueJob) (k id : ℕ) (job : QueueJob)
      → is_some (jobs id) ≡ true
      → is_some (put jobs k (some job) id) ≡ true
  put-some jobs k id job h = elim (Bool-cases (k == id)) [ inl b ↦ rw b refl | inr b ↦ rw b h ]

  put_keeps :
      (jobs : ℕ → Option QueueJob) (k id : ℕ) (v : Option QueueJob) (job : QueueJob)
      → is_some (jobs k) ≡ false
      → jobs id ≡ some job
      → put jobs k v id ≡ some job
  put_keeps jobs k id v job free h = elim (Bool-cases (k == id)) [
    | inl b ↦ absurd (ground (arith, sym (ap is_some (ap jobs ((==_iff k id).0 b) ∙ h)) ∙ free))
    | inr b ↦ rw b h
  ]

  pub revive_keeps :
      (env : Surroundings) (row : DeliveryRow) (q : Queue redis) (id : ℕ) (job : QueueJob)
      → is_some (q.jobs row.delivery_id) ≡ false
      → q.jobs id ≡ some job
      → (revive_from_row redis env row q).jobs id ≡ some job
  revive_keeps env row q id job free h =
      rw (revive_jobs env row q).0 (put_keeps q.jobs row.delivery_id id _ job free h)

  revive_has :
      (env : Surroundings) (row : DeliveryRow) (q : Queue redis) (id : ℕ)
      → HasJob q id
      → HasJob (revive_from_row redis env row q) id
  revive_has env row q id h = rw (revive_jobs env row q).0 (put-some q.jobs row.delivery_id id _ h)

  revive_adds :
      (env : Surroundings) (row : DeliveryRow) (q : Queue redis)
      → HasJob (revive_from_row redis env row q) row.delivery_id
  revive_adds env row q = rw ((revive_jobs env row q).0, put-same) refl

  -- A job that is there stays as it is.
  pub sweep_keeps :
      (env : Surroundings) (rows : List DeliveryRow) (n : ℕ) (q : Queue redis) (id : ℕ)
      (job : QueueJob)
      → q.jobs id ≡ some job
      → (revive_rows redis env rows n q).1.jobs id ≡ some job
  unfolding revive_rows
  sweep_keeps env [] n q id job h = h
  sweep_keeps env (row ∷ rows) n q id job h = elim (Bool-cases (has_job redis row.delivery_id q)) [
    | inl b ↦ rw b (sweep_keeps env rows n q id job h)
    | inr b ↦ rw b (
        sweep_keeps env rows (suc n) (revive_from_row redis env row q) id job
          (revive_keeps env row q id job b h))
  ]

  sweep_has :
      (env : Surroundings) (rows : List DeliveryRow) (n : ℕ) (q : Queue redis) (id : ℕ)
      → HasJob q id
      → HasJob (revive_rows redis env rows n q).1 id
  unfolding revive_rows
  sweep_has env [] n q id h = h
  sweep_has env (row ∷ rows) n q id h = elim (Bool-cases (has_job redis row.delivery_id q)) [
    | inl b ↦ rw b (sweep_has env rows n q id h)
    | inr b ↦ rw b (
        sweep_has env rows (suc n) (revive_from_row redis env row q) id (revive_has env row q id h))
  ]

  pub skip_eq :
      (env : Surroundings) (row : DeliveryRow) (rows : List DeliveryRow) (n : ℕ) (q : Queue redis)
      → HasJob q row.delivery_id
      → revive_rows redis env (row ∷ rows) n q ≡ revive_rows redis env rows n q
  unfolding revive_rows
  skip_eq env row rows n q b = rw b refl

  pub revive_eq :
      (env : Surroundings) (row : DeliveryRow) (rows : List DeliveryRow) (n : ℕ) (q : Queue redis)
      → has_job redis row.delivery_id q ≡ false
      → revive_rows redis env (row ∷ rows) n q
        ≡ revive_rows redis env rows (suc n) (revive_from_row redis env row q)
  unfolding revive_rows
  revive_eq env row rows n q b = rw b refl

  pub sweep_adds :
      (env : Surroundings) (rows : List DeliveryRow) (n : ℕ) (q : Queue redis)
      → All (λ row. HasJob (revive_rows redis env rows n q).1 row.delivery_id) rows
  sweep_adds env [] n q = tt
  sweep_adds env (row ∷ rows) n q =
      let Goal : ℕ × Queue redis → Type 0 = λ p. All (λ r. HasJob p.1 r.delivery_id) (row ∷ rows) in
      elim (Bool-cases (has_job redis row.delivery_id q)) [
        | inl b ↦
            subst Goal (sym (skip_eq env row rows n q b))
              (sweep_has env rows n q row.delivery_id b, sweep_adds env rows n q)
        | inr b ↦
            let q1 = revive_from_row redis env row q in
            subst Goal (sym (revive_eq env row rows n q b)) (
              sweep_has env rows (suc n) q1 row.delivery_id (revive_adds env row q),
              sweep_adds env rows (suc n) q1,
            )
      ]

  pub sweep_rows :
      (env : Surroundings) (rows : List DeliveryRow) (n : ℕ) (q : Queue redis)
      → (revive_rows redis env rows n q).1.deliveries ≡ q.deliveries
  unfolding revive_rows
  sweep_rows env [] n q = refl
  sweep_rows env (row ∷ rows) n q = elim (Bool-cases (has_job redis row.delivery_id q)) [
    | inl b ↦ rw b (sweep_rows env rows n q)
    | inr b ↦
        rw b (
          sweep_rows env rows (suc n) (revive_from_row redis env row q) ∙ (revive_jobs env row q).1)
  ]

  -- Nothing is left to revive.
  pub sweep_idle :
      (env : Surroundings) (rows : List DeliveryRow) (n : ℕ) (q : Queue redis)
      → All (λ row. HasJob q row.delivery_id) rows
      → revive_rows redis env rows n q ≡ (n, q)
  unfolding revive_rows
  sweep_idle env [] n q h = refl
  sweep_idle env (row ∷ rows) n q (b, h) = rw b (sweep_idle env rows n q h)
