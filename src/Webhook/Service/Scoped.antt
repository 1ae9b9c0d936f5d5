-- ===== src/Webhook/Service/Scoped.antt =====
-- What a request of one merchant leaves of the rows of the others.
use orbit_stream_backend.Common.{
  ℕ, ◌==◌, ==_iff, ◌≡◌, refl, sym, ap, ◌∙◌, inl, inr, Bool, true, false, not, List, [], ◌∷◌, Option,
  none, some, map, filter, find?, any, err, arith, Bool-cases,
}
use orbit_stream_backend.Webhook.Job.{DeadLetter, EnqueueParams, Surroundings}
use orbit_stream_backend.Webhook.Zsets.{Zsets}
use orbit_stream_backend.Webhook.Queue.{Queue, enqueue}
use orbit_stream_backend.Webhook.Requeue.{
  has_letter_id, mark_retried, requeued, requeue_found, requeue_dead_letter,
}
use orbit_stream_backend.Webhook.Service.{
  WebhookEndpoint, is_endpoint, is_letter, Hooks, HookRequest, create, delete, retry, dismiss,
  not_found, done_if, handle, create_endpoint, delete_endpoint, retry_dead_letter,
  dismiss_dead_letter,
}

module _ {ℓ} {A : Type ℓ} where
  -- What passes the second test is not removed by the first.
  filter_twice :
      (p q : A → Bool) (l : List A)
      → ((a : A) → p a ≡ true → q a ≡ true)
      → filter p (filter q l) ≡ filter p l
  filter_twice p q [] h = refl
  filter_twice p q (a ∷ l) h = elim (Bool-cases (q a)) [
    | inl b ↦ rw b (elim (Bool-cases (p a)) [
      | inl c ↦ rw c (ap (λ l'. a ∷ l') (filter_twice p q l h))
      | inr c ↦ rw c (filter_twice p q l h)
    ])
    | inr b ↦ elim (Bool-cases (p a)) [
      | inl c ↦ ground (arith, b, c, h a c)
      | inr c ↦ rw (b, c) (filter_twice p q l h)
    ]
  ]

  none_removed : (p : A → Bool) (l : List A) → any p l ≡ false → filter (λ a. not (p a)) l ≡ l
  none_removed p [] h = refl
  none_removed p (a ∷ l) h = elim (Bool-cases (p a)) [
    | inl b ↦ ground (arith, b, h)
    | inr b ↦ rw b (ap (λ l'. a ∷ l') (none_removed p l (sym (rw b refl) ∙ h)))
  ]

-- The rows of the others.
abbrev pub is_other : ℕ → ℕ → Bool
is_other merchant_id m = not (m == merchant_id)

-- No two dead letters have one id.
abbrev pub AreKeys : List DeadLetter → Type 0
AreKeys [] = Unit
AreKeys (l ∷ ls) = (any (has_letter_id l.id) ls ≡ false) × AreKeys ls

is_other_self : (m : ℕ) → is_other m m ≡ false
is_other_self m = ground arith

other_endpoint :
    (m id : ℕ) (e : WebhookEndpoint)
    → is_other m e.merchant_id ≡ true
    → not (is_endpoint m id e) ≡ true
other_endpoint m id e h = ground arith

other_letter :
    (m id : ℕ) (l : DeadLetter) → is_other m l.merchant_id ≡ true → not (is_letter m id l) ≡ true
other_letter m id l h = ground arith

unmarked :
    (now id : ℕ) (ls : List DeadLetter)
    → any (has_letter_id id) ls ≡ false
    → map (mark_retried now id) ls ≡ ls
unmarked now id [] h = refl
unmarked now id (l ∷ ls) h = elim (Bool-cases (has_letter_id id l)) [
  | inl b ↦ ground (arith, b, h)
  | inr b ↦ rw b (ap (λ l'. l ∷ l') (unmarked now id ls (sym (rw b refl) ∙ h)))
]

-- Marking a letter of the merchant leaves the others.
marked_other :
    (now id m : ℕ) (ls : List DeadLetter) (l : DeadLetter)
    → AreKeys ls
    → find? (has_letter_id id) ls ≡ some l
    → (l.merchant_id == m) ≡ true
    → filter (λ k. is_other m k.merchant_id) (map (mark_retried now id) ls)
      ≡ filter (λ k. is_other m k.merchant_id) ls
marked_other now id m [] l keys e own = refl
marked_other now id m (k ∷ ks) l (new, keys) e own = elim (Bool-cases (has_letter_id id k)) [
  | inl b ↦
      let same : k ≡ l = ground (arith, e, b) in
      let mine : is_other m k.merchant_id ≡ false =
        ap (λ (a : DeadLetter). is_other m a.merchant_id) same ∙ ap not own in
      rw (b, mine)
        (ap (filter (λ a. is_other m a.merchant_id)) (
          unmarked now id ks
            (sym (ap (λ i. any (has_letter_id i) ks) ((==_iff k.id id).0 b)) ∙ new)))
  | inr b ↦
      let rest = marked_other now id m ks l keys (sym (rw b refl) ∙ e) own in
      rw b (elim (Bool-cases (is_other m k.merchant_id)) [
        | inl c ↦ rw c (ap (λ a. k ∷ a) rest)
        | inr c ↦ rw c rest
      ])
]

module _ (redis : Zsets) where
  -- The rows of the other merchants are as before.
  pub record AreKept (m : ℕ) (h h' : Hooks redis) : Type 0 where
    pub endpoints :
        filter (λ e. is_other m e.merchant_id) h'.endpoints
        ≡ filter (λ e. is_other m e.merchant_id) h.endpoints
    pub letters :
        filter (λ l. is_other m l.merchant_id) h'.queue.dead_letters
        ≡ filter (λ l. is_other m l.merchant_id) h.queue.dead_letters
    pub deliveries :
        filter (λ r. is_other m r.merchant_id) h'.queue.deliveries
        ≡ filter (λ r. is_other m r.merchant_id) h.queue.deliveries

  enqueue-rows :
      (env : Surroundings) (params : EnqueueParams) (q : Queue redis)
      → ((enqueue redis env params q).1.dead_letters ≡ q.dead_letters)
        × (filter
              (λ r. is_other params.merchant_id r.merchant_id)
              (enqueue redis env params q).1.deliveries
            ≡ filter (λ r. is_other params.merchant_id r.merchant_id) q.deliveries)
  unfolding enqueue
  enqueue-rows env params q = go params.session_id
    where
      go :
          (so : Option ℕ)
          → let p = record params { session_id = so } in
            ((enqueue redis env p q).1.dead_letters ≡ q.dead_letters)
            × (filter
                  (λ r. is_other p.merchant_id r.merchant_id)
                  (enqueue redis env p q).1.deliveries
                ≡ filter (λ r. is_other p.merchant_id r.merchant_id) q.deliveries)
      go none = (refl, rw (is_other_self params.merchant_id) refl)
      go (some sid) = (refl, rw (is_other_self params.merchant_id) refl)

  retried-kept :
      (env : Surroundings) (m id : ℕ) (o : Option DeadLetter) (h : Hooks redis)
      → AreKeys h.queue.dead_letters
      → find? (has_letter_id id) h.queue.dead_letters ≡ o
      → AreKept m h (record h { queue = (requeue_found redis env m id o h.queue).1 })
  retried-kept env m id none h keys e = record {
    endpoints = refl;
    letters = refl;
    deliveries = refl;
  }
  retried-kept env m id (some l) h keys e = elim (Bool-cases (l.merchant_id == m)) [
    | inl own ↦
        let (letters, rows) = enqueue-rows env (requeued m l) h.queue in
        rw own (record {
          endpoints = refl;
          letters =
              ap (λ ls. filter (λ a. is_other m a.merchant_id) (map (mark_retried env.now id) ls))
                letters
              ∙ marked_other env.now id m h.queue.dead_letters l keys e own;
          deliveries = rows;
        })
    | inr foreign ↦ rw foreign (record { endpoints = refl; letters = refl; deliveries = refl })
  ]

  refused_retry :
      (env : Surroundings) (m id : ℕ) (o : Option DeadLetter) (q : Queue redis)
      → (requeue_found redis env m id o q).0 ≡ none
      → (requeue_found redis env m id o q).1 ≡ q
  refused_retry env m id none q e = refl
  refused_retry env m id (some l) q e = elim (Bool-cases (l.merchant_id == m)) [
    | inl own ↦ absurd (ground (arith, (rw own at e)))
    | inr foreign ↦ rw foreign refl
  ]

  not_done : (b : Bool) → done_if redis b ≡ err not_found → b ≡ false
  not_done b e = ground (arith, e)

  -- A request of a merchant leaves every endpoint, dead letter and delivery of the others as it was, and
  -- a request that is answered with "not found" changes nothing; no two dead letters have one id.
  pub handle-AreKept :
      (env : Surroundings) (m : ℕ) (request : HookRequest redis) (h : Hooks redis)
      → AreKeys h.queue.dead_letters
      → AreKept m h (handle redis env m request h).1
        × ((handle redis env m request h).0 ≡ err not_found → (handle redis env m request h).1 ≡ h)
  unfolding handle create_endpoint delete_endpoint retry_dead_letter dismiss_dead_letter
      requeue_dead_letter
  handle-AreKept env m (create hex url events) h keys = (
    record { endpoints = rw (is_other_self m) refl; letters = refl; deliveries = refl },
    λ e. absurd (ground (arith, e)),
  )
  handle-AreKept env m (delete id) h keys = (
    record {
      endpoints =
          filter_twice (λ e. is_other m e.merchant_id) (λ e. not (is_endpoint m id e)) h.endpoints
            (other_endpoint m id);
      letters = refl;
      deliveries = refl;
    },
    λ e.
        ap (λ es. record h { endpoints = es })
          (none_removed (is_endpoint m id) h.endpoints (not_done _ e)),
  )
  handle-AreKept env m (retry id) h keys = (
    retried-kept env m id (find? (has_letter_id id) h.queue.dead_letters) h keys refl,
    λ e.
        ap (λ q. record h { queue = q })
          (refused_retry env m id (find? (has_letter_id id) h.queue.dead_letters) h.queue
            (ground (arith, e))),
  )
  handle-AreKept env m (dismiss id) h keys = (
    record {
      endpoints = refl;
      letters =
          filter_twice (λ l. is_other m l.merchant_id) (λ l. not (is_letter m id l))
            h.queue.dead_letters (other_letter m id);
      deliveries = refl;
    },
    λ e.
        ap (λ ls. record h { queue = record h.queue { dead_letters = ls } })
          (none_removed (is_letter m id) h.queue.dead_letters (not_done _ e)),
  )
