-- ===== src/Webhook/Worker/Ended.antt =====
-- How many steps `tick` of src/webhook/webhook-queue.service.ts takes.
use orbit_stream_backend.Common.{
  ℕ, suc, ◌-◌, ◌≡◌, refl, sym, ap, ◌∙◌, true, List, [], ◌∷◌, length, Option, none, some, ltb, arith,
}
use orbit_stream_backend.Webhook.Job.{QueueJob}
use orbit_stream_backend.Webhook.Zsets.{Zsets}
use orbit_stream_backend.Webhook.Queue.{Queue}
use orbit_stream_backend.Webhook.Worker.{
  Scan, Worker, dispatch_scan, settle_job, begin_tick, is_ticking, tick_next, tick_scan, tick_step,
}
use orbit_stream_backend.Webhook.Worker.Reached.{Taken}

abbrev steps_left : Option Scan → ℕ
steps_left none = 0
steps_left (some s) = suc (length s.due_ids)

module _ (redis : Zsets) where
  -- `n` steps of a tick. Before each of them Redis is in any state, any running jobs settle, and further
  -- ticks try to begin.
  pub data During : ℕ → Worker → Worker → Type 0 where
    done : (w : Worker) → During 0 w w
    goes_on :
        (n : ℕ) (q q' : Queue redis) (w w' : Worker)
        → During n (tick_step redis q q' w).0 w'
        → During (suc n) w w'
    settles :
        (n : ℕ) (job : QueueJob) (rest : List QueueJob) (w w' : Worker)
        → Taken w.running job rest
        → During n (settle_job job rest w) w'
        → During n w w'
    begins :
        (n now : ℕ) (q : Queue redis) (w w' : Worker)
        → is_ticking w.scan ≡ true
        → During n (begin_tick redis now q w) w'
        → During n w w'

  next_left :
      (q q' : Queue redis) (w : Worker) (s : Scan) (ids : List ℕ)
      → steps_left (tick_next redis q q' w s ids).0.scan ≡ length ids
  unfolding dispatch_scan
  next_left q q' w s [] = refl
  next_left q q' w s (id ∷ ids) = refl

  one_less :
      (q q' : Queue redis) (w : Worker) (o : Option Scan)
      → o ≡ w.scan
      → steps_left (tick_scan redis q q' w o).0.scan ≡ steps_left o - 1
  one_less q q' w none e = ap steps_left (sym e)
  one_less q q' w (some s) e = omega (arith, next_left q q' w s s.due_ids)

  begin_ticking :
      (now : ℕ) (q : Queue redis) (w : Worker)
      → is_ticking w.scan ≡ true
      → begin_tick redis now q w ≡ w
  unfolding begin_tick
  begin_ticking now q w b = rw b refl

  During-steps_left :
      (n : ℕ) (w w' : Worker) → During n w w' → steps_left w'.scan ≡ steps_left w.scan - n
  unfolding tick_step settle_job
  During-steps_left _ _ _ (During.done w) = omega arith
  During-steps_left _ _ _ (During.goes_on n q q' w w' d) =
      omega
        (arith, During-steps_left n (tick_step redis q q' w).0 w' d, one_less q q' w w.scan refl)
  During-steps_left _ _ _ (During.settles n job rest w w' t d) =
      During-steps_left n (settle_job job rest w) w' d
  During-steps_left _ _ _ (During.begins n now q w w' b d) =
      During-steps_left n (begin_tick redis now q w) w' d
      ∙ ap (λ v. steps_left v.scan - n) (begin_ticking now q w b)

  ticking_lem : (o : Option Scan) → is_ticking o ≡ ltb 0 (steps_left o)
  ticking_lem none = refl
  ticking_lem (some s) = ground arith

  less : (n m : ℕ) → ltb 0 (m - n) ≡ ltb n m
  less n m = ground arith

  -- A tick that has begun takes one step of the model for each due id and one more, whatever happens
  -- between its steps.
  pub During-is_ticking :
      (n : ℕ) (w w' : Worker) (s : Scan)
      → w.scan ≡ some s
      → During n w w'
      → is_ticking w'.scan ≡ ltb n (suc (length s.due_ids))
  During-is_ticking n w w' s e d =
      ticking_lem w'.scan
      ∙ ap (ltb 0) (During-steps_left n w w' d ∙ ap (λ o. steps_left o - n) e)
      ∙ less n (suc (length s.due_ids))
