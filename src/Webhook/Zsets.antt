-- ===== src/Webhook/Zsets.antt =====
-- The commands on sorted sets of Redis that src/webhook/webhook-queue.service.ts uses, as an
-- interface: the members are job ids.
use orbit_stream_backend.Common.{ℕ, ◌≡◌, ◌≤◌, ◌==◌, List, Option, none, some, if◌then◌else◌}

pub record Zsets : Type 1 where
  pub ZSet : Type 0
  pub zscore : ZSet → ℕ → Option ℕ
  pub zadd : ZSet → ℕ → ℕ → ZSet
  pub zrem : ZSet → ℕ → ZSet
  pub zrangebyscore : ZSet → ℕ → List ℕ
  pub zrange_head : ZSet → Option ℕ
  -- ZADD sets the score of its member.
  pub zscore-zadd :
      (z : ZSet) (score m n : ℕ)
      → zscore (zadd z score m) n ≡ (if m == n then some score else zscore z n)
  -- ZREM takes its member out.
  pub zscore-zrem :
      (z : ZSet) (m n : ℕ) → zscore (zrem z m) n ≡ (if m == n then none else zscore z n)
  -- ZRANGE 0 0 is a member of the least score.
  pub zrange_head-least :
      (z : ZSet) (m : ℕ)
      → zrange_head z ≡ some m
      → (s : ℕ) × (zscore z m ≡ some s) × ((n t : ℕ) → zscore z n ≡ some t → s ≤ t)
