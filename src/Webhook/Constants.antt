-- ===== src/Webhook/Constants.antt =====
-- src/webhook/webhook.constants.ts: priorities, the back-off schedule with jitter, the classes of
-- HTTP statuses, and the content that is signed.
use orbit_stream_backend.Common.{
  ℕ, ◌+◌, ◌-◌, ◌*◌, ◌/◌, ◌==◌, ◌&&◌, ◌||◌, List, [], ◌∷◌, ◌++◌, if◌then◌else◌, ltb, leb, get_or,
  length, min, max,
}
use orbit_stream_backend.Common.Text.{Text, codes, text_eq}

abbrev pub max_attempts : ℕ
max_attempts = 5

abbrev pub backoff_schedule_ms : List ℕ
backoff_schedule_ms = 60_000 ∷ 300_000 ∷ 1_800_000 ∷ 7_200_000 ∷ 43_200_000 ∷ []

unfoldable pub priority_for : Text → ℕ
priority_for event =
    if text_eq event (codes "payment.confirmed")
    then 1
    else if text_eq event (codes "session.expired")
    then 2
    else if text_eq event (codes "payment.failed")
    then 2
    else 3

-- `attempt` counts from 1; a smaller number is taken as 1.
unfoldable pub base_backoff_ms : ℕ → ℕ
base_backoff_ms attempt =
    get_or backoff_schedule_ms (min (max attempt 1) (length backoff_schedule_ms) - 1) 0

-- A value of `Math.random()`, taken as the exact fraction of two numbers.
pub record Random : Type 0 where
  pub numerator : ℕ
  pub denominator : ℕ

-- `Math.round(baseMs * (1 + (rand * 2 - 1) * 0.2))` in exact arithmetic: for rand = p / q the factor
-- is (4 q + 2 p) / (5 q), and a half is rounded up.
unfoldable pub apply_jitter : ℕ → Random → ℕ
apply_jitter base_ms rand =
    (2 * base_ms * (4 * rand.denominator + 2 * rand.numerator) + 5 * rand.denominator)
    / (10 * rand.denominator)

unfoldable pub backoff_delay_ms : ℕ → Random → ℕ
unfolding base_backoff_ms apply_jitter
backoff_delay_ms attempt rand = apply_jitter (base_backoff_ms attempt) rand

pub data DeliveryOutcome : Type 0 where
  success retry dead : DeliveryOutcome

unfoldable pub classify_status : ℕ → DeliveryOutcome
classify_status status =
    if leb 200 status && ltb status 300
    then success
    else if status == 408 || status == 429
    then retry
    else if leb 400 status && ltb status 500
    then dead
    else retry

-- `${deliveryId}.${timestamp}.${payload}`
unfoldable pub build_signed_content : Text → Text → Text → Text
build_signed_content delivery_id timestamp payload =
    delivery_id ++ (b'.' ∷ (timestamp ++ (b'.' ∷ payload)))
