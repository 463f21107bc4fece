-- ===== src/Pipeline/Stages/Retry.antt =====
-- The backoff of `retry_delay_ms`.
use ragent.Common.{ℕ, zero, suc, ◌≤◌, ◌<◌, ◌≡◌, ◌⊎◌, none, some, arith}
use ragent.Pipeline.Stages.{Stage, ok, err, attempt_below_one, retry_delay_ms}

-- The backoff for each attempt of a stage. An attempt below 1 is an error. From the stage's last
-- attempt on there is none. Before it the delay is 5 seconds after the first attempt, 30 seconds
-- after the second and 5 minutes after every later one.
pub retry_delay_ms_cases :
    (s : Stage) (attempt : ℕ)
    → (attempt ≡ 0) × (retry_delay_ms s attempt ≡ err (attempt_below_one 0))
      ⊎ (1 ≤ attempt) × (s.max_attempts ≤ attempt) × (retry_delay_ms s attempt ≡ ok none)
      ⊎ (attempt ≡ 1) × (attempt < s.max_attempts) × (retry_delay_ms s attempt ≡ ok (some 5000))
      ⊎ (attempt ≡ 2) × (attempt < s.max_attempts) × (retry_delay_ms s attempt ≡ ok (some 30000))
      ⊎ (3 ≤ attempt) × (attempt < s.max_attempts) × (retry_delay_ms s attempt ≡ ok (some 300000))
unfolding retry_delay_ms
retry_delay_ms_cases s zero = ground arith
retry_delay_ms_cases s (suc zero) = ground arith
retry_delay_ms_cases s (suc (suc zero)) = ground arith
retry_delay_ms_cases s (suc (suc (suc n))) = ground arith

-- Later attempts never wait less.
pub retry_delay_ms_mono :
    (s : Stage) (a b d e : ℕ)
    → a ≤ b
    → retry_delay_ms s a ≡ ok (some d)
    → retry_delay_ms s b ≡ ok (some e)
    → d ≤ e
retry_delay_ms_mono s a b d e h p q =
    ground (arith, retry_delay_ms_cases s a, retry_delay_ms_cases s b)
