-- ===== src/Oracle/Backoff.antt =====
-- `calculateBackoff` and `generateJitter` of oracle/src/utils/crypto.ts, and the keys made there.
use agroasys_web3layer.Prelude.{
  ℕ, ◌+◌, ◌-◌, ◌*◌, ◌^◌, ◌≤◌, ◌<◌, String, ◌<>◌, min, max, ◌==◌, if◌then◌else◌, arith,
}

-- `below m` is `Math.floor(Math.random() * m)`.
unfoldable pub generate_jitter : (ℕ → ℕ) → ℕ → ℕ
generate_jitter below max_jitter_ms = if max_jitter_ms == 0 then 0 else below max_jitter_ms

-- `maxJitterMs` has its default in every call.
abbrev pub max_jitter : ℕ
max_jitter = 1000

unfoldable pub calculate_backoff : (ℕ → ℕ) → ℕ → ℕ → ℕ → ℕ
unfolding generate_jitter
calculate_backoff below attempt base_delay max_delay_ms =
    let exponential_delay = base_delay * 2 ^ (attempt - 1) in
    let capped = min exponential_delay max_delay_ms in
    let window = max 0 (max_delay_ms - capped) in
    capped + generate_jitter below (min max_jitter (window + 1))

-- With a jitter below its bound, a delay is at least the capped exponential delay and at most the
-- configured maximum.
pub calculate_backoff_bounds :
    (below : ℕ → ℕ) (attempt base_delay max_delay_ms : ℕ)
    → ((m : ℕ) → 0 < m → below m < m)
    → (min (base_delay * 2 ^ (attempt - 1)) max_delay_ms
        ≤ calculate_backoff below attempt base_delay max_delay_ms)
      × (calculate_backoff below attempt base_delay max_delay_ms ≤ max_delay_ms)
unfolding calculate_backoff
calculate_backoff_bounds below attempt base_delay max_delay_ms h =
    let m = min max_jitter (max_delay_ms - min (base_delay * 2 ^ (attempt - 1)) max_delay_ms + 1) in
    ground (arith, h m)

unfoldable pub generate_action_key : String → String → String
generate_action_key operation trade_id = operation <> ":" <> trade_id

-- `${actionKey}:${generateRequestId()}`, the random part an argument.
unfoldable pub generate_idempotency_key : String → String → String
generate_idempotency_key action_key random_id = action_key <> ":" <> random_id
