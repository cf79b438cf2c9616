-- ===== src/Rig/Policies/Backoff.antt =====
-- The delays of the retry policies, and what they retry (policies.rs).
use trx_rs.Common.{ℕ, ◌*◌, ◌^◌, ◌≤◌, ◌<◌, min, true, ◌≡◌, arith}
use native.Mathlib.Nat.{pow-le-pow_right}
use trx_rs.Rig.Types.{RigError}
use trx_rs.Rig.Policies.{
  ExponentialBackoff, RetryPolicy, is_transient, max_attempts, should_retry, capped_delay, u32_max,
  duration_max,
}

-- Every policy retries transient errors only, and only below its number of attempts.
pub should_retry_bounded :
    (p : RetryPolicy) (attempt : ℕ) (e : RigError)
    → should_retry p attempt e ≡ true
    → (attempt < max_attempts p) × (is_transient e ≡ true)
unfolding should_retry max_attempts is_transient
should_retry_bounded p attempt e h = ground arith

below_u32 : (n : ℕ) → n < 32 → 2 ^ n ≤ u32_max
below_u32 n h =
    let top : 2 ^ n ≤ 2 ^ 31 = pow-le-pow_right (omega arith) {j = 31} (omega arith) in omega arith

-- Below 32 attempts the delay before the jitter doubles from the base until the maximum, and the
-- saturating steps of the code play no part.
pub capped_delay_exact :
    (p : ExponentialBackoff) (n : ℕ)
    → n < 32
    → p.max_delay ≤ duration_max
    → capped_delay p n ≡ min (p.base_delay * 2 ^ n) p.max_delay
unfolding capped_delay
capped_delay_exact p n h m =
    let plain : min (2 ^ n) u32_max ≡ 2 ^ n = omega (arith, below_u32 n h) in rw plain (omega arith)
