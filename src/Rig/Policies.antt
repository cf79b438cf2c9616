-- ===== src/Rig/Policies.antt =====
-- src/trx-core/src/rig/controller/policies.rs and the retry loop `refresh_state_with_retry` of
-- src/trx-server/src/rig_task.rs. A `Duration` is its number of nanoseconds. `apply_jitter` works
-- on floats and the clock: it is an argument.
pub mod Backoff
pub mod Retry
pub mod Keeps
use trx_rs.Common.{
  ℕ, zero, suc, ◌+◌, ◌-◌, ◌*◌, ◌^◌, min, String, Bool, true, false, ◌&&◌, ltb, leb, if◌then◌else◌,
}
use trx_rs.Rig.Types.{RigError, RigErrorKind, transient, permanent}
use trx_rs.Rig.Handlers.{Outcome, failed, Call}

-- rig/response.rs
unfoldable pub is_transient : RigError → Bool
is_transient e = elim e.kind [ transient ↦ true | permanent ↦ false ]

unfoldable pub transient_error : String → RigError
transient_error m = record { message = m; kind = transient }

unfoldable pub permanent_error : String → RigError
permanent_error m = record { message = m; kind = permanent }

unfoldable pub timeout : RigError
unfolding transient_error
timeout = transient_error "operation timed out"

unfoldable pub communication : String → RigError
unfolding transient_error
communication m = transient_error m

unfoldable pub invalid_state : String → RigError
unfolding permanent_error
invalid_state m = permanent_error m

abbrev pub u32_max : ℕ
u32_max = 2 ^ 32 - 1

abbrev pub millis : ℕ → ℕ
millis n = n * 1_000_000

-- `Duration::MAX`: 2^64 - 1 seconds and 999,999,999 nanoseconds
abbrev pub duration_max : ℕ
duration_max = 2 ^ 64 * 1_000_000_000 - 1

pub record ExponentialBackoff : Type 0 where
  pub max_attempts : ℕ
  pub base_delay : ℕ
  pub max_delay : ℕ

abbrev pub default_rig : ExponentialBackoff
default_rig = record { max_attempts = 3; base_delay = millis 100; max_delay = millis 2000 }

-- `2u32.saturating_pow(attempt)` and `Duration::saturating_mul`
unfoldable pub saturating_pow2 : ℕ → ℕ
saturating_pow2 attempt = min (2 ^ attempt) u32_max

unfoldable pub saturating_mul : ℕ → ℕ → ℕ
saturating_mul d k = min (d * k) duration_max

-- the delay before the jitter
unfoldable pub capped_delay : ExponentialBackoff → ℕ → ℕ
unfolding saturating_pow2 saturating_mul
capped_delay p attempt = min (saturating_mul p.base_delay (saturating_pow2 attempt)) p.max_delay

-- the implementations of `RetryPolicy`
pub data RetryPolicy : Type 0 where
  exponential : ExponentialBackoff → RetryPolicy
  fixed_delay : ℕ → ℕ → RetryPolicy
  no_retry : RetryPolicy

unfoldable pub max_attempts : RetryPolicy → ℕ
max_attempts (exponential p) = p.max_attempts
max_attempts (fixed_delay attempts _) = attempts
max_attempts no_retry = 1

unfoldable pub should_retry : RetryPolicy → ℕ → RigError → Bool
unfolding is_transient
should_retry (exponential p) attempt e =
    if leb p.max_attempts attempt then false else is_transient e
should_retry (fixed_delay attempts _) attempt e = ltb attempt attempts && is_transient e
should_retry no_retry attempt e = false

unfoldable pub delay : (ℕ → ℕ) → RetryPolicy → ℕ → ℕ
delay jitter (exponential p) attempt = jitter (capped_delay p attempt)
delay jitter (fixed_delay _ d) attempt = d
delay jitter no_retry attempt = 0

-- the implementations of `PollingPolicy`
pub data PollingPolicy : Type 0 where
  adaptive : ℕ → ℕ → PollingPolicy
  fixed_polling : ℕ → PollingPolicy
  no_polling : PollingPolicy

unfoldable pub interval : PollingPolicy → Bool → ℕ
interval (adaptive idle active) tx = if tx then active else idle
interval (fixed_polling d) tx = d
interval no_polling tx = duration_max

unfoldable pub should_poll : PollingPolicy → Bool → Bool
should_poll (adaptive _ _) tx = true
should_poll (fixed_polling _) tx = true
should_poll no_polling tx = false

-- The result of `refresh_state_with_retry`, and how long it slept.
pub record Refresh (S : Type 0) : Type 0 where
  pub result : Outcome (Unit {0})
  pub state : S
  pub slept : ℕ

-- whether a failed read is tried again: a read's error counts as a communication error
unfoldable pub tries_again : ExponentialBackoff → ℕ → String → Bool
unfolding should_retry communication
tries_again p attempt e =
    should_retry (exponential p) attempt (communication e) && ltb (attempt + 1) p.max_attempts

after_read :
    {S : Type 0}
    → (ℕ → ℕ)
    → ExponentialBackoff
    → (String → ℕ → S → Refresh S)
    → ℕ
    → ℕ
    → Outcome (Unit {0})
    → S
    → Refresh S
unfolding tries_again delay
after_read jitter p again attempt slept (Outcome.done u) s = record {
  result = Outcome.done u;
  state = s;
  slept = slept;
}
after_read jitter p again attempt slept (failed e) s =
    if tries_again p attempt e
    then again e (slept + delay jitter (exponential p) attempt) s
    else record { result = failed e; state = s; slept = slept }

-- `for attempt in 0..max`: `left` rounds remain, `last` is `last_err` or its default, and `read`
-- is one `refresh_state_from_cat`.
retry_loop :
    {S : Type 0}
    → (ℕ → ℕ)
    → ExponentialBackoff
    → Call S (Unit {0})
    → ℕ
    → ℕ
    → String
    → ℕ
    → S
    → Refresh S
retry_loop jitter p read zero attempt last slept s = record {
  result = failed last;
  state = s;
  slept = slept;
}
retry_loop jitter p read (suc left) attempt last slept s =
    let (r, s') = read s in
    after_read jitter p (retry_loop jitter p read left (attempt + 1)) attempt slept r s'

unfoldable pub refresh_with_retry :
    {S : Type 0} → (ℕ → ℕ) → ExponentialBackoff → Call S (Unit {0}) → S → Refresh S
unfolding retry_loop after_read
refresh_with_retry jitter p read s =
    retry_loop jitter p read p.max_attempts 0 "Unknown CAT error" 0 s
