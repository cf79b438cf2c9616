-- ===== src/Rig/Policies/Keeps.antt =====
-- What a state read keeps, its retries keep (`refresh_state_with_retry` of
-- src/trx-server/src/rig_task.rs).
use trx_rs.Common.{ℕ, zero, suc, ◌+◌, String, inl, inr, Bool-cases}
use trx_rs.Rig.Handlers.{Outcome, failed, Call}
use trx_rs.Rig.Policies.{
  ExponentialBackoff, exponential, tries_again, delay, after_read, retry_loop, Refresh,
  refresh_with_retry,
}

-- A read that keeps a property of the state keeps it under any number of attempts.
module _ {ℓ} {S : Type 0} (jitter : ℕ → ℕ) (p : ExponentialBackoff) (read : Call S (Unit {0}))
    (P : S → Type ℓ) (keep : (s : S) → P s → P (read s).1) where
  after_read-keeps :
      (again : String → ℕ → S → Refresh S)
      → ((e : String) (n : ℕ) (s : S) → P s → P (again e n s).state)
      → (attempt slept : ℕ) (r : Outcome (Unit {0})) (s : S) → P s
      → P (after_read jitter p again attempt slept r s).state
  unfolding after_read
  after_read-keeps again ih attempt slept (Outcome.done u) s h = h
  after_read-keeps again ih attempt slept (failed e) s h =
      elim (Bool-cases (tries_again p attempt e)) [
        | inl more ↦ rw more (ih e (slept + delay jitter (exponential p) attempt) s h)
        | inr last ↦ rw last h
      ]

  retry_loop-keeps :
      (left attempt : ℕ) (last : String) (slept : ℕ) (s : S)
      → P s
      → P (retry_loop jitter p read left attempt last slept s).state
  unfolding retry_loop
  retry_loop-keeps zero attempt last slept s h = h
  retry_loop-keeps (suc left) attempt last slept s h =
      after_read-keeps (retry_loop jitter p read left (attempt + 1))
        (retry_loop-keeps left (attempt + 1)) attempt slept (read s).0 (read s).1 (keep s h)

  pub refresh_with_retry-keeps : (s : S) → P s → P (refresh_with_retry jitter p read s).state
  unfolding refresh_with_retry
  refresh_with_retry-keeps s h = retry_loop-keeps p.max_attempts 0 "Unknown CAT error" 0 s h
