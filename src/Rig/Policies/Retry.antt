-- ===== src/Rig/Policies/Retry.antt =====
-- The retry loop of a state read (`refresh_state_with_retry` of src/trx-server/src/rig_task.rs).
use trx_rs.Common.{
  ℕ, zero, suc, ◌+◌, ◌-◌, ◌*◌, ◌≤◌, ◌<◌, String, true, false, ◌≡◌, refl, sym, ◌∙◌, inl, inr, arith,
  Bool-cases,
}
use mathlib.Core.Bool.{false≢true}
use native.Mathlib.Nat.{le_trans}
use trx_rs.Rig.Handlers.{Outcome, failed, Call}
use trx_rs.Rig.Policies.{
  ExponentialBackoff, exponential, tries_again, delay, capped_delay, after_read, retry_loop,
  Refresh, refresh_with_retry,
}

tries_again_below :
    (p : ExponentialBackoff) (n : ℕ) (e : String)
    → n + 1 < p.max_attempts
    → tries_again p n e ≡ true
unfolding tries_again
tries_again_below p n e h = ground arith

tries_again_last :
    (p : ExponentialBackoff) (n : ℕ) (e : String)
    → n + 1 ≡ p.max_attempts
    → tries_again p n e ≡ false
unfolding tries_again
tries_again_last p n e h = ground arith

pred_times : (l b : ℕ) → (suc l - 1) * b ≡ l * b
pred_times l b = let e : suc l - 1 ≡ l = omega arith in rw e

-- k reads in a row that fail, from one state of the rig to another
pub data Fails {S : Type 0} (read : Call S (Unit {0})) : ℕ → S → S → Type 0 where
  start : {s : S} → Fails read zero s s
  one_more :
      {k : ℕ} {s t u : S} {e : String}
      → read s ≡ (failed e, t)
      → Fails read k t u
      → Fails read (suc k) s u

module _ {S : Type 0} (jitter : ℕ → ℕ) (p : ExponentialBackoff) (read : Call S (Unit {0})) where
  loop_done :
      (left attempt : ℕ) (last : String) (slept k : ℕ) {s t u : S}
      → attempt + left ≡ p.max_attempts
      → Fails read k s t
      → read t ≡ (Outcome.done tt, u)
      → k < left
      → let r = retry_loop jitter p read left attempt last slept s in
        (r.result ≡ Outcome.done tt) × (r.state ≡ u)
  unfolding retry_loop after_read
  loop_done zero attempt last slept k e f h lt = absurd (omega arith)
  loop_done (suc left) attempt last slept zero e start h lt = rw h (refl, refl)
  loop_done (suc left) attempt last slept (suc k) e (one_more {e = x} q f) h lt = rw q (
      rw (tries_again_below p attempt x (omega arith))
        (loop_done left (attempt + 1) x _ k (omega arith) f h (omega arith)))

  -- If one of the first `max_attempts` reads succeeds, the loop ends with the first that does, in
  -- the state that it leaves.
  pub refresh_with_retry-done :
      (k : ℕ) {s t u : S}
      → Fails read k s t
      → read t ≡ (Outcome.done tt, u)
      → k < p.max_attempts
      → let r = refresh_with_retry jitter p read s in (r.result ≡ Outcome.done tt) × (r.state ≡ u)
  unfolding refresh_with_retry
  refresh_with_retry-done k f h lt =
      loop_done p.max_attempts 0 "Unknown CAT error" 0 k (omega arith) f h lt

  loop_failed :
      (left attempt : ℕ) (last : String) (slept k : ℕ) {s t u : S} {e : String}
      → attempt + left ≡ p.max_attempts
      → Fails read k s t
      → read t ≡ (failed e, u)
      → left ≡ suc k
      → let r = retry_loop jitter p read left attempt last slept s in
        (r.result ≡ failed e) × (r.state ≡ u)
  unfolding retry_loop after_read
  loop_failed zero attempt last slept k e f h lt = absurd (omega arith)
  loop_failed (suc left) attempt last slept zero {e = x} e start h lt =
      rw h (rw (tries_again_last p attempt x (omega arith)) (refl, refl))
  loop_failed (suc left) attempt last slept (suc k) e (one_more {e = x} q f) h lt = rw q (
      rw (tries_again_below p attempt x (omega arith))
        (loop_failed left (attempt + 1) x _ k (omega arith) f h (omega arith)))

  -- If the first `max_attempts` reads all fail, the loop stops there with the error of the last.
  pub refresh_with_retry-failed :
      (k : ℕ) {s t u : S} {e : String}
      → Fails read k s t
      → read t ≡ (failed e, u)
      → p.max_attempts ≡ suc k
      → let r = refresh_with_retry jitter p read s in (r.result ≡ failed e) × (r.state ≡ u)
  unfolding refresh_with_retry
  refresh_with_retry-failed k f h lt =
      loop_failed p.max_attempts 0 "Unknown CAT error" 0 k (omega arith) f h lt

  module _ (b : ℕ) (bounded : (d : ℕ) → d ≤ p.max_delay → jitter d ≤ b) where
    delay-le : (n : ℕ) → delay jitter (exponential p) n ≤ b
    unfolding delay capped_delay
    delay-le n = bounded (capped_delay p n) (omega arith)

    slept_between :
        (left attempt slept : ℕ) (e : String)
        → attempt + suc left ≡ p.max_attempts
        → tries_again p attempt e ≡ true
        → slept + delay jitter (exponential p) attempt + (left - 1) * b ≤ slept + left * b
    slept_between zero attempt slept e m t =
        absurd (false≢true (sym (tries_again_last p attempt e (omega arith)) ∙ t))
    slept_between (suc l) attempt slept e m t = omega (arith, delay-le attempt, pred_times l b)

    after_read-slept :
        (again : String → ℕ → S → Refresh S) (left attempt slept : ℕ) (r : Outcome (Unit {0}))
        (s : S)
        → attempt + suc left ≡ p.max_attempts
        → ((e : String) (n : ℕ) → (again e n s).slept ≤ n + (left - 1) * b)
        → (after_read jitter p again attempt slept r s).slept ≤ slept + left * b
    unfolding after_read
    after_read-slept again left attempt slept (Outcome.done u) s m h = omega arith
    after_read-slept again left attempt slept (failed e) s m h =
        elim (Bool-cases (tries_again p attempt e)) [
          | inl t ↦ rw t (
              le_trans (h e (slept + delay jitter (exponential p) attempt))
                (slept_between left attempt slept e m t))
          | inr t ↦ rw t (omega arith)
        ]

    loop-slept :
        (left attempt : ℕ) (last : String) (slept : ℕ) (s : S)
        → attempt + left ≡ p.max_attempts
        → (retry_loop jitter p read left attempt last slept s).slept ≤ slept + (left - 1) * b
    unfolding retry_loop
    loop-slept zero attempt last slept s e = omega arith
    loop-slept (suc left) attempt last slept s e =
        le_trans
          (after_read-slept (retry_loop jitter p read left (attempt + 1)) left attempt slept
            (read s).0 (read s).1 e
            (λ x n. loop-slept left (attempt + 1) x n (read s).1 (omega arith)))
          (omega (arith, pred_times left b))

    -- If the jitter takes no delay up to `max_delay` above b, the loop sleeps at most
    -- (max_attempts - 1) * b in all, whatever the rig answers.
    pub refresh_with_retry-slept :
        (s : S) → (refresh_with_retry jitter p read s).slept ≤ (p.max_attempts - 1) * b
    unfolding refresh_with_retry
    refresh_with_retry-slept s =
        le_trans (loop-slept p.max_attempts 0 "Unknown CAT error" 0 s (omega arith)) (omega arith)
