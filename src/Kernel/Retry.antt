-- ===== src/Kernel/Retry.antt =====
-- `RetryPolicy` of inc/kernel/workflow/spec.py. Delays count microseconds.
use aiya_cms.Prelude.{ℕ, ◌+◌, ◌-◌, ◌*◌, ◌≤◌, min, Bool, false, List, arith, ltb, any, if◌then◌else◌}
use aiya_cms.Kernel.Errors.{RetryCategory, limited, eq_retry}

-- `scaled base n` is `base * factor ** n`, as the interpreter's floats give it, in microseconds:
-- the factor is a float, so this is a parameter. The OverflowError of a power that is too large for
-- a float is left out.
pub record RetryPolicy : Type 0 where
  pub max_attempts : ℕ
  pub base_delay : ℕ
  pub max_delay : ℕ
  pub scaled : ℕ → ℕ → ℕ
  pub jitter : ℕ
  pub permanent_categories : List RetryCategory

unfoldable pub should_retry : RetryPolicy → RetryCategory → ℕ → Bool
should_retry policy category attempts =
    if any (eq_retry category) policy.permanent_categories
    then false
    else ltb attempts policy.max_attempts

-- The delay without the jitter.
unfoldable pub backoff : RetryPolicy → RetryCategory → ℕ → ℕ
backoff policy category attempts =
    let base = if eq_retry category limited then policy.base_delay * 4 else policy.base_delay in
    min (policy.scaled base (attempts - 1)) policy.max_delay

-- `sample` is what random.uniform(0, jitter) gives.
unfoldable pub next_attempt_delay : RetryPolicy → RetryCategory → ℕ → ℕ → ℕ
next_attempt_delay policy category attempts sample =
    let delay = backoff policy category attempts in
    if ltb 0 policy.jitter then delay + sample else delay

-- With a jitter sample inside its bounds, the delay lies between the backoff without jitter and the
-- maximum plus the jitter.
pub next_attempt_delay_bounds :
    (policy : RetryPolicy) (category : RetryCategory) (attempts sample : ℕ)
    → sample ≤ policy.jitter
    → (backoff policy category attempts ≤ next_attempt_delay policy category attempts sample)
      × (next_attempt_delay policy category attempts sample ≤ policy.max_delay + policy.jitter)
unfolding next_attempt_delay backoff
next_attempt_delay_bounds policy category attempts sample h = (ground arith, ground arith)
