-- ===== src/Kernel/Errors.antt =====
-- Error and retry categories (inc/kernel/errors/__init__.py).
use aiya_cms.Prelude.{Bool, true, false}

pub data ErrorCategory : Type 0 where
  validation conflict not_found unauthorized forbidden : ErrorCategory
  rate_limited dependency_unavailable internal : ErrorCategory

pub data RetryCategory : Type 0 where
  transient limited conflicting permanent cancelled : RetryCategory

-- An exception: a `KernelError`, or any other.
pub data Raised : Type 0 where
  kernel_error : ErrorCategory → Raised
  other_error : Raised

-- `_CATEGORY_TO_RETRY`
abbrev pub category_to_retry : ErrorCategory → RetryCategory
category_to_retry validation = permanent
category_to_retry conflict = conflicting
category_to_retry not_found = permanent
category_to_retry unauthorized = permanent
category_to_retry forbidden = permanent
category_to_retry rate_limited = limited
category_to_retry dependency_unavailable = transient
category_to_retry internal = transient

unfoldable pub classify_retry : Raised → RetryCategory
classify_retry (kernel_error category) = category_to_retry category
classify_retry other_error = transient

abbrev pub eq_retry : RetryCategory → RetryCategory → Bool
eq_retry transient transient = true
eq_retry limited limited = true
eq_retry conflicting conflicting = true
eq_retry permanent permanent = true
eq_retry cancelled cancelled = true
eq_retry _ _ = false
