-- ===== src/Kernel/Workflow/Executed.antt =====
-- The attempts of a step: how many of them were executed.
use aiya_cms.Prelude.{
  ℕ, ◌+◌, ◌≤◌, ◌<◌, ◌≡◌, refl, sym, ap, subst, ◌∙◌, eq_iff, String, Bool, true, false, Option, none,
  some, List, [], ◌∷◌, ◌++◌, arith, sum_by, sum_by-append, if◌then◌else◌,
}
use aiya_cms.Kernel.Workflow.Model.{
  AttemptStatus, executed, failed_attempt, WorkflowStepAttempt, is_attempt_of, later, last_attempt,
}

abbrev pub is_executed : AttemptStatus → ℕ
is_executed executed = 1
is_executed failed_attempt = 0

-- How many attempts of the step were executed.
abbrev pub executions : ℕ → String → List WorkflowStepAttempt → ℕ
executions workflow key t =
    sum_by (λ a. if is_attempt_of workflow key a then is_executed a.status else 0) t

abbrev pub ran : Option WorkflowStepAttempt → ℕ
ran none = 0
ran (some a) = is_executed a.status

abbrev pub attempt_of : Option WorkflowStepAttempt → ℕ
attempt_of none = 0
attempt_of (some a) = a.attempt

-- Of the attempts of a step only the last one may have been executed.
abbrev pub OnlyLast : List WorkflowStepAttempt → Type 0
OnlyLast t =
    (workflow : ℕ) (key : String) → executions workflow key t ≡ ran (last_attempt workflow key t)

pub ran_at_most_once : (o : Option WorkflowStepAttempt) → ran o ≤ 1
ran_at_most_once none = omega arith
ran_at_most_once (some a) = by_status a.status
  where
    by_status : (v : AttemptStatus) → is_executed v ≤ 1
    by_status executed = omega arith
    by_status failed_attempt = omega arith

module _ (workflow : ℕ) (key : String) (x : WorkflowStepAttempt) where
  last-append_other :
      (t : List WorkflowStepAttempt)
      → is_attempt_of workflow key x ≡ false
      → last_attempt workflow key (t ++ x ∷ []) ≡ last_attempt workflow key t
  unfolding last_attempt
  last-append_other [] e = rw e refl
  last-append_other (a ∷ t) e = rw (last-append_other t e) refl

  later_new :
      (a : WorkflowStepAttempt) (o : Option WorkflowStepAttempt)
      → attempt_of (some (later a o)) < x.attempt
      → (attempt_of o < x.attempt) × (later a (some x) ≡ x)
  later_new a none l = (omega (arith, l), ground (arith, l))
  later_new a (some b) l = (ground (arith, l), ground (arith, l))

  last-append_new :
      (t : List WorkflowStepAttempt)
      → is_attempt_of workflow key x ≡ true
      → attempt_of (last_attempt workflow key t) < x.attempt
      → last_attempt workflow key (t ++ x ∷ []) ≡ some x
  unfolding last_attempt
  last-append_new [] e l = rw e refl
  last-append_new (a ∷ t) e l = by_match (is_attempt_of workflow key a) refl (last-append_new t e)
    where
      by_match :
          (b : Bool)
          → is_attempt_of workflow key a ≡ b
          → (attempt_of (last_attempt workflow key t) < x.attempt
              → last_attempt workflow key (t ++ x ∷ []) ≡ some x)
          → last_attempt workflow key ((a ∷ t) ++ x ∷ []) ≡ some x
      by_match true m k =
          let (p, q) = later_new a (last_attempt workflow key t) (rw m at l) in
          rw m (rw (k p) (ap some q))
      by_match false m k = rw m (k (rw m at l))

-- A new attempt of a step whose last attempt was not executed, under a later number.
pub OnlyLast-append :
    (t : List WorkflowStepAttempt) (x : WorkflowStepAttempt)
    → OnlyLast t
    → ran (last_attempt x.workflow_id x.step_key t) ≡ 0
    → attempt_of (last_attempt x.workflow_id x.step_key t) < x.attempt
    → OnlyLast (t ++ x ∷ [])
OnlyLast-append t x h none_ran l workflow key = by_match (is_attempt_of workflow key x) refl
  where
    counted :
        executions workflow key (t ++ x ∷ [])
        ≡ executions workflow key t + (executions workflow key (x ∷ []))
    counted =
        sum_by-append (λ a. if is_attempt_of workflow key a then is_executed a.status else 0) t
          (x ∷ [])

    by_match :
        (b : Bool)
        → is_attempt_of workflow key x ≡ b
        → executions workflow key (t ++ x ∷ []) ≡ ran (last_attempt workflow key (t ++ x ∷ []))
    by_match true m =
        let here : x.workflow_id ≡ workflow = ground (arith, m) in
        let at : x.step_key ≡ key = (eq_iff x.step_key key).0 (ground (arith, m)) in
        let same : last_attempt x.workflow_id x.step_key t ≡ last_attempt workflow key t =
          ap (λ w. last_attempt w x.step_key t) here ∙ ap (λ k. last_attempt workflow k t) at in
        let before : executions workflow key t ≡ 0 =
          h workflow key ∙ ap ran (sym same) ∙ none_ran in
        let last =
          last-append_new workflow key x t m (subst (λ o. attempt_of o < x.attempt) same l) in
        let one : executions workflow key (x ∷ []) ≡ is_executed x.status = rw m (omega arith) in
        omega (arith, counted, before, one, ap ran last)
    by_match false m =
        let none_more : executions workflow key (x ∷ []) ≡ 0 = rw m (omega arith) in
        omega
          (arith, counted, none_more, h workflow key, ap ran (last-append_other workflow key x t m))
