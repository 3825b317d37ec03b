-- ===== src/Kernel/Workflow/Attempts.antt =====
-- One turn of `_step_once` adds at most one attempt, and none to a step that was executed.
use aiya_cms.Prelude.{
  ℕ, ◌+◌, ◌<◌, ◌≡◌, refl, sym, ap, subst, ◌∙◌, String, true, false, Option, none, some, List, [],
  ◌∷◌, ◌++◌, arith, inl, inr,
}
use aiya_cms.Prelude.Result.{
  Result, ok, err, pure, continue, Ensures, Ensures-ok, Ensures-err, Ensures-stop, Ensures-guard,
  Ensures-map, Ensures-bind, Ensures-if, ◌>>◌,
}
use aiya_cms.Kernel.Errors.{Raised, classify_retry}
use aiya_cms.Kernel.Retry.{should_retry}
use aiya_cms.Kernel.Workflow.Model.{
  Dict, lookup, WorkflowStatus, AttemptStatus, executed, failed_attempt, value_error, query_error,
  session_error, Workflow, WorkflowInstance, WorkflowStepAttempt, WorkflowSignal, WorkflowStore,
  ActivitySpec, WorkflowSpec, WorkflowRunner, activity, last_attempt, undelivered_signals,
  put_instance,
}
use aiya_cms.Kernel.Workflow.Settle.{
  now, advance_to, advance_step, add_attempt, attempt_row, failed_attempt_row, settle_failure,
  deliver, wait_or_go, after_result, settle, Wait, no_wait, wait_for, not_a_key, run_handler,
  wait_key, category_of,
}
use aiya_cms.Kernel.Workflow.Step.{run_activity, retry_activity, step_after}
use aiya_cms.Kernel.Workflow.Handling.{Handled, run_handler_lem}
use aiya_cms.Kernel.Workflow.Executed.{is_executed, ran, attempt_of, OnlyLast, OnlyLast-append}

module _ {W : Type 0} (run : WorkflowRunner W) (spec : WorkflowSpec W) where
  -- Moving on does not touch the attempts.
  advance_to-attempts :
      (i : WorkflowInstance) (o : Option String) (s : WorkflowStore W)
      → Ensures (λ _ s'. s'.attempts ≡ s.attempts) (advance_to run i spec o s)
  unfolding advance_to put_instance now
  advance_to-attempts i none s = Ensures-ok _ _ tt _ refl refl
  advance_to-attempts i (some key) s =
      Ensures-guard (elim (activity key spec.activities) [ none ↦ true | some _ ↦ false ])
        value_error _ _ s (Ensures-ok _ _ tt _ refl refl)

  go_on-attempts :
      (i : WorkflowInstance) (s : WorkflowStore W)
      → Ensures {A = Option WorkflowStatus}
          (λ _ s'. s'.attempts ≡ s.attempts)
          ((advance_step run i spec >> pure none) s)
  unfolding advance_step
  go_on-attempts i s =
      Ensures-bind (advance_to-attempts i i.current_step s) (λ _ s' e. Ensures-ok _ _ _ s' refl e)

  after_result-attempts :
      (i : WorkflowInstance) (wait : Wait) (s : WorkflowStore W)
      → Ensures (λ _ s'. s'.attempts ≡ s.attempts) (after_result run i spec wait s)
  unfolding after_result wait_or_go put_instance now deliver
  after_result-attempts i no_wait s = go_on-attempts i s
  after_result-attempts i not_a_key s = Ensures-err _ _ query_error refl
  after_result-attempts i (wait_for key) s = by_signals (undelivered_signals i.id key s.signals)
    where
      by_signals :
          (l : List WorkflowSignal)
          → Ensures (λ _ s'. s'.attempts ≡ s.attempts) (wait_or_go run i spec key l s)
      by_signals [] = Ensures-ok _ _ _ _ refl refl
      by_signals (signal ∷ _) = go_on-attempts _ _

  settle_failure-attempts :
      (i : WorkflowInstance) (a : ActivitySpec W) (attempt : ℕ) (e : Raised) (s : WorkflowStore W)
      → Ensures (λ _ s'. s'.attempts ≡ s.attempts) (settle_failure run i a attempt e s)
  unfolding settle_failure now put_instance
  settle_failure-attempts i a attempt e s =
      Ensures-if (should_retry a.retry (classify_retry e) attempt) _ _ _ s
        (λ _. Ensures-ok _ _ _ _ refl refl) (λ _. Ensures-ok _ _ _ _ refl refl)

  -- The step whose last attempt was not executed.
  record Due (i : WorkflowInstance) (key : String) (attempt : ℕ) (s : WorkflowStore W)
      : Type 0 where
    only_last : OnlyLast s.attempts
    not_ran : ran (last_attempt i.id key s.attempts) ≡ 0
    next : attempt_of (last_attempt i.id key s.attempts) < attempt

  settle-OnlyLast :
      (i : WorkflowInstance) (a : ActivitySpec W) (key : String) (input : Dict) (attempt : ℕ)
      (outcome : Result Raised Dict) (s : WorkflowStore W)
      → Due i key attempt s
      → Ensures (λ _ s'. OnlyLast s'.attempts) (settle run i spec a key input attempt outcome s)
  unfolding settle add_attempt
  settle-OnlyLast i a key input attempt (err e) s d =
      let row = failed_attempt_row run i key input attempt e in
      Ensures-map _ _ _
        (λ _ s' q.
          subst OnlyLast (sym q) (OnlyLast-append s.attempts row d.only_last d.not_ran d.next))
        (settle_failure-attempts i a attempt e (record s { attempts = s.attempts ++ row ∷ [] }))
  settle-OnlyLast i a key input attempt (ok result) s d =
      let row : WorkflowStepAttempt = record (attempt_row run i key input attempt) {
        result = some result;
      } in
      Ensures-map _ _ _
        (λ _ s' q.
          subst OnlyLast (sym q) (OnlyLast-append s.attempts row d.only_last d.not_ran d.next))
        (after_result-attempts _ (wait_key (lookup "wait_for_signal" result))
          (record s { attempts = s.attempts ++ row ∷ [] }))

  run_activity-OnlyLast :
      (i : WorkflowInstance) (a : ActivitySpec W) (key : String) (input : Dict) (attempt : ℕ)
      (s : WorkflowStore W)
      → Due i key attempt s
      → Ensures (λ _ s'. OnlyLast s'.attempts) (run_activity run i spec a key input attempt s)
  unfolding run_activity
  run_activity-OnlyLast i a key input attempt s d = by_end (run_handler_lem run a input attempt s)
    where
      settled : Result Raised Dict → Workflow W (Option WorkflowStatus)
      settled = settle run i spec a key input attempt

      by_end :
          Handled a s (run_handler run a input attempt s)
          → Ensures
              (λ _ s'. OnlyLast s'.attempts)
              (continue (run_handler run a input attempt s) settled)
      by_end (inl (outcome, world, e, _)) =
          subst (λ r. Ensures (λ _ s'. OnlyLast s'.attempts) (continue r settled)) (sym e)
            (settle-OnlyLast i a key input attempt outcome (record s { world = world })
              record { only_last = d.only_last; not_ran = d.not_ran; next = d.next })
      by_end (inr (e, _)) = Ensures-stop settled session_error e

  pub step_after-OnlyLast :
      (i : WorkflowInstance) (a : ActivitySpec W) (key : String) (o : Option WorkflowStepAttempt)
      (s : WorkflowStore W)
      → OnlyLast s.attempts
      → last_attempt i.id key s.attempts ≡ o
      → Ensures (λ _ s'. OnlyLast s'.attempts) (step_after run i spec a key o s)
  unfolding step_after retry_activity put_instance
  step_after-OnlyLast i a key none s h e =
      run_activity-OnlyLast i a key _ 1 s
        record { only_last = h; not_ran = ap ran e; next = rw e (omega arith) }
  step_after-OnlyLast i a key (some p) s h e = by_status p.status refl
    where
      retried :
          is_executed p.status ≡ 0
          → Ensures (λ _ s'. OnlyLast s'.attempts) (retry_activity run i spec a key p s)
      retried f =
          Ensures-if (should_retry a.retry (category_of p.error_category) p.attempt) _ _ _ s
            (λ _.
              run_activity-OnlyLast i a key p.input (p.attempt + 1) s
                record { only_last = h; not_ran = ap ran e ∙ f; next = rw e (omega arith) })
            (λ _. Ensures-ok _ _ _ _ refl h)

      by_status :
          (v : AttemptStatus)
          → p.status ≡ v
          → Ensures (λ _ s'. OnlyLast s'.attempts) (step_after run i spec a key (some p) s)
      by_status executed f =
          rw (f, step_after)
            (Ensures-map _ _ _ (λ _ s' q. subst OnlyLast (sym q) h) (go_on-attempts i s))
      by_status failed_attempt f = rw (f, step_after) (retried (ap is_executed f))
