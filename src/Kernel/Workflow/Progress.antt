-- ===== src/Kernel/Workflow/Progress.antt =====
-- `WorkflowRunner.advance` ends: each turn of its loop that does not return moves the instance on.
use aiya_cms.Prelude.{
  ℕ, ◌+◌, ◌≡◌, refl, sym, ap, subst, ◌∙◌, String, Bool, true, false, Option, none, some, List, [],
  ◌∷◌, is_some, inl, inr,
}
use aiya_cms.Prelude.Result.{Result, ok, err, pure, continue, ◌>>◌}
use aiya_cms.Prelude.Table.{get, put, get-put_self}
use aiya_cms.Kernel.Errors.{Raised, classify_retry}
use aiya_cms.Kernel.Retry.{should_retry}
use aiya_cms.Kernel.Workflow.Model.{
  Dict, session_error, query_error, Workflow, WorkflowStatus, failed, waiting, AttemptStatus,
  executed, failed_attempt, WorkflowError, WorkflowInstance, WorkflowStepAttempt, WorkflowSignal,
  WorkflowStore, ActivitySpec, WorkflowSpec, WorkflowRunner, instance_id, activity, next_key,
  undelivered_signals, put_instance, lookup,
}
use aiya_cms.Kernel.Workflow.Settle.{
  now, advance_to, advance_step, run_handler, add_attempt, settle_failure, deliver, wait_or_go,
  after_result, settle, Wait, no_wait, wait_for, not_a_key, wait_key, category_of,
}
use aiya_cms.Kernel.Workflow.Step.{run_activity, retry_activity, step_after}
use aiya_cms.Kernel.Workflow.Handling.{Breaks, MayRefuse, Handled, run_handler_lem}

module _ {W : Type 0} (run : WorkflowRunner W) (spec : WorkflowSpec W) (key : String) where
  -- The turn returned, or its row stands at the activity after `key`, or the handler broke it.
  pub data Turned (a : ActivitySpec W) (id : ℕ) (workflow : String)
      : Result WorkflowError (Option WorkflowStatus × WorkflowStore W) → Type 0 where
    returns :
        (status : WorkflowStatus) (s : WorkflowStore W) → Turned a id workflow (ok (some status, s))
    moved :
        (s : WorkflowStore W) (i' : WorkflowInstance)
        → get instance_id id s.instances ≡ some i'
        → i'.workflow_key ≡ workflow
        → i'.current_step ≡ next_key key spec.activities
        → Turned a id workflow (ok (none, s))
    raises : (e : WorkflowError) → Breaks a e → Turned a id workflow (err e)

  module _ (there : is_some (activity key spec.activities) ≡ true) where
    advance_to_lem :
        (i : WorkflowInstance) (s : WorkflowStore W)
        → advance_to run i spec (some key) s
          ≡ ok (
            tt,
            record s {
              instances =
                  put instance_id
                    (record i {
                      current_step = next_key key spec.activities;
                      wake_at = some (run.utc_now s.world);
                    })
                    s.instances;
            },
          )
    unfolding advance_to now put_instance
    advance_to_lem i s = by_activity (activity key spec.activities) refl
      where
        by_activity :
            (o : Option (ActivitySpec W))
            → activity key spec.activities ≡ o
            → advance_to run i spec (some key) s
              ≡ ok (
                tt,
                record s {
                  instances =
                      put instance_id
                        (record i {
                          current_step = next_key key spec.activities;
                          wake_at = some (run.utc_now s.world);
                        })
                        s.instances;
                },
              )
        by_activity none e = cc (there, ap is_some e)
        by_activity (some a) e = rw (e, advance_to) refl

    go_on :
        (a : ActivitySpec W) (i old : WorkflowInstance) (s : WorkflowStore W)
        → get instance_id i.id s.instances ≡ some old
        → i.current_step ≡ some key
        → Turned a i.id i.workflow_key ((advance_step run i spec >> pure none) s)
    unfolding advance_step
    go_on a i old s at here =
        subst (λ r. Turned a i.id i.workflow_key (continue r (λ _. pure none)))
          (sym (ap (λ o. advance_to run i spec o s) here ∙ advance_to_lem i s))
          (moved _ _ (get-put_self instance_id _ old s.instances at) refl refl)

    wait_or_go-Turned :
        (a : ActivitySpec W) (i old : WorkflowInstance) (wait : String)
        (signals : List WorkflowSignal) (s : WorkflowStore W)
        → get instance_id i.id s.instances ≡ some old
        → i.current_step ≡ some key
        → Turned a i.id i.workflow_key (wait_or_go run i spec wait signals s)
    unfolding wait_or_go put_instance now deliver
    wait_or_go-Turned a i old wait [] s at here = returns waiting _
    wait_or_go-Turned a i old wait (signal ∷ rest) s at here = go_on a _ old _ at here

    after_result-Turned :
        (a : ActivitySpec W) (i old : WorkflowInstance) (wait : Wait) (s : WorkflowStore W)
        → (wait ≡ not_a_key → Breaks a query_error)
        → get instance_id i.id s.instances ≡ some old
        → i.current_step ≡ some key
        → Turned a i.id i.workflow_key (after_result run i spec wait s)
    unfolding after_result
    after_result-Turned a i old no_wait s may at here = go_on a i old s at here
    after_result-Turned a i old not_a_key s may at here = raises query_error (may refl)
    after_result-Turned a i old (wait_for wait) s may at here =
        wait_or_go-Turned a i old wait (undelivered_signals i.id wait s.signals) s at here

    settle_failure-Turned :
        (i : WorkflowInstance) (a : ActivitySpec W) (attempt : ℕ) (e : Raised) (s : WorkflowStore W)
        → Turned a i.id i.workflow_key (settle_failure run i a attempt e s)
    unfolding settle_failure now put_instance
    settle_failure-Turned i a attempt e s =
        by_policy (should_retry a.retry (classify_retry e) attempt) refl
      where
        by_policy :
            (b : Bool)
            → should_retry a.retry (classify_retry e) attempt ≡ b
            → Turned a i.id i.workflow_key (settle_failure run i a attempt e s)
        by_policy true p = rw (p, settle_failure) (returns i.status _)
        by_policy false p = rw (p, settle_failure) (returns failed _)

    settle-Turned :
        (i old : WorkflowInstance) (a : ActivitySpec W) (input : Dict) (attempt : ℕ)
        (outcome : Result Raised Dict) (s : WorkflowStore W)
        → MayRefuse a outcome
        → get instance_id i.id s.instances ≡ some old
        → i.current_step ≡ some key
        → Turned a i.id i.workflow_key (settle run i spec a key input attempt outcome s)
    unfolding settle add_attempt
    settle-Turned i old a input attempt (err e) s may at here =
        settle_failure-Turned i a attempt e _
    settle-Turned i old a input attempt (ok result) s may at here =
        after_result-Turned a _ old (wait_key (lookup "wait_for_signal" result)) _ (may result refl)
          at here

    run_activity-Turned :
        (i old : WorkflowInstance) (a : ActivitySpec W) (input : Dict) (attempt : ℕ)
        (s : WorkflowStore W)
        → get instance_id i.id s.instances ≡ some old
        → i.current_step ≡ some key
        → Turned a i.id i.workflow_key (run_activity run i spec a key input attempt s)
    unfolding run_activity
    run_activity-Turned i old a input attempt s at here =
        by_end (run_handler_lem run a input attempt s)
      where
        settled : Result Raised Dict → Workflow W (Option WorkflowStatus)
        settled = settle run i spec a key input attempt

        by_end :
            Handled a s (run_handler run a input attempt s)
            → Turned a i.id i.workflow_key (continue (run_handler run a input attempt s) settled)
        by_end (inl (outcome, world, e, may)) =
            subst (λ r. Turned a i.id i.workflow_key (continue r settled)) (sym e)
              (settle-Turned i old a input attempt outcome (record s { world = world }) may at here)
        by_end (inr (e, broken)) =
            subst (λ r. Turned a i.id i.workflow_key (continue r settled)) (sym e)
              (raises session_error broken)

    retry_activity-Turned :
        (i old : WorkflowInstance) (a : ActivitySpec W) (p : WorkflowStepAttempt)
        (s : WorkflowStore W)
        → get instance_id i.id s.instances ≡ some old
        → i.current_step ≡ some key
        → Turned a i.id i.workflow_key (retry_activity run i spec a key p s)
    unfolding retry_activity put_instance
    retry_activity-Turned i old a p s at here =
        by_policy (should_retry a.retry (category_of p.error_category) p.attempt) refl
      where
        by_policy :
            (b : Bool)
            → should_retry a.retry (category_of p.error_category) p.attempt ≡ b
            → Turned a i.id i.workflow_key (retry_activity run i spec a key p s)
        by_policy true e =
            rw (e, retry_activity) (run_activity-Turned i old a p.input (p.attempt + 1) s at here)
        by_policy false e = rw (e, retry_activity) (returns failed _)

    pub step_after-Turned :
        (i old : WorkflowInstance) (a : ActivitySpec W) (previous : Option WorkflowStepAttempt)
        (s : WorkflowStore W)
        → get instance_id i.id s.instances ≡ some old
        → i.current_step ≡ some key
        → Turned a i.id i.workflow_key (step_after run i spec a key previous s)
    unfolding step_after retry_activity
    step_after-Turned i old a none s at here = run_activity-Turned i old a _ 1 s at here
    step_after-Turned i old a (some p) s at here = by_status p.status refl
      where
        by_status :
            (v : AttemptStatus)
            → p.status ≡ v
            → Turned a i.id i.workflow_key (step_after run i spec a key (some p) s)
        by_status executed e = rw (e, step_after) (go_on a i old s at here)
        by_status failed_attempt e = rw (e, step_after) (retry_activity-Turned i old a p s at here)
