-- ===== src/Kernel/Workflow/Step.antt =====
-- `WorkflowRunner.advance` and `_step_once` (inc/kernel/workflow/runner.py).
use aiya_cms.Prelude.{ℕ, zero, suc, ◌+◌, String, true, Option, none, some, if◌then◌else◌}
use Prim.Native.String.{◌++◌ as text_append}
use aiya_cms.Prelude.Result.{Result, ok, err, pure, gets, ◌>>=◌, ◌>>◌}
use aiya_cms.Kernel.Retry.{should_retry}
use aiya_cms.Kernel.Workflow.Model.{
  boolean, Dict, empty, item, WorkflowStatus, completed, failed, is_terminal, executed,
  failed_attempt, WorkflowInstance, WorkflowStepAttempt, WorkflowStore, ActivitySpec, WorkflowSpec,
  WorkflowRunner, WorkflowError, activity, last_attempt, Workflow, get_instance, put_instance,
  require,
}
use aiya_cms.Kernel.Workflow.Settle.{
  released, ended, error_result, message_of, category_of, first_input, advance_step, run_handler,
  settle,
}

module _ {W : Type 0} (run : WorkflowRunner W) where
  unfoldable pub run_activity :
      WorkflowInstance
      → WorkflowSpec W
      → ActivitySpec W
      → String
      → Dict
      → ℕ
      → Workflow W (Option WorkflowStatus)
  run_activity i spec a key input attempt = do
    outcome ← run_handler run a input attempt
    settle run i spec a key input attempt outcome

  unfoldable pub retry_activity :
      WorkflowInstance
      → WorkflowSpec W
      → ActivitySpec W
      → String
      → WorkflowStepAttempt
      → Workflow W (Option WorkflowStatus)
  retry_activity i spec a key p =
      if should_retry a.retry (category_of p.error_category) p.attempt
      then run_activity i spec a key p.input (p.attempt + 1)
      else (do
        put_instance (released (ended failed (error_result (message_of p.error_summary)) i))
        pure (some failed))

  -- What an earlier attempt of the step leads to.
  unfoldable pub step_after :
      WorkflowInstance
      → WorkflowSpec W
      → ActivitySpec W
      → String
      → Option WorkflowStepAttempt
      → Workflow W (Option WorkflowStatus)
  step_after i spec a key none = run_activity i spec a key (first_input i) 1
  step_after i spec a key (some p) = elim p.status [
    | executed ↦ (do advance_step run i spec; pure none)
    | failed_attempt ↦ retry_activity i spec a key p
  ]

  unfoldable pub step_with :
      WorkflowInstance
      → WorkflowSpec W
      → String
      → Option (ActivitySpec W)
      → Workflow W (Option WorkflowStatus)
  step_with i spec key none = do
    put_instance (ended failed (error_result (text_append "unknown step " key)) i)
    pure (some failed)
  step_with i spec key (some a) = do
    previous ← gets (λ s. last_attempt i.id key s.attempts)
    step_after i spec a key previous

  unfoldable pub step_at :
      WorkflowInstance → WorkflowSpec W → Option String → Workflow W (Option WorkflowStatus)
  step_at i spec none = do
    put_instance (released (ended completed (item "final" (boolean true) empty) i))
    pure (some completed)
  step_at i spec (some key) = step_with i spec key (activity key spec.activities)

  unfoldable pub step_instance : WorkflowInstance → Workflow W (Option WorkflowStatus)
  step_instance i =
      if is_terminal i.status
      then pure (some i.status)
      else (do spec ← require run i.workflow_key; step_at i spec i.current_step)

  -- `_step_once`
  unfoldable pub step_once : ℕ → Workflow W (Option WorkflowStatus)
  step_once id = do i ← get_instance id; step_instance i

  -- `advance`, each turn in its own unit of work: what earlier turns committed stays when a later one
  -- raises. `none` is a loop that has run out of fuel.
  unfoldable pub advance :
      ℕ → ℕ → WorkflowStore W → Result WorkflowError (Option WorkflowStatus) × WorkflowStore W
  advance zero id s = (ok none, s)
  advance (suc fuel) id s = elim (step_once id s) [
    | ok (some status, s') ↦ (ok (some status), s')
    | ok (none, s') ↦ advance fuel id s'
    | err e ↦ (err e, s)
  ]
