-- ===== src/Kernel/Workflow/Service.antt =====
-- The runner as a whole: starts, signals and runs, one after the other.
use aiya_cms.Prelude.{ℕ, String, Option, List, [], ◌∷◌}
use aiya_cms.Prelude.Result.{ok, err}
use aiya_cms.Kernel.Workflow.Model.{Dict, WorkflowStore, WorkflowRunner, Workflow}
use aiya_cms.Kernel.Workflow.Step.{advance}
use aiya_cms.Kernel.Workflow.Signals.{start, deliver_signal}
use aiya_cms.Kernel.Workflow.Runner.{run_due}

-- `fuel` bounds the loop of each `advance`.
pub data WorkflowCall : Type 0 where
  start_call : (workflow key : String) → Dict → WorkflowCall
  signal_call : ℕ → String → ℕ → Dict → WorkflowCall
  advance_call : (fuel id : ℕ) → WorkflowCall
  run_call : ℕ → Option String → ℕ → String → ℕ → WorkflowCall

module _ {W A : Type 0} where
  -- An exception leaves the store as it was.
  unfoldable pub in_unit_of_work : Workflow W A → WorkflowStore W → WorkflowStore W
  in_unit_of_work m s = elim (m s) [ ok (_, s') ↦ s' | err e ↦ s ]

module _ {W : Type 0} (run : WorkflowRunner W) where
  unfoldable pub handle : WorkflowCall → WorkflowStore W → WorkflowStore W
  unfolding in_unit_of_work
  handle (start_call workflow key input) s = in_unit_of_work (start run workflow key input) s
  handle (signal_call id key signal payload) s =
      in_unit_of_work (deliver_signal run id key signal payload) s
  handle (advance_call fuel id) s = (advance run fuel id s).1
  handle (run_call fuel key batch owner lease_seconds) s =
      (run_due run fuel key batch owner lease_seconds s).1

  unfoldable pub serve : List WorkflowCall → WorkflowStore W → WorkflowStore W
  unfolding handle
  serve [] s = s
  serve (call ∷ rest) s = serve rest (handle call s)
