-- ===== src/Kernel/Workflow/Settle.antt =====
-- What a turn of `_step_once` writes: the attempt, the wait and the next step (`_advance_step` of
-- inc/kernel/workflow/runner.py).
use aiya_cms.Prelude.{
  ℕ, ◌+◌, String, true, false, Option, none, some, List, [], ◌∷◌, ◌++◌, if◌then◌else◌,
}
use aiya_cms.Prelude.Result.{Result, ok, err, pure, raise, gets, modify, raise_if, ◌>>=◌, ◌>>◌}
use aiya_cms.Prelude.Table.{put}
use aiya_cms.Kernel.Errors.{Raised, RetryCategory, transient, classify_retry}
use aiya_cms.Kernel.Retry.{should_retry, next_attempt_delay}
use aiya_cms.Kernel.Workflow.Model.{
  Json, null, boolean, text, object, other, HandlerEnd, returned, raised, session_broken,
  WorkflowStore, WorkflowError, session_error, query_error, Dict, empty, item, lookup, set_item,
  dict_or_empty, waiting_signal_key, WorkflowStatus, completed, failed, waiting, executed,
  failed_attempt, WorkflowInstance, WorkflowStepAttempt, WorkflowSignal, ActivitySpec, WorkflowSpec,
  WorkflowRunner, value_error, activity, next_key, undelivered_signals, Workflow, signal_row_id,
  put_instance,
}

-- The instance without its lease.
abbrev pub released : WorkflowInstance → WorkflowInstance
released i = record i { lease_owner = none; lease_expires_at = none }

abbrev pub ended : WorkflowStatus → Dict → WorkflowInstance → WorkflowInstance
ended status result i = record i { status = status; result = some result }

abbrev pub error_result : String → Dict
error_result message = item "error" (text message) empty

abbrev pub message_of : Option String → String
message_of none = "step failed"
message_of (some summary) = summary

abbrev pub category_of : Option RetryCategory → RetryCategory
category_of none = transient
category_of (some category) = category

-- What `result.get("wait_for_signal")` asks for.
pub data Wait : Type 0 where
  no_wait : Wait
  wait_for : String → Wait
  not_a_key : Wait

abbrev pub wait_key : Option Json → Wait
wait_key none = no_wait
wait_key (some null) = no_wait
wait_key (some (text key)) = wait_for key
wait_key (some (boolean b)) = not_a_key
wait_key (some (object d)) = not_a_key
wait_key (some (other n)) = not_a_key

-- `{"workflow": instance.input.data, "state": instance.state.data}`
abbrev pub first_input : WorkflowInstance → Dict
first_input i = item "workflow" (object i.input) (item "state" (object i.state) empty)

abbrev pub with_signal : String → Dict → Dict → Dict
with_signal key payload state =
    set_item "signals"
      (object (set_item key (object payload) (dict_or_empty (lookup "signals" state)))) state

module _ {W : Type 0} where
  -- What the runner hears of a handler. A broken session raises before anything is committed.
  unfoldable pub heard :
      WorkflowStore W → HandlerEnd × W → Result WorkflowError (Result Raised Dict × WorkflowStore W)
  heard s (returned result, world) = ok (ok result, record s { world = world })
  heard s (raised e, world) = ok (err e, record s { world = world })
  heard s (session_broken, world) = err session_error

module _ {W : Type 0} (run : WorkflowRunner W) where
  unfoldable pub now : Workflow W ℕ
  now = gets λ s. run.utc_now s.world

  -- `_advance_step`, which writes the row back.
  unfoldable pub advance_to :
      WorkflowInstance → WorkflowSpec W → Option String → Workflow W (Unit {0})
  advance_to i spec none = put_instance (record i { status = completed })
  advance_to i spec (some key) = do
    raise_if (elim (activity key spec.activities) [ none ↦ true | some _ ↦ false ]) value_error
    at ← now
    put_instance (record i { current_step = next_key key spec.activities; wake_at = some at })

  unfoldable pub advance_step : WorkflowInstance → WorkflowSpec W → Workflow W (Unit {0})
  advance_step i spec = advance_to i spec i.current_step

  -- The handler of an activity; one without a handler does nothing.
  unfoldable pub run_handler : ActivitySpec W → Dict → ℕ → Workflow W (Result Raised Dict)
  unfolding heard
  run_handler a input attempt s = elim a.handler [
    | none ↦ ok (ok (item "noop" (boolean true) empty), s)
    | some handler ↦ heard s (handler input attempt s.world)
  ]

  unfoldable pub add_attempt : WorkflowStepAttempt → Workflow W (Unit {0})
  add_attempt a = modify λ s. record s { attempts = s.attempts ++ a ∷ [] }

  abbrev pub attempt_row : WorkflowInstance → String → Dict → ℕ → WorkflowStepAttempt
  attempt_row i key input attempt = record {
    workflow_id = i.id;
    step_key = key;
    attempt = attempt;
    status = executed;
    input = input;
    result = none;
    error_category = none;
    error_summary = none;
  }

  abbrev pub failed_attempt_row :
      WorkflowInstance → String → Dict → ℕ → Raised → WorkflowStepAttempt
  failed_attempt_row i key input attempt e = record (attempt_row i key input attempt) {
    status = failed_attempt;
    error_category = some (classify_retry e);
    error_summary = some (run.describe e);
  }

  -- After a handler that raised: the instance fails, or is due again after the delay.
  unfoldable pub settle_failure :
      WorkflowInstance → ActivitySpec W → ℕ → Raised → Workflow W (Option WorkflowStatus)
  settle_failure i a attempt e =
      if should_retry a.retry (classify_retry e) attempt
      then (do
        at ← now
        sample ← gets (λ s. run.jitter s.world)
        put_instance (
            released (record i {
              step_attempt = attempt;
              wake_at = some (at + next_attempt_delay a.retry (classify_retry e) attempt sample);
            }))
        pure (some i.status))
      else (do
        put_instance (
            released
              (ended failed (error_result (run.describe e)) (record i { step_attempt = attempt })))
        pure (some failed))

  -- The instance with the step's result, waiting for a signal.
  abbrev pub waiting_row : String → WorkflowInstance → WorkflowInstance
  waiting_row key i = released (record i {
    status = waiting;
    state = set_item waiting_signal_key (text key) i.state;
    wake_at = none;
  })

  unfoldable pub deliver : WorkflowSignal → ℕ → Workflow W (Unit {0})
  deliver signal at = modify λ s. record s {
    signals = put signal_row_id (record signal { delivered_at = some at }) s.signals;
  }

  unfoldable pub wait_or_go :
      WorkflowInstance
      → WorkflowSpec W
      → String
      → List WorkflowSignal
      → Workflow W (Option WorkflowStatus)
  wait_or_go i spec key [] = do put_instance (waiting_row key i); pure (some waiting)
  wait_or_go i spec key (signal ∷ _) = do
    at ← now
    deliver signal at
    advance_step (record i { state = with_signal signal.signal_key signal.payload i.state }) spec
    pure none

  -- The query for the signals refuses a key that is not a text.
  unfoldable pub after_result :
      WorkflowInstance → WorkflowSpec W → Wait → Workflow W (Option WorkflowStatus)
  after_result i spec no_wait = do advance_step i spec; pure none
  after_result i spec not_a_key = raise query_error
  after_result i spec (wait_for key) = do
    signals ← gets (λ s. undelivered_signals i.id key s.signals)
    wait_or_go i spec key signals

  unfoldable pub settle :
      WorkflowInstance
      → WorkflowSpec W
      → ActivitySpec W
      → String
      → Dict
      → ℕ
      → Result Raised Dict
      → Workflow W (Option WorkflowStatus)
  settle i spec a key input attempt (err e) = do
    add_attempt (failed_attempt_row i key input attempt e)
    settle_failure i a attempt e
  settle i spec a key input attempt (ok result) = do
    add_attempt (record (attempt_row i key input attempt) { result = some result })
    after_result (record i { state = set_item key (object result) i.state; step_attempt = attempt })
        spec (wait_key (lookup "wait_for_signal" result))
