-- ===== src/Kernel/Workflow/Signals.antt =====
-- `WorkflowRunner.start`, `find_by_business_key` and `deliver_signal` (inc/kernel/workflow/runner.py).
use aiya_cms.Prelude.{
  ℕ, ◌+◌, String, Bool, true, false, not, Option, none, some, [], ◌∷◌, ◌++◌, ◌&&◌, ◌==◌, str_eq,
  first, any,
}
use aiya_cms.Prelude.Result.{pure, gets, modify, raise_if, ◌>>=◌, ◌>>◌}
use aiya_cms.Kernel.Workflow.Model.{
  Json, text, Dict, empty, lookup, pop, waiting_signal_key, pending, is_terminal, is_waiting,
  WorkflowInstance, WorkflowSignal, WorkflowSpec, WorkflowRunner, workflow_invalid,
  workflow_unknown_signal, first_key, next_key, Workflow, get_instance, put_instance, require,
}
use aiya_cms.Kernel.Workflow.Settle.{now, with_signal}

-- The unique business key of an instance.
abbrev pub has_business_key : String → String → WorkflowInstance → Bool
has_business_key workflow key i =
    str_eq i.workflow_key workflow && str_eq i.business_idempotency_key key

abbrev pub is_signal : ℕ → String → ℕ → WorkflowSignal → Bool
is_signal workflow key id r =
    (r.workflow_id == workflow) && str_eq r.signal_key key && (r.signal_id == id)

-- `instance.state.data.get("waiting_for") == signal_key`
abbrev pub awaits : String → Option Json → Bool
awaits key (some (text k)) = str_eq k key
awaits key _ = false

-- The state after a signal that was waited for.
abbrev pub woken_state : String → Dict → Dict → Dict
woken_state key payload state = pop waiting_signal_key (with_signal key payload state)

abbrev pub new_instance : String → String → Dict → Option String → ℕ → ℕ → WorkflowInstance
new_instance workflow key input step at id = record {
  id = id;
  workflow_key = workflow;
  business_idempotency_key = key;
  status = pending;
  input = input;
  state = empty;
  current_step = step;
  step_attempt = 0;
  wake_at = some at;
  result = none;
  lease_owner = none;
  lease_expires_at = none;
}

abbrev pub signal_row : ℕ → ℕ → String → ℕ → Dict → WorkflowSignal
signal_row row workflow key id payload = record {
  id = row;
  workflow_id = workflow;
  signal_key = key;
  signal_id = id;
  payload = payload;
  delivered_at = none;
}

-- A waiting instance with a signal, at the next step.
abbrev pub woken_row : Option String → String → Dict → ℕ → WorkflowInstance → WorkflowInstance
woken_row step key payload at i = record i {
  state = woken_state key payload i.state;
  current_step = step;
  status = pending;
  wake_at = some at;
}

module _ {W : Type 0} where
  abbrev pub step_past : WorkflowSpec W → Option String → Option String
  step_past spec none = none
  step_past spec (some key) = next_key key spec.activities

module _ {W : Type 0} (run : WorkflowRunner W) where
  -- `find_by_business_key`
  unfoldable pub find_by_business_key : String → String → Workflow W (Option WorkflowInstance)
  find_by_business_key workflow key = gets λ s. first (has_business_key workflow key) s.instances

  unfoldable pub add_instance :
      WorkflowSpec W → String → String → Dict → Workflow W WorkflowInstance
  add_instance spec workflow key input = do
    raise_if (elim spec.activities [ [] ↦ true | _ ∷ _ ↦ false ]) workflow_invalid
    at ← now run
    id ← gets (λ s. s.next_id)
    let i : WorkflowInstance = new_instance workflow key input (first_key spec.activities) at id
    modify (λ s. record s { next_id = s.next_id + 1; instances = s.instances ++ i ∷ [] })
    pure i

  -- `start`
  unfoldable pub start_unless :
      WorkflowSpec W
      → String
      → String
      → Dict
      → Option WorkflowInstance
      → Workflow W WorkflowInstance
  start_unless spec workflow key input (some existing) = pure existing
  start_unless spec workflow key input none = add_instance spec workflow key input

  unfoldable pub start : String → String → Dict → Workflow W WorkflowInstance
  start workflow key input = do
    spec ← require run workflow
    existing ← find_by_business_key workflow key
    start_unless spec workflow key input existing

  unfoldable pub add_signal : ℕ → String → ℕ → Dict → Workflow W (Unit {0})
  add_signal workflow key id payload = modify λ s. record s {
    next_id = s.next_id + 1;
    signals = s.signals ++ signal_row s.next_id workflow key id payload ∷ [];
  }

  -- A waiting instance goes past the step that waits.
  unfoldable pub wake : WorkflowInstance → WorkflowSpec W → String → Dict → Workflow W (Unit {0})
  wake i spec key payload = do
    at ← now run
    put_instance (woken_row (step_past spec i.current_step) key payload at i)

  unfoldable pub wake_if :
      Bool → WorkflowInstance → WorkflowSpec W → String → Dict → Workflow W (Unit {0})
  wake_if true i spec key payload = wake i spec key payload
  wake_if false i spec key payload = pure tt

  unfoldable pub deliver_new :
      WorkflowInstance → WorkflowSpec W → String → ℕ → Dict → Bool → Workflow W Bool
  deliver_new i spec key id payload true = pure false
  deliver_new i spec key id payload false = do
    add_signal i.id key id payload
    wake_if (is_waiting i.status && awaits key (lookup waiting_signal_key i.state)) i spec key
        payload
    pure true

  unfoldable pub deliver_to : WorkflowInstance → String → ℕ → Dict → Bool → Workflow W Bool
  deliver_to i key id payload true = pure false
  deliver_to i key id payload false = do
    spec ← require run i.workflow_key
    raise_if (not (any (λ k. str_eq k key) spec.signal_keys)) workflow_unknown_signal
    existing ← gets (λ s. any (is_signal i.id key id) s.signals)
    deliver_new i spec key id payload existing

  -- `deliver_signal`, with the id that the caller or uuid7 gives; whether the signal is new.
  unfoldable pub deliver_signal : ℕ → String → ℕ → Dict → Workflow W Bool
  deliver_signal workflow key id payload = do
    i ← get_instance workflow
    deliver_to i key id payload (is_terminal i.status)
