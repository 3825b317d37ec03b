-- ===== src/Kernel/Workflow/Tests.antt =====
-- The theorems on the workflow runner at concrete workflows, and runs of it.
use aiya_cms.Prelude.{
  ℕ, ◌+◌, ◌≤◌, ◌≡◌, refl, String, false, none, some, List, [], ◌∷◌, arith, map, ◌*◌, ◌^◌, inr, true,
}
use aiya_cms.Prelude.Result.{ok, err}
use aiya_cms.Prelude.Table.{get, put}
use aiya_cms.Kernel.Errors.{other_error, permanent, classify_retry}
use aiya_cms.Kernel.Retry.{RetryPolicy, should_retry, next_attempt_delay, backoff}
use aiya_cms.Kernel.Workflow.Model.{
  instance_id, empty, item, text, lookup, set_item, pop, HandlerEnd, returned, raised,
  session_broken, session_error, query_error, boolean, completed, failed, WorkflowInstance,
  WorkflowStore, ActivitySpec, WorkflowSpec, WorkflowRunner, activity, next_key, last_attempt,
  get_instance, put_instance, require,
}
use aiya_cms.Kernel.Workflow.Settle.{
  now, advance_to, advance_step, heard, run_handler, add_attempt, settle_failure, deliver,
  wait_or_go, after_result, settle,
}
use aiya_cms.Kernel.Workflow.Step.{
  run_activity, retry_activity, step_after, step_with, step_at, step_instance, step_once, advance,
}
use aiya_cms.Kernel.Workflow.Signals.{
  find_by_business_key, add_instance, start_unless, start, new_instance, signal_row, add_signal,
  wake, wake_if, deliver_new, deliver_to, deliver_signal,
}
use aiya_cms.Kernel.Workflow.Service.{
  WorkflowCall, start_call, signal_call, advance_call, run_call, in_unit_of_work, handle, serve,
}
use aiya_cms.Kernel.Workflow.Termination.{Concludes, advance_ends}
use aiya_cms.Kernel.Workflow.Runner.{is_due, lease_rows, sort_instances, claim_due}
use aiya_cms.Kernel.Workflow.Claims.{claim_due-keeps}
use aiya_cms.Kernel.Workflow.Once.{start_once, deliver_once}
use aiya_cms.Kernel.Workflow.Executed.{executions}
use aiya_cms.Kernel.Workflow.History.{executed_once}

abbrev policy : RetryPolicy
policy = record {
  max_attempts = 2;
  base_delay = 1;
  max_delay = 9;
  scaled = λ base n. base * 2 ^ n;
  jitter = 0;
  permanent_categories = permanent ∷ [];
}

-- The outside world counts the calls of the handlers.
abbrev asking : String → ActivitySpec ℕ
asking key = record {
  key = key;
  retry = policy;
  handler =
      some (λ input attempt w. (returned (item "wait_for_signal" (text "paid") empty), w + 1));
}

abbrev failing : ActivitySpec ℕ
failing = record {
  key = "ship";
  retry = policy;
  handler = some (λ input attempt w. (raised other_error, w + 1));
}

abbrev shop : WorkflowSpec ℕ
shop = record {
  key = "shop";
  activities = asking "ask" ∷ asking "ask_again" ∷ [];
  signal_keys = "paid" ∷ [];
}

abbrev shipping : WorkflowSpec ℕ
shipping = record {
  key = "shop";
  activities = asking "ask" ∷ failing ∷ [];
  signal_keys = "paid" ∷ [];
}

abbrev runner_of : WorkflowSpec ℕ → WorkflowRunner ℕ
runner_of spec = record {
  registry = λ key. some spec;
  utc_now = λ w. w;
  jitter = λ w. 0;
  describe = λ e. "boom";
}

abbrev nothing : WorkflowStore ℕ
nothing = record { instances = []; attempts = []; signals = []; next_id = 0; world = 10 }

abbrev first_row : WorkflowInstance
first_row = new_instance "shop" "order-1" empty (some "ask") 10 0

abbrev started : WorkflowStore ℕ
started = record nothing { instances = first_row ∷ []; next_id = 1 }

abbrev signalled : WorkflowStore ℕ
signalled = record started { next_id = 2; signals = signal_row 1 0 "paid" 9 empty ∷ [] }

advance_ends_example : Concludes (runner_of shop) shop (advance (runner_of shop) 3 0 started)
unfolding get activity
advance_ends_example =
    advance_ends (runner_of shop) shop 3 0 started first_row refl refl (refl, (refl, tt))
      (omega arith)

abbrev calls : List WorkflowCall
calls =
    start_call "shop" "order-1" empty
    ∷ advance_call 5 0
    ∷ signal_call 0 "paid" 9 empty
    ∷ signal_call 0 "paid" 9 empty
    ∷ run_call 5 none 10 "worker" 60
    ∷ advance_call 5 0
    ∷ []

executed_once_example : executions 0 "ask" (serve (runner_of shipping) calls nothing).attempts ≤ 1
executed_once_example = executed_once (runner_of shipping) calls nothing 0 "ask" refl

start_once_example :
    (j : WorkflowInstance) × (start
        (runner_of shop)
        "shop"
        "order-1"
        (item "a" (text "b") empty)
        (serve (runner_of shop) calls started)
      ≡ ok (j, serve (runner_of shop) calls started))
    × (j.id ≡ 0)
unfolding start require find_by_business_key start_unless add_instance now
start_once_example =
    start_once (runner_of shop) "shop" "order-1" empty (item "a" (text "b") empty) nothing started
      first_row calls refl

deliver_once_example :
    deliver_signal
      (runner_of shop)
      0
      "paid"
      9
      (item "a" (text "b") empty)
      (serve (runner_of shop) calls signalled)
    ≡ ok (false, serve (runner_of shop) calls signalled)
unfolding deliver_signal deliver_to deliver_new add_signal wake_if wake get_instance put_instance
    require now get put lookup
deliver_once_example =
    deliver_once (runner_of shop) 0 "paid" 9 empty (item "a" (text "b") empty) started signalled
      calls (tt, λ i l. refl) refl

abbrev lone : WorkflowSpec ℕ
lone = record { key = "shop"; activities = asking "ask" ∷ []; signal_keys = "paid" ∷ [] }

-- A waiting workflow that is advanced directly goes past its wait: no signal was delivered.
advance_past_wait :
    map
      (λ i. i.status)
      (serve
        (runner_of lone)
        (start_call "shop" "k" empty ∷ advance_call 5 0 ∷ advance_call 5 0 ∷ [])
        nothing).instances
    ≡ completed ∷ []
unfolding advance step_once step_instance step_at step_with step_after run_activity run_handler
    heard settle add_attempt after_result wait_or_go deliver advance_step advance_to settle_failure
    retry_activity now get_instance put_instance require get put activity next_key last_attempt
    lookup set_item pop start find_by_business_key start_unless add_instance deliver_signal
    deliver_to deliver_new add_signal wake_if wake in_unit_of_work handle serve
advance_past_wait = refl

-- One signal serves two waits: the call that wakes the workflow does not mark it as delivered.
one_signal_two_waits :
    map
      (λ i. i.status)
      (serve
        (runner_of shop)
        (start_call "shop" "k" empty
          ∷ advance_call 5 0
          ∷ signal_call 0 "paid" 9 empty
          ∷ advance_call 5 0
          ∷ [])
        nothing).instances
    ≡ completed ∷ []
unfolding advance step_once step_instance step_at step_with step_after run_activity run_handler
    heard settle add_attempt after_result wait_or_go deliver advance_step advance_to settle_failure
    retry_activity now get_instance put_instance require get put activity next_key last_attempt
    lookup set_item pop start find_by_business_key start_unless add_instance deliver_signal
    deliver_to deliver_new add_signal wake_if wake in_unit_of_work handle serve
one_signal_two_waits = refl

-- A step that keeps raising fails its workflow at the last attempt.
attempts_run_out :
    map
      (λ i. i.status)
      (serve
        (runner_of shipping)
        (start_call "shop" "k" empty
          ∷ advance_call 5 0
          ∷ signal_call 0 "paid" 9 empty
          ∷ advance_call 5 0
          ∷ advance_call 5 0
          ∷ [])
        nothing).instances
    ≡ failed ∷ []
unfolding advance step_once step_instance step_at step_with step_after run_activity run_handler
    heard settle add_attempt after_result wait_or_go deliver advance_step advance_to settle_failure
    retry_activity now get_instance put_instance require get put activity next_key last_attempt
    lookup set_item pop start find_by_business_key start_unless add_instance deliver_signal
    deliver_to deliver_new add_signal wake_if wake in_unit_of_work handle serve should_retry
    next_attempt_delay backoff classify_retry
attempts_run_out = refl

-- A handler that breaks its session ends the loop with the exception, and so does one that waits for
-- a signal whose key is not a text; neither attempt is recorded.
abbrev odd_handler : HandlerEnd → WorkflowSpec ℕ
odd_handler end = record {
  key = "shop";
  activities =
      record { key = "ask"; retry = policy; handler = some (λ input attempt w. (end, w + 1)) } ∷ [];
  signal_keys = [];
}

raises_out :
    (advance (runner_of (odd_handler session_broken)) 3 0 started ≡ (err session_error, started))
    × (advance
          (runner_of (odd_handler (returned (item "wait_for_signal" (boolean true) empty))))
          3
          0
          started
        ≡ (err query_error, started))
unfolding advance step_once step_instance step_at step_with step_after run_activity run_handler
    heard settle add_attempt after_result get_instance require get activity last_attempt lookup
    set_item
raises_out = (refl, refl)

abbrev leased : WorkflowInstance
leased = record first_row { lease_owner = some "anna"; lease_expires_at = some 99 }

abbrev one_leased : WorkflowStore ℕ
one_leased = record started { instances = leased ∷ [] }

-- Under a lease until 99, the row is not claimed at 50.
claim_due-keeps_example : get instance_id 0 one_leased.instances ≡ some leased
unfolding claim_due is_due lease_rows sort_instances get
claim_due-keeps_example =
    claim_due-keeps (runner_of shop) 10 "bert" 60 50 0 one_leased one_leased [] leased refl refl
      (inr (inr (inr (99, refl, omega arith))))
