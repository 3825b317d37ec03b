-- ===== src/Kernel/Workflow/History.antt =====
-- A step that was executed is not executed again, whatever is started, signalled and run.
use aiya_cms.Prelude.{
  ℕ, zero, suc, ◌≤◌, ◌≡◌, refl, String, Bool, true, false, Option, none, some, List, [], ◌∷◌, arith,
}
use aiya_cms.Prelude.Result.{Result, ok, err, Ensures, Ensures-ok, Ensures-found, Ensures-if}
use aiya_cms.Prelude.Table.{get}
use aiya_cms.Kernel.Workflow.Model.{
  WorkflowStatus, is_terminal, WorkflowError, WorkflowInstance, WorkflowStore, ActivitySpec,
  WorkflowSpec, WorkflowRunner, Workflow, instance_id, activity, last_attempt, workflow_not_found,
  workflow_unknown, get_instance, put_instance, require,
}
use aiya_cms.Kernel.Workflow.Step.{step_with, step_at, step_instance, step_once, advance}
use aiya_cms.Kernel.Workflow.Signals.{start, deliver_signal}
use aiya_cms.Kernel.Workflow.Runner.{
  is_skipped, one_more, and_more, claim_due, advance_all, run_due,
}
use aiya_cms.Kernel.Workflow.Service.{
  WorkflowCall, start_call, signal_call, advance_call, run_call, in_unit_of_work, handle, serve,
}
use aiya_cms.Kernel.Workflow.Executed.{executions, OnlyLast, ran_at_most_once}
use aiya_cms.Kernel.Workflow.Arrivals.{start-OnlyLast, deliver-OnlyLast}
use aiya_cms.Kernel.Workflow.Attempts.{step_after-OnlyLast}

module _ {W : Type 0} where
  one_more-store :
      (r : Result WorkflowError ℕ × WorkflowStore W)
      → OnlyLast r.1.attempts
      → OnlyLast (one_more r).1.attempts
  one_more-store (ok n, s) h = h
  one_more-store (err e, s) h = h

  and_more-OnlyLast :
      (more : WorkflowStore W → Result WorkflowError ℕ × WorkflowStore W)
      (r : Result WorkflowError (Option WorkflowStatus) × WorkflowStore W)
      → ((t : WorkflowStore W) → OnlyLast t.attempts → OnlyLast (more t).1.attempts)
      → OnlyLast r.1.attempts
      → OnlyLast (and_more more r).1.attempts
  and_more-OnlyLast more (ok _, s) k h = one_more-store (more s) (k s h)
  and_more-OnlyLast more (err e, s) k h = h

module _ {W : Type 0} (run : WorkflowRunner W) where
  step_at-OnlyLast :
      (i : WorkflowInstance) (spec : WorkflowSpec W) (o : Option String) (s : WorkflowStore W)
      → OnlyLast s.attempts
      → Ensures (λ _ s'. OnlyLast s'.attempts) (step_at run i spec o s)
  unfolding step_at step_with put_instance
  step_at-OnlyLast i spec none s h = Ensures-ok _ _ _ _ refl h
  step_at-OnlyLast i spec (some key) s h = by_activity (activity key spec.activities)
    where
      by_activity :
          (o : Option (ActivitySpec W))
          → Ensures (λ _ s'. OnlyLast s'.attempts) (step_with run i spec key o s)
      by_activity none = Ensures-ok _ _ _ _ refl h
      by_activity (some a) =
          step_after-OnlyLast run spec i a key (last_attempt i.id key s.attempts) s h refl

  step_once-OnlyLast :
      (id : ℕ) (s : WorkflowStore W)
      → OnlyLast s.attempts
      → Ensures (λ _ s'. OnlyLast s'.attempts) (step_once run id s)
  unfolding step_once step_instance get_instance require
  step_once-OnlyLast id s h =
      Ensures-found (get instance_id id s.instances) workflow_not_found _ _ s λ i _.
        Ensures-if (is_terminal i.status) _ _ _ s (λ _. Ensures-ok _ _ _ s refl h)
          λ _.
            Ensures-found (run.registry i.workflow_key) workflow_unknown _ _ s
              λ spec _. step_at-OnlyLast i spec i.current_step s h

  advance-OnlyLast :
      (n id : ℕ) (s : WorkflowStore W)
      → OnlyLast s.attempts
      → OnlyLast (advance run n id s).1.attempts
  unfolding advance
  advance-OnlyLast zero id s h = h
  advance-OnlyLast (suc n) id s h =
      by_turn (step_once run id s) refl (λ s'. advance-OnlyLast n id s')
    where
      by_turn :
          (r : Result WorkflowError (Option WorkflowStatus × WorkflowStore W))
          → step_once run id s ≡ r
          → ((s' : WorkflowStore W)
              → OnlyLast s'.attempts
              → OnlyLast (advance run n id s').1.attempts)
          → OnlyLast (advance run (suc n) id s).1.attempts
      by_turn (ok (some status, s')) e k =
          rw (e, advance) ((step_once-OnlyLast id s h).holds (some status) s' e)
      by_turn (ok (none, s')) e k =
          rw (e, advance) (k s' ((step_once-OnlyLast id s h).holds none s' e))
      by_turn (err x) e k = rw (e, advance) h

  advance_all-OnlyLast :
      (fuel : ℕ) (key : Option String) (l : List WorkflowInstance) (s : WorkflowStore W)
      → OnlyLast s.attempts
      → OnlyLast (advance_all run fuel key l s).1.attempts
  unfolding advance_all
  advance_all-OnlyLast fuel key [] s h = h
  advance_all-OnlyLast fuel key (i ∷ rest) s h =
      by_key (is_skipped key i) refl (λ s'. advance_all-OnlyLast fuel key rest s')
    where
      more : WorkflowStore W → Result WorkflowError ℕ × WorkflowStore W
      more = advance_all run fuel key rest

      by_key :
          (b : Bool)
          → is_skipped key i ≡ b
          → ((t : WorkflowStore W) → OnlyLast t.attempts → OnlyLast (more t).1.attempts)
          → OnlyLast (advance_all run fuel key (i ∷ rest) s).1.attempts
      by_key true e k = rw (e, advance_all) (k s h)
      by_key false e k =
          rw (e, advance_all)
            (and_more-OnlyLast more (advance run fuel i.id s) k (advance-OnlyLast fuel i.id s h))

  run_due-OnlyLast :
      (fuel : ℕ) (key : Option String) (batch : ℕ) (owner : String) (lease_seconds : ℕ)
      (s : WorkflowStore W)
      → OnlyLast s.attempts
      → OnlyLast (run_due run fuel key batch owner lease_seconds s).1.attempts
  unfolding run_due claim_due
  run_due-OnlyLast fuel key batch owner lease_seconds s h = advance_all-OnlyLast fuel key _ _ h

module _ {W A : Type 0} where
  unit_of_work-OnlyLast :
      (m : Workflow W A) (s : WorkflowStore W)
      → OnlyLast s.attempts
      → Ensures (λ _ s'. OnlyLast s'.attempts) (m s)
      → OnlyLast (in_unit_of_work m s).attempts
  unfolding in_unit_of_work
  unit_of_work-OnlyLast m s h k = by_result (m s) refl
    where
      by_result :
          (r : Result WorkflowError (A × WorkflowStore W))
          → m s ≡ r
          → OnlyLast (in_unit_of_work m s).attempts
      by_result (ok (a, s')) e = rw (e, in_unit_of_work) (k.holds a s' e)
      by_result (err x) e = rw (e, in_unit_of_work) h

module _ {W : Type 0} (run : WorkflowRunner W) where
  handle-OnlyLast :
      (call : WorkflowCall) (s : WorkflowStore W)
      → OnlyLast s.attempts
      → OnlyLast (handle run call s).attempts
  unfolding handle
  handle-OnlyLast (start_call workflow key input) s h =
      unit_of_work-OnlyLast (start run workflow key input) s h
        (start-OnlyLast run workflow key input s h)
  handle-OnlyLast (signal_call id key signal payload) s h =
      unit_of_work-OnlyLast (deliver_signal run id key signal payload) s h
        (deliver-OnlyLast run id key signal payload s h)
  handle-OnlyLast (advance_call fuel id) s h = advance-OnlyLast run fuel id s h
  handle-OnlyLast (run_call fuel key batch owner lease_seconds) s h =
      run_due-OnlyLast run fuel key batch owner lease_seconds s h

  serve-OnlyLast :
      (calls : List WorkflowCall) (s : WorkflowStore W)
      → OnlyLast s.attempts
      → OnlyLast (serve run calls s).attempts
  unfolding serve
  serve-OnlyLast [] s h = h
  serve-OnlyLast (call ∷ rest) s h =
      serve-OnlyLast rest (handle run call s) (handle-OnlyLast call s h)

-- From a store without attempts on, whatever is started, signalled and run, in whatever order and
-- with whatever fuel: each step of each instance has at most one executed attempt, so a step that
-- was executed is never executed again.
pub executed_once :
    {W : Type 0} (run : WorkflowRunner W) (calls : List WorkflowCall) (s : WorkflowStore W)
    (workflow : ℕ) (key : String)
    → s.attempts ≡ []
    → executions workflow key (serve run calls s).attempts ≤ 1
unfolding last_attempt
executed_once run calls s workflow key e =
    let h : OnlyLast s.attempts = λ w k. rw e refl in
    let t = (serve run calls s).attempts in
    omega (
      arith,
      serve-OnlyLast run calls s h workflow key,
      ran_at_most_once (last_attempt workflow key t),
    )
