-- ===== src/Kernel/Workflow/Arrivals.antt =====
-- `start` and `deliver_signal` leave the attempts as they are.
use aiya_cms.Prelude.{
  ℕ, refl, String, Bool, true, false, not, Option, none, some, [], ◌∷◌, ◌&&◌, any, str_eq, first,
}
use aiya_cms.Prelude.Result.{Ensures, Ensures-ok, Ensures-found, Ensures-guard, Ensures-bind}
use aiya_cms.Prelude.Table.{get}
use aiya_cms.Kernel.Workflow.Model.{
  Dict, lookup, waiting_signal_key, is_terminal, is_waiting, workflow_invalid,
  workflow_unknown_signal, WorkflowInstance, WorkflowStore, WorkflowSpec, WorkflowRunner,
  instance_id, workflow_not_found, workflow_unknown, get_instance, put_instance, require,
}
use aiya_cms.Kernel.Workflow.Settle.{now}
use aiya_cms.Kernel.Workflow.Signals.{
  has_business_key, is_signal, awaits, find_by_business_key, add_instance, start_unless, start,
  add_signal, wake, wake_if, deliver_new, deliver_to, deliver_signal,
}
use aiya_cms.Kernel.Workflow.Executed.{OnlyLast}

module _ {W : Type 0} (run : WorkflowRunner W) where
  pub start-OnlyLast :
      (workflow key : String) (input : Dict) (s : WorkflowStore W)
      → OnlyLast s.attempts
      → Ensures (λ _ s'. OnlyLast s'.attempts) (start run workflow key input s)
  unfolding start require find_by_business_key start_unless add_instance now
  start-OnlyLast workflow key input s h =
      Ensures-found (run.registry workflow) workflow_unknown _ _ s
        λ spec _. by_existing spec (first (has_business_key workflow key) s.instances)
    where
      by_existing :
          (spec : WorkflowSpec W) (o : Option WorkflowInstance)
          → Ensures (λ _ s'. OnlyLast s'.attempts) (start_unless run spec workflow key input o s)
      by_existing spec (some i) = Ensures-ok _ _ i s refl h
      by_existing spec none =
          Ensures-guard (elim spec.activities [ [] ↦ true | _ ∷ _ ↦ false ]) workflow_invalid _ _ s
            (Ensures-ok _ _ _ _ refl h)

  pub deliver-OnlyLast :
      (id : ℕ) (key : String) (signal : ℕ) (payload : Dict) (s : WorkflowStore W)
      → OnlyLast s.attempts
      → Ensures (λ _ s'. OnlyLast s'.attempts) (deliver_signal run id key signal payload s)
  unfolding deliver_signal get_instance deliver_to require deliver_new add_signal wake_if wake
      put_instance now
  deliver-OnlyLast id key signal payload s h =
      Ensures-found (get instance_id id s.instances) workflow_not_found _ _ s
        λ i _. by_status i (is_terminal i.status)
    where
      by_wait :
          (i : WorkflowInstance) (spec : WorkflowSpec W) (b : Bool) (t : WorkflowStore W)
          → OnlyLast t.attempts
          → Ensures (λ _ s'. OnlyLast s'.attempts) (wake_if run b i spec key payload t)
      by_wait i spec true t h' = Ensures-ok _ _ tt _ refl h'
      by_wait i spec false t h' = Ensures-ok _ _ tt t refl h'

      by_stored :
          (i : WorkflowInstance) (spec : WorkflowSpec W) (b : Bool)
          → Ensures (λ _ s'. OnlyLast s'.attempts) (deliver_new run i spec key signal payload b s)
      by_stored i spec true = Ensures-ok _ _ false s refl h
      by_stored i spec false =
          Ensures-bind
            (by_wait i spec (is_waiting i.status && awaits key (lookup waiting_signal_key i.state))
              _ h)
            (λ _ s' h'. Ensures-ok _ _ true s' refl h')

      by_status :
          (i : WorkflowInstance) (b : Bool)
          → Ensures (λ _ s'. OnlyLast s'.attempts) (deliver_to run i key signal payload b s)
      by_status i true = Ensures-ok _ _ false s refl h
      by_status i false =
          Ensures-found (run.registry i.workflow_key) workflow_unknown _ _ s λ spec _.
            Ensures-guard (not (any (λ k. str_eq k key) spec.signal_keys)) workflow_unknown_signal _
              _ s (by_stored i spec (any (is_signal i.id key signal) s.signals))
