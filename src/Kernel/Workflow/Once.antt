-- ===== src/Kernel/Workflow/Once.antt =====
-- Instances and signals are stored once: `start` and `deliver_signal` of
-- inc/kernel/workflow/runner.py, called again.
use aiya_cms.Prelude.{
  ℕ, ◌+◌, ◌≡◌, refl, sym, ap, ◌∙◌, String, Bool, true, false, not, Option, none, some, List,
  Bool-cases, inl, inr, [], ◌∷◌, ◌++◌, ◌&&◌, str_eq, first, any, any-last, first-append_none,
  eq_refl, ==_refl,
}
use aiya_cms.Prelude.Result.{
  ok, Ensures, Ensures-ok, Ensures-found, Ensures-passed, Ensures-map, Ensures-bind,
}
use aiya_cms.Prelude.Table.{get, put, get-put_self, key-get}
use aiya_cms.Kernel.Workflow.Model.{
  Dict, lookup, waiting_signal_key, is_terminal, is_waiting, WorkflowInstance, WorkflowStore,
  WorkflowSpec, WorkflowRunner, first_key, instance_id, workflow_not_found, workflow_unknown,
  workflow_invalid, workflow_unknown_signal, get_instance, put_instance, require,
}
use aiya_cms.Kernel.Workflow.Settle.{now}
use aiya_cms.Kernel.Workflow.Service.{WorkflowCall, serve}
use aiya_cms.Kernel.Workflow.Growth.{
  Numbered, Grown, get-workflow_at, workflow_at-get, first-started_id, started_id-first,
}
use aiya_cms.Kernel.Workflow.Served.{deliver-Grown, serve-Grown}
use aiya_cms.Kernel.Workflow.Signals.{
  has_business_key, is_signal, awaits, new_instance, signal_row, woken_row, step_past,
  find_by_business_key, add_instance, start_unless, start, add_signal, wake, wake_if, deliver_new,
  deliver_to, deliver_signal,
}

module _ {W : Type 0} (run : WorkflowRunner W) (workflow key : String) (input again : Dict) where
  start_found :
      (spec : WorkflowSpec W) (i : WorkflowInstance) (s : WorkflowStore W)
      → run.registry workflow ≡ some spec
      → first (has_business_key workflow key) s.instances ≡ some i
      → start run workflow key again s ≡ ok (i, s)
  unfolding start require find_by_business_key start_unless
  start_found spec i s known found = rw (known, found) refl

  -- The instance has the business key, of a workflow that is registered.
  abbrev IsStarted : WorkflowInstance → WorkflowStore W → Type 0
  IsStarted i s =
      (spec : WorkflowSpec W) × (run.registry workflow ≡ some spec)
      × (first (has_business_key workflow key) s.instances ≡ some i)

  IsStarted-again :
      (i : WorkflowInstance) (s t : WorkflowStore W)
      → IsStarted i s
      → Grown s t
      → (j : WorkflowInstance) × (start run workflow key again t ≡ ok (j, t)) × (j.id ≡ i.id)
  IsStarted-again i s t (spec, known, found) g =
      let (j, at, same) =
        started_id-first workflow key t.instances i.id
          (g.1 workflow key i.id (first-started_id workflow key s.instances i found)) in
      (j, start_found spec j t known at, same)

  add_instance-found :
      (spec : WorkflowSpec W) (s : WorkflowStore W)
      → first (has_business_key workflow key) s.instances ≡ none
      → Ensures
          (λ i s'. first (has_business_key workflow key) s'.instances ≡ some i)
          (add_instance run spec workflow key input s)
  unfolding add_instance now
  add_instance-found spec s absent =
      let i =
        new_instance workflow key input (first_key spec.activities) (run.utc_now s.world)
          s.next_id in
      Ensures-passed (elim spec.activities [ [] ↦ true | _ ∷ _ ↦ false ]) workflow_invalid _ _ s
        λ _.
          Ensures-ok _ _ i (record s { next_id = s.next_id + 1; instances = s.instances ++ i ∷ [] })
            refl
            (first-append_none (has_business_key workflow key) s.instances (i ∷ []) absent
              ∙ rw (eq_refl workflow, eq_refl key) refl)

  start-Ensures :
      (s : WorkflowStore W) → Ensures (λ i s'. IsStarted i s') (start run workflow key input s)
  unfolding start require find_by_business_key start_unless add_instance
  start-Ensures s =
      Ensures-found (run.registry workflow) workflow_unknown _ _ s λ spec known.
        by_existing spec known (first (has_business_key workflow key) s.instances) refl
    where
      by_existing :
          (spec : WorkflowSpec W)
          → run.registry workflow ≡ some spec
          → (o : Option WorkflowInstance) → first (has_business_key workflow key) s.instances ≡ o
          → Ensures (λ i s'. IsStarted i s') (start_unless run spec workflow key input o s)
      by_existing spec known none e =
          Ensures-map _ _ _ (λ i s' found. (spec, known, found)) (add_instance-found spec s e)
      by_existing spec known (some i) e = Ensures-ok _ _ i s refl (spec, known, e)

-- Starting a workflow again under the same business key, with whatever input and after whatever other
-- calls were served, gives the instance that the first call gave, and changes nothing.
pub start_once :
    {W : Type 0} (run : WorkflowRunner W) (workflow key : String) (input again : Dict)
    (s s' : WorkflowStore W) (i : WorkflowInstance) (calls : List WorkflowCall)
    → start run workflow key input s ≡ ok (i, s')
    → (j : WorkflowInstance) × (start run workflow key again (serve run calls s')
        ≡ ok (j, serve run calls s'))
      × (j.id ≡ i.id)
start_once run workflow key input again s s' i calls h =
    IsStarted-again run workflow key input again i s' (serve run calls s')
      ((start-Ensures run workflow key input again s).holds i s' h) (serve-Grown run calls s')

module _ {W : Type 0} (run : WorkflowRunner W) (workflow : ℕ) (key : String) (id : ℕ)
    (payload again : Dict) where
  -- The signal is stored for an instance that has not ended.
  record Stored (s : WorkflowStore W) : Type 0 where
    i : WorkflowInstance
    spec : WorkflowSpec W
    at : get instance_id workflow s.instances ≡ some i
    open_yet : is_terminal i.status ≡ false
    known : run.registry i.workflow_key ≡ some spec
    declared : not (any (λ k. str_eq k key) spec.signal_keys) ≡ false
    stored : any (is_signal i.id key id) s.signals ≡ true

  Stored-again :
      (s t : WorkflowStore W)
      → Stored s
      → Numbered s
      → Grown s t
      → deliver_signal run workflow key id again t ≡ ok (false, t)
  unfolding deliver_signal deliver_to deliver_new get_instance require
  Stored-again s t x n g =
      let (q, at, same) =
        workflow_at-get workflow t.instances x.i.workflow_key
          (g.0 workflow x.i.workflow_key (get-workflow_at workflow s.instances x.i x.at)) in
      let ids : x.i.id ≡ q.id =
        key-get instance_id workflow s.instances x.i x.at
        ∙ sym (key-get instance_id workflow t.instances q at) in
      let known : run.registry q.workflow_key ≡ some x.spec = ap run.registry same ∙ x.known in
      let stored : any (is_signal q.id key id) t.signals ≡ true =
        ap (λ w. any (is_signal w key id) t.signals) (sym ids) ∙ (g.2 n).1 x.i.id key id x.stored in
      elim (Bool-cases (is_terminal q.status)) [
        | inl e ↦ rw (at, e) refl
        | inr e ↦ rw (at, e, known, x.declared, stored) refl
      ]

  wake_if-Stored :
      (b : Bool) (i : WorkflowInstance) (spec : WorkflowSpec W) (s : WorkflowStore W)
      → get instance_id workflow s.instances ≡ some i
      → is_terminal i.status ≡ false
      → run.registry i.workflow_key ≡ some spec
      → not (any (λ k. str_eq k key) spec.signal_keys) ≡ false
      → any (is_signal i.id key id) s.signals ≡ true
      → Ensures (λ _ s'. Stored s') (wake_if run b i spec key payload s)
  unfolding wake_if wake put_instance now
  wake_if-Stored false i spec s at yet known declared stored = Ensures-ok _ _ tt s refl record {
    i = i;
    spec = spec;
    at = at;
    open_yet = yet;
    known = known;
    declared = declared;
    stored = stored;
  }
  wake_if-Stored true i spec s at yet known declared stored =
      let same = key-get instance_id workflow s.instances i at in
      let i' = woken_row (step_past spec i.current_step) key payload (run.utc_now s.world) i in
      Ensures-ok _ _ tt (record s { instances = put instance_id i' s.instances }) refl
        record {
          i = i';
          spec = spec;
          at =
              ap (λ j. get instance_id j (put instance_id i' s.instances)) (sym same)
              ∙ get-put_self instance_id i' i s.instances
                  (ap (λ j. get instance_id j s.instances) same ∙ at);
          open_yet = refl;
          known = known;
          declared = declared;
          stored = stored;
        }

  deliver-Ensures :
      (s : WorkflowStore W)
      → Ensures (λ new s'. new ≡ true → Stored s') (deliver_signal run workflow key id payload s)
  unfolding deliver_signal get_instance deliver_to require deliver_new add_signal
  deliver-Ensures s =
      Ensures-found (get instance_id workflow s.instances) workflow_not_found _ _ s
        λ i at. by_status i at (is_terminal i.status) refl
    where
      by_stored :
          (i : WorkflowInstance) (spec : WorkflowSpec W) (b : Bool)
          → get instance_id workflow s.instances ≡ some i
          → is_terminal i.status ≡ false
          → run.registry i.workflow_key ≡ some spec
          → not (any (λ k. str_eq k key) spec.signal_keys) ≡ false
          → Ensures (λ new s'. new ≡ true → Stored s') (deliver_new run i spec key id payload b s)
      by_stored i spec true at yet known declared = Ensures-ok _ _ false s refl (λ e. cc e)
      by_stored i spec false at yet known declared =
          Ensures-bind
            (wake_if-Stored (is_waiting i.status && awaits key (lookup waiting_signal_key i.state))
              i spec
              (record s {
                next_id = s.next_id + 1;
                signals = s.signals ++ signal_row s.next_id i.id key id payload ∷ [];
              })
              at yet known declared
              (any-last (is_signal i.id key id) s.signals (signal_row s.next_id i.id key id payload)
                (rw (==_refl i.id, eq_refl key, ==_refl id) refl)))
            (λ _ s' t. Ensures-ok _ _ true s' refl (λ _. t))

      by_status :
          (i : WorkflowInstance)
          → get instance_id workflow s.instances ≡ some i
          → (b : Bool) → is_terminal i.status ≡ b
          → Ensures (λ new s'. new ≡ true → Stored s') (deliver_to run i key id payload b s)
      by_status i at true yet = Ensures-ok _ _ false s refl (λ e. cc e)
      by_status i at false yet =
          Ensures-found (run.registry i.workflow_key) workflow_unknown _ _ s λ spec known.
            Ensures-passed (not (any (λ k. str_eq k key) spec.signal_keys)) workflow_unknown_signal
              _ _ s
              λ declared.
                by_stored i spec (any (is_signal i.id key id) s.signals) at yet known declared

-- In a store whose signals have distinct row ids, a signal that was stored, whether or not it has
-- been consumed, is not stored again: after whatever other calls were served, a call with its id, with
-- whatever payload, returns False and changes nothing.
pub deliver_once :
    {W : Type 0} (run : WorkflowRunner W) (workflow : ℕ) (key : String) (id : ℕ)
    (payload again : Dict) (s s' : WorkflowStore W) (calls : List WorkflowCall)
    → Numbered s
    → deliver_signal run workflow key id payload s ≡ ok (true, s')
    → deliver_signal run workflow key id again (serve run calls s') ≡ ok (false, serve run calls s')
deliver_once run workflow key id payload again s s' calls n h =
    let numbered = (((deliver-Grown run workflow key id payload s).holds true s' h).2 n).0 in
    Stored-again run workflow key id payload again s' (serve run calls s')
      ((deliver-Ensures run workflow key id payload again s).holds true s' h refl) numbered
      (serve-Grown run calls s')
