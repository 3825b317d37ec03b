-- ===== src/Kernel/Workflow/Served.antt =====
-- Whatever is started, signalled and run, no instance and no signal is taken back.
use aiya_cms.Prelude.{
  ℕ, ◌+◌, ◌≡◌, ◌∙◌, refl, ap, String, Bool, true, false, not, ◌&&◌, Option, none, some, List, [],
  ◌∷◌, ◌++◌, arith, any, first, str_eq, seconds, take, select, map,
}
use aiya_cms.Prelude.Result.{
  Result, ok, err, Ensures, Ensures-ok, Ensures-bind, Ensures-found, Ensures-guard,
}
use aiya_cms.Prelude.Table.{get, key-get, get-append_ne}
use aiya_cms.Prelude.Distinct.{Distinct-append}
use aiya_cms.Kernel.Workflow.Model.{
  Dict, lookup, Workflow, WorkflowError, WorkflowStatus, waiting_signal_key, is_terminal,
  is_waiting, workflow_invalid, workflow_unknown_signal, workflow_not_found, workflow_unknown,
  WorkflowInstance, WorkflowSignal, WorkflowStore, WorkflowSpec, WorkflowRunner, instance_id,
  signal_row_id, get_instance, require,
}
use aiya_cms.Kernel.Workflow.Settle.{now}
use aiya_cms.Kernel.Workflow.Step.{advance}
use aiya_cms.Kernel.Workflow.Signals.{
  has_business_key, is_signal, awaits, signal_row, find_by_business_key, add_instance, start_unless,
  start, add_signal, wake, wake_if, deliver_new, deliver_to, deliver_signal,
}
use aiya_cms.Kernel.Workflow.Runner.{
  is_due, is_among, wakes_before, id_before, sort_instances, lease_rows, is_skipped, one_more,
  and_more, claim_due, advance_all, run_due,
}
use aiya_cms.Kernel.Workflow.Service.{
  WorkflowCall, start_call, signal_call, advance_call, run_call, in_unit_of_work, handle, serve,
}
use aiya_cms.Kernel.Workflow.Growth.{
  workflow_at, started_id, Grown, Grown-refl, Grown-trans, HasRow, put_instance-Grown,
}
use aiya_cms.Kernel.Workflow.Kept.{advance-Grown}

workflow_at-append :
    (id : ℕ) (t u : List WorkflowInstance) (w : String)
    → workflow_at id t ≡ some w
    → workflow_at id (t ++ u) ≡ some w
workflow_at-append id [] u w h = cc h
workflow_at-append id (x ∷ t) u w h = ground (arith, h, workflow_at-append id t u w)

started_id-append :
    (w k : String) (t u : List WorkflowInstance) (id : ℕ)
    → started_id w k t ≡ some id
    → started_id w k (t ++ u) ≡ some id
started_id-append w k [] u id h = cc h
started_id-append w k (x ∷ t) u id h = ground (arith, h, started_id-append w k t u id)

any-append_true :
    (p : WorkflowSignal → Bool) (t u : List WorkflowSignal) → any p t ≡ true → any p (t ++ u) ≡ true
any-append_true p [] u h = cc h
any-append_true p (x ∷ t) u h = ground (arith, h, any-append_true p t u)

workflow_at-lease_rows :
    (id : ℕ) (owner : String) (expires at : ℕ) (ids : List ℕ) (t : List WorkflowInstance)
    → workflow_at id (lease_rows owner expires at ids t) ≡ workflow_at id t
unfolding lease_rows
workflow_at-lease_rows id owner expires at ids [] = refl
workflow_at-lease_rows id owner expires at ids (i ∷ t) =
    ground (arith, workflow_at-lease_rows id owner expires at ids t)

started_id-lease_rows :
    (w k owner : String) (expires at : ℕ) (ids : List ℕ) (t : List WorkflowInstance)
    → started_id w k (lease_rows owner expires at ids t) ≡ started_id w k t
unfolding lease_rows
started_id-lease_rows w k owner expires at ids [] = refl
started_id-lease_rows w k owner expires at ids (i ∷ t) =
    ground (arith, started_id-lease_rows w k owner expires at ids t)

module _ {W : Type 0} (run : WorkflowRunner W) where
  start-Grown :
      (workflow key : String) (input : Dict) (s : WorkflowStore W)
      → Ensures (λ _ s'. Grown s s') (start run workflow key input s)
  unfolding start require find_by_business_key start_unless add_instance now
  start-Grown workflow key input s =
      Ensures-found (run.registry workflow) workflow_unknown _ _ s
        λ spec _. by_existing spec (first (has_business_key workflow key) s.instances)
    where
      by_existing :
          (spec : WorkflowSpec W) (o : Option WorkflowInstance)
          → Ensures (λ _ s'. Grown s s') (start_unless run spec workflow key input o s)
      by_existing spec (some i) = Ensures-ok _ _ i s refl (Grown-refl s)
      by_existing spec none =
          Ensures-guard (elim spec.activities [ [] ↦ true | _ ∷ _ ↦ false ]) workflow_invalid _ _ s
            (Ensures-ok _ _ _ _ refl (
              λ id w h. workflow_at-append id s.instances _ w h,
              λ w k id h. started_id-append w k s.instances _ id h,
              λ n. ((n.0, λ i l. n.1 i (omega (arith, l))), λ w k id h. h),
            ))

  signalled-Grown :
      (row : WorkflowSignal) (s : WorkflowStore W)
      → row.id ≡ s.next_id
      → Grown s (record s { next_id = s.next_id + 1; signals = s.signals ++ row ∷ [] })
  signalled-Grown row s e = (
    λ id w h. h,
    λ w k id h. h,
    λ n.
        let fresh : get signal_row_id row.id s.signals ≡ none = n.1 row.id (omega (arith, e)) in
        (
          (
            Distinct-append signal_row_id s.signals row fresh n.0,
            λ i l.
                get-append_ne signal_row_id i s.signals row (n.1 i (omega (arith, l)))
                  (λ p. omega (arith, l, p, e)),
          ),
          λ w k id h. any-append_true (is_signal w k id) s.signals (row ∷ []) h,
        ),
  )

  wake_if-Grown :
      (b : Bool) (i : WorkflowInstance) (spec : WorkflowSpec W) (key : String) (payload : Dict)
      (s : WorkflowStore W)
      → HasRow i s
      → Ensures (λ _ s'. Grown s s') (wake_if run b i spec key payload s)
  unfolding wake_if wake now
  wake_if-Grown true i spec key payload s r = put_instance-Grown _ s r
  wake_if-Grown false i spec key payload s r = Ensures-ok _ _ tt s refl (Grown-refl s)

  pub deliver-Grown :
      (id : ℕ) (key : String) (signal : ℕ) (payload : Dict) (s : WorkflowStore W)
      → Ensures (λ _ s'. Grown s s') (deliver_signal run id key signal payload s)
  unfolding deliver_signal get_instance deliver_to require deliver_new add_signal
  deliver-Grown id key signal payload s =
      Ensures-found (get instance_id id s.instances) workflow_not_found _ _ s
        λ i g. by_status i (own i g) (is_terminal i.status)
    where
      own : (i : WorkflowInstance) → get instance_id id s.instances ≡ some i → HasRow i s
      own i g = (
        i,
        ap (λ j. get instance_id j s.instances) (key-get instance_id id s.instances i g) ∙ g,
        refl,
        refl,
      )

      by_stored :
          (i : WorkflowInstance)
          → HasRow i s
          → (spec : WorkflowSpec W) (b : Bool)
          → Ensures (λ _ s'. Grown s s') (deliver_new run i spec key signal payload b s)
      by_stored i r spec true = Ensures-ok _ _ false s refl (Grown-refl s)
      by_stored i r spec false =
          let row : WorkflowSignal = signal_row s.next_id i.id key signal payload in
          let s1 : WorkflowStore W = record s {
            next_id = s.next_id + 1;
            signals = s.signals ++ row ∷ [];
          } in
          Ensures-bind
            (wake_if-Grown (is_waiting i.status && awaits key (lookup waiting_signal_key i.state)) i
              spec key payload s1 r)
            (λ _ s' g.
              Ensures-ok _ _ true s' refl (Grown-trans s s1 s' (signalled-Grown row s refl) g))

      by_status :
          (i : WorkflowInstance)
          → HasRow i s
          → (b : Bool) → Ensures (λ _ s'. Grown s s') (deliver_to run i key signal payload b s)
      by_status i r true = Ensures-ok _ _ false s refl (Grown-refl s)
      by_status i r false =
          Ensures-found (run.registry i.workflow_key) workflow_unknown _ _ s λ spec _.
            Ensures-guard (not (any (λ k. str_eq k key) spec.signal_keys)) workflow_unknown_signal _
              _ s (by_stored i r spec (any (is_signal i.id key signal) s.signals))

  one_more-Grown :
      (s : WorkflowStore W) (r : Result WorkflowError ℕ × WorkflowStore W)
      → Grown s r.1
      → Grown s (one_more r).1
  one_more-Grown s (ok n, s') g = g
  one_more-Grown s (err e, s') g = g

  and_more-Grown :
      (more : WorkflowStore W → Result WorkflowError ℕ × WorkflowStore W) (s : WorkflowStore W)
      (r : Result WorkflowError (Option WorkflowStatus) × WorkflowStore W)
      → ((t : WorkflowStore W) → Grown t (more t).1)
      → Grown s r.1
      → Grown s (and_more more r).1
  and_more-Grown more s (ok _, s') k g =
      one_more-Grown s (more s') (Grown-trans s s' (more s').1 g (k s'))
  and_more-Grown more s (err e, s') k g = g

  advance_all-Grown :
      (fuel : ℕ) (key : Option String) (l : List WorkflowInstance) (s : WorkflowStore W)
      → Grown s (advance_all run fuel key l s).1
  unfolding advance_all
  advance_all-Grown fuel key [] s = Grown-refl s
  advance_all-Grown fuel key (i ∷ rest) s =
      by_key (is_skipped key i) refl (λ s'. advance_all-Grown fuel key rest s')
    where
      more : WorkflowStore W → Result WorkflowError ℕ × WorkflowStore W
      more = advance_all run fuel key rest

      by_key :
          (b : Bool)
          → is_skipped key i ≡ b
          → ((t : WorkflowStore W) → Grown t (more t).1)
          → Grown s (advance_all run fuel key (i ∷ rest) s).1
      by_key true e k = rw (e, advance_all) (k s)
      by_key false e k =
          rw (e, advance_all)
            (and_more-Grown more s (advance run fuel i.id s) k (advance-Grown run fuel i.id s))

  run_due-Grown :
      (fuel : ℕ) (key : Option String) (batch : ℕ) (owner : String) (lease_seconds : ℕ)
      (s : WorkflowStore W)
      → Grown s (run_due run fuel key batch owner lease_seconds s).1
  unfolding run_due claim_due
  run_due-Grown fuel key batch owner lease_seconds s =
      let at = run.utc_now s.world in
      let due = take batch (sort_instances wakes_before (select (is_due at) s.instances)) in
      let ids = map instance_id due in
      let expires = at + seconds lease_seconds in
      let s1 : WorkflowStore W = record s {
        instances = lease_rows owner expires at ids s.instances;
      } in
      let rows = sort_instances id_before (select (is_among ids) s1.instances) in
      let claimed : Grown s s1 = (
        λ id w h. workflow_at-lease_rows id owner expires at ids s.instances ∙ h,
        λ w k id h. started_id-lease_rows w k owner expires at ids s.instances ∙ h,
        λ n. (n, λ w k id h. h),
      ) in
      Grown-trans s s1 (advance_all run fuel key rows s1).1 claimed
        (advance_all-Grown fuel key rows s1)

module _ {W A : Type 0} where
  unit_of_work-Grown :
      (m : Workflow W A) (s : WorkflowStore W)
      → Ensures (λ _ s'. Grown s s') (m s)
      → Grown s (in_unit_of_work m s)
  unfolding in_unit_of_work
  unit_of_work-Grown m s k = by_result (m s) refl
    where
      by_result :
          (r : Result WorkflowError (A × WorkflowStore W)) → m s ≡ r → Grown s (in_unit_of_work m s)
      by_result (ok (a, s')) e = rw (e, in_unit_of_work) (k.holds a s' e)
      by_result (err x) e = rw (e, in_unit_of_work) (Grown-refl s)

module _ {W : Type 0} (run : WorkflowRunner W) where
  handle-Grown : (call : WorkflowCall) (s : WorkflowStore W) → Grown s (handle run call s)
  unfolding handle
  handle-Grown (start_call workflow key input) s =
      unit_of_work-Grown (start run workflow key input) s (start-Grown run workflow key input s)
  handle-Grown (signal_call id key signal payload) s =
      unit_of_work-Grown (deliver_signal run id key signal payload) s
        (deliver-Grown run id key signal payload s)
  handle-Grown (advance_call fuel id) s = advance-Grown run fuel id s
  handle-Grown (run_call fuel key batch owner lease_seconds) s =
      run_due-Grown run fuel key batch owner lease_seconds s

  pub serve-Grown : (calls : List WorkflowCall) (s : WorkflowStore W) → Grown s (serve run calls s)
  unfolding serve
  serve-Grown [] s = Grown-refl s
  serve-Grown (call ∷ rest) s =
      Grown-trans s (handle run call s) (serve run rest (handle run call s)) (handle-Grown call s)
        (serve-Grown rest (handle run call s))
