-- ===== src/Kernel/Workflow/Kept.antt =====
-- No turn of the runner takes back an instance or a signal.
use aiya_cms.Prelude.{
  ℕ, zero, suc, ◌+◌, ◌≡◌, ◌∙◌, refl, sym, ap, subst, String, Bool, true, false, Option, none, some,
  List, [], ◌∷◌, ◌==◌, any, inl, inr,
}
use aiya_cms.Prelude.Result.{
  Result, ok, err, pure, continue, Ensures, Ensures-ok, Ensures-err, Ensures-bind, Ensures-map,
  Ensures-if, Ensures-found, Ensures-guard, Ensures-stop, ◌>>◌,
}
use aiya_cms.Prelude.Table.{get, put, get-put-none, key-get}
use aiya_cms.Prelude.Distinct.{Distinct, Distinct-put, select-Loaded, Loaded}
use aiya_cms.Kernel.Errors.{Raised, classify_retry}
use aiya_cms.Kernel.Retry.{should_retry}
use aiya_cms.Kernel.Workflow.Model.{
  Dict, lookup, Workflow, WorkflowError, WorkflowStatus, is_terminal, AttemptStatus, executed,
  failed_attempt, value_error, query_error, session_error, workflow_not_found, workflow_unknown,
  WorkflowInstance, WorkflowSignal, WorkflowStepAttempt, WorkflowStore, ActivitySpec, WorkflowSpec,
  WorkflowRunner, activity, last_attempt, undelivered_signals, is_undelivered, get_instance,
  put_instance, require, instance_id, signal_row_id,
}
use aiya_cms.Kernel.Workflow.Settle.{
  now, advance_to, advance_step, run_handler, add_attempt, settle_failure, deliver, wait_or_go,
  after_result, settle, Wait, no_wait, wait_for, not_a_key, wait_key, category_of,
}
use aiya_cms.Kernel.Workflow.Step.{
  run_activity, retry_activity, step_after, step_with, step_at, step_instance, step_once, advance,
}
use aiya_cms.Kernel.Workflow.Signals.{is_signal}
use aiya_cms.Kernel.Workflow.Handling.{Handled, run_handler_lem}
use aiya_cms.Kernel.Workflow.Growth.{Grown, Grown-refl, Grown-trans, HasRow, put_instance-Grown}

any-put_signal :
    (w : ℕ) (key : String) (id : ℕ) (x old : WorkflowSignal) (t : List WorkflowSignal)
    → get signal_row_id x.id t ≡ some old
    → is_signal w key id x ≡ is_signal w key id old
    → any (is_signal w key id) (put signal_row_id x t) ≡ any (is_signal w key id) t
unfolding get put
any-put_signal w key id x old [] g e = cc
any-put_signal w key id x old (y ∷ t) g e =
    by_id (y.id == x.id) refl (any-put_signal w key id x old t)
  where
    by_id :
        (b : Bool)
        → (y.id == x.id) ≡ b
        → (get signal_row_id x.id t ≡ some old
            → is_signal w key id x ≡ is_signal w key id old
            → any (is_signal w key id) (put signal_row_id x t) ≡ any (is_signal w key id) t)
        → any (is_signal w key id) (put signal_row_id x (y ∷ t)) ≡ any (is_signal w key id) (y ∷ t)
    by_id true b ih =
        let same : y ≡ old = cc (rw b at g) in
        rw (b, put) (rw (e ∙ ap (is_signal w key id) (sym same)) refl)
    by_id false b ih = rw (b, put) (rw (ih (rw b at g) e) refl)

module _ {W : Type 0} where
  -- A signal of the table is marked as delivered.
  delivered-Grown :
      (signal : WorkflowSignal) (at : ℕ) (s : WorkflowStore W)
      → (Distinct signal_row_id s.signals → get signal_row_id signal.id s.signals ≡ some signal)
      → Grown s (record s {
        signals = put signal_row_id (record signal { delivered_at = some at }) s.signals;
      })
  delivered-Grown signal at s loaded = (
    λ id w h. h,
    λ w k id h. h,
    λ n.
        let row : WorkflowSignal = record signal { delivered_at = some at } in
        (
          (
            Distinct-put signal_row_id row s.signals n.0,
            λ i l. get-put-none signal_row_id i row s.signals (n.1 i l),
          ),
          λ w k id h. any-put_signal w k id row signal s.signals (loaded n.0) refl ∙ h,
        ),
  )

module _ {W : Type 0} (run : WorkflowRunner W) (spec : WorkflowSpec W) where
  advance_to-Grown :
      (i : WorkflowInstance) (o : Option String) (s : WorkflowStore W)
      → HasRow i s
      → Ensures (λ _ s'. Grown s s') (advance_to run i spec o s)
  unfolding advance_to now
  advance_to-Grown i none s r = put_instance-Grown _ s r
  advance_to-Grown i (some key) s r =
      Ensures-guard (elim (activity key spec.activities) [ none ↦ true | some _ ↦ false ])
        value_error _ _ s (put_instance-Grown _ s r)

  go_on-Grown :
      (i : WorkflowInstance) (s : WorkflowStore W)
      → HasRow i s
      → Ensures {A = Option WorkflowStatus}
          (λ _ s'. Grown s s')
          ((advance_step run i spec >> pure none) s)
  unfolding advance_step
  go_on-Grown i s r =
      Ensures-bind (advance_to-Grown i i.current_step s r) (λ _ s' g. Ensures-ok _ _ _ s' refl g)

  put_and :
      (i : WorkflowInstance) (o : Option WorkflowStatus) (s : WorkflowStore W)
      → HasRow i s
      → Ensures (λ _ s'. Grown s s') ((put_instance i >> pure o) s)
  put_and i o s r = Ensures-bind (put_instance-Grown i s r) (λ _ s' g. Ensures-ok _ _ o s' refl g)

  after_result-Grown :
      (i : WorkflowInstance) (wait : Wait) (s : WorkflowStore W)
      → HasRow i s
      → Ensures (λ _ s'. Grown s s') (after_result run i spec wait s)
  unfolding after_result wait_or_go now deliver
  after_result-Grown i no_wait s r = go_on-Grown i s r
  after_result-Grown i not_a_key s r = Ensures-err _ _ query_error refl
  after_result-Grown i (wait_for key) s r =
      by_signals (undelivered_signals i.id key s.signals)
        (select-Loaded signal_row_id (is_undelivered i.id key) s.signals)
    where
      by_signals :
          (l : List WorkflowSignal)
          → (Distinct signal_row_id s.signals → Loaded signal_row_id s.signals l)
          → Ensures (λ _ s'. Grown s s') (wait_or_go run i spec key l s)
      by_signals [] loaded = put_and _ _ s r
      by_signals (signal ∷ _) loaded =
          let row : WorkflowSignal = record signal { delivered_at = some (run.utc_now s.world) } in
          let s1 : WorkflowStore W = record s { signals = put signal_row_id row s.signals } in
          let marked = delivered-Grown signal (run.utc_now s.world) s (λ d. (loaded d).0) in
          Ensures-map _ _ _ (λ _ s' g. Grown-trans s s1 s' marked g) (go_on-Grown _ s1 r)

  settle_failure-Grown :
      (i : WorkflowInstance) (a : ActivitySpec W) (attempt : ℕ) (e : Raised) (s : WorkflowStore W)
      → HasRow i s
      → Ensures (λ _ s'. Grown s s') (settle_failure run i a attempt e s)
  unfolding settle_failure now
  settle_failure-Grown i a attempt e s r =
      Ensures-if (should_retry a.retry (classify_retry e) attempt) _ _ _ s (λ _. put_and _ _ s r)
        (λ _. put_and _ _ s r)

  settle-Grown :
      (i : WorkflowInstance) (a : ActivitySpec W) (key : String) (input : Dict) (attempt : ℕ)
      (outcome : Result Raised Dict) (s : WorkflowStore W)
      → HasRow i s
      → Ensures (λ _ s'. Grown s s') (settle run i spec a key input attempt outcome s)
  unfolding settle add_attempt
  settle-Grown i a key input attempt (err e) s r = settle_failure-Grown i a attempt e _ r
  settle-Grown i a key input attempt (ok result) s r =
      after_result-Grown _ (wait_key (lookup "wait_for_signal" result)) _ r

  run_activity-Grown :
      (i : WorkflowInstance) (a : ActivitySpec W) (key : String) (input : Dict) (attempt : ℕ)
      (s : WorkflowStore W)
      → HasRow i s
      → Ensures (λ _ s'. Grown s s') (run_activity run i spec a key input attempt s)
  unfolding run_activity
  run_activity-Grown i a key input attempt s r = by_end (run_handler_lem run a input attempt s)
    where
      settled : Result Raised Dict → Workflow W (Option WorkflowStatus)
      settled = settle run i spec a key input attempt

      by_end :
          Handled a s (run_handler run a input attempt s)
          → Ensures (λ _ s'. Grown s s') (continue (run_handler run a input attempt s) settled)
      by_end (inl (outcome, world, e, _)) =
          subst (λ x. Ensures (λ _ s'. Grown s s') (continue x settled)) (sym e)
            (settle-Grown i a key input attempt outcome (record s { world = world }) r)
      by_end (inr (e, _)) = Ensures-stop settled session_error e

  step_after-Grown :
      (i : WorkflowInstance) (a : ActivitySpec W) (key : String) (o : Option WorkflowStepAttempt)
      (s : WorkflowStore W)
      → HasRow i s
      → Ensures (λ _ s'. Grown s s') (step_after run i spec a key o s)
  unfolding step_after retry_activity
  step_after-Grown i a key none s r = run_activity-Grown i a key _ 1 s r
  step_after-Grown i a key (some p) s r = by_status p.status refl
    where
      retried : Ensures (λ _ s'. Grown s s') (retry_activity run i spec a key p s)
      retried =
          Ensures-if (should_retry a.retry (category_of p.error_category) p.attempt) _ _ _ s
            (λ _. run_activity-Grown i a key p.input (p.attempt + 1) s r) (λ _. put_and _ _ s r)

      by_status :
          (v : AttemptStatus)
          → p.status ≡ v
          → Ensures (λ _ s'. Grown s s') (step_after run i spec a key (some p) s)
      by_status executed f = rw (f, step_after) (go_on-Grown i s r)
      by_status failed_attempt f = rw (f, step_after) retried

  step_at-Grown :
      (i : WorkflowInstance) (o : Option String) (s : WorkflowStore W)
      → HasRow i s
      → Ensures (λ _ s'. Grown s s') (step_at run i spec o s)
  unfolding step_at step_with
  step_at-Grown i none s r = put_and _ _ s r
  step_at-Grown i (some key) s r = by_activity (activity key spec.activities)
    where
      by_activity :
          (o : Option (ActivitySpec W))
          → Ensures (λ _ s'. Grown s s') (step_with run i spec key o s)
      by_activity none = put_and _ _ s r
      by_activity (some a) = step_after-Grown i a key (last_attempt i.id key s.attempts) s r

module _ {W : Type 0} (run : WorkflowRunner W) where
  step_once-Grown :
      (id : ℕ) (s : WorkflowStore W) → Ensures (λ _ s'. Grown s s') (step_once run id s)
  unfolding step_once step_instance get_instance require
  step_once-Grown id s =
      Ensures-found (get instance_id id s.instances) workflow_not_found _ _ s λ i g.
        Ensures-if (is_terminal i.status) _ _ _ s (λ _. Ensures-ok _ _ _ s refl (Grown-refl s))
          λ _.
            Ensures-found (run.registry i.workflow_key) workflow_unknown _ _ s
              λ spec _. step_at-Grown run spec i i.current_step s (i, own i g, refl, refl)
    where
      own :
          (i : WorkflowInstance)
          → get instance_id id s.instances ≡ some i
          → get instance_id i.id s.instances ≡ some i
      own i g = ap (λ j. get instance_id j s.instances) (key-get instance_id id s.instances i g) ∙ g

  pub advance-Grown : (n id : ℕ) (s : WorkflowStore W) → Grown s (advance run n id s).1
  unfolding advance
  advance-Grown zero id s = Grown-refl s
  advance-Grown (suc n) id s = by_turn (step_once run id s) refl (λ s'. advance-Grown n id s')
    where
      by_turn :
          (r : Result WorkflowError (Option WorkflowStatus × WorkflowStore W))
          → step_once run id s ≡ r
          → ((s' : WorkflowStore W) → Grown s' (advance run n id s').1)
          → Grown s (advance run (suc n) id s).1
      by_turn (ok (some status, s')) e k =
          rw (e, advance) ((step_once-Grown id s).holds (some status) s' e)
      by_turn (ok (none, s')) e k =
          rw (e, advance)
            (Grown-trans s s' (advance run n id s').1 ((step_once-Grown id s).holds none s' e)
              (k s'))
      by_turn (err x) e k = rw (e, advance) (Grown-refl s)
