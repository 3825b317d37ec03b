-- ===== src/Kernel/Workflow/Termination.antt =====
-- `WorkflowRunner.advance` returns: its loop takes at most one turn per activity that is left.
use aiya_cms.Prelude.{
  ℕ, zero, suc, ◌<◌, ◌≡◌, ◌⊎◌, inl, inr, refl, sym, ap, subst, ◌∙◌, String, Bool, true, false,
  Option, none, some, arith, length, is_some,
}
use aiya_cms.Prelude.Result.{Result, ok, err}
use aiya_cms.Prelude.Table.{get, key-get}
use aiya_cms.Kernel.Workflow.Model.{
  WorkflowStatus, completed, failed, is_terminal, WorkflowError, WorkflowInstance, WorkflowStore,
  ActivitySpec, WorkflowSpec, WorkflowRunner, instance_id, activity, last_attempt, get_instance,
  put_instance, require,
}
use aiya_cms.Kernel.Workflow.Step.{step_with, step_at, step_instance, step_once, advance}
use aiya_cms.Kernel.Workflow.Order.{DistinctKeys, left, left-length, next_key-left}
use aiya_cms.Kernel.Workflow.Handling.{Breaks}
use aiya_cms.Kernel.Workflow.Progress.{Turned, returns, moved, raises, step_after-Turned}

module _ {W : Type 0} (run : WorkflowRunner W) (spec : WorkflowSpec W) where
  -- The loop ends with a status, or with the exception of a handler of the workflow.
  abbrev pub Concludes : Result WorkflowError (Option WorkflowStatus) × WorkflowStore W → Type 0
  Concludes r =
      ((status : WorkflowStatus) × (s : WorkflowStore W) × (r ≡ (ok (some status), s)))
      ⊎ ((e : WorkflowError) × (s : WorkflowStore W) × (r ≡ (err e, s))
          × (key : String) × (a : ActivitySpec W) × (activity key spec.activities ≡ some a)
          × Breaks a e)

  abbrev Returns : Result WorkflowError (Option WorkflowStatus × WorkflowStore W) → Type 0
  Returns r = (status : WorkflowStatus) × (s : WorkflowStore W) × (r ≡ ok (some status, s))

  -- A turn on the instance `i`: it returns, or takes the activity at the current step.
  abbrev Turn :
      WorkflowInstance → Result WorkflowError (Option WorkflowStatus × WorkflowStore W) → Type 0
  Turn i r =
      Returns r
      ⊎ ((key : String) × (i.current_step ≡ some key)
          × (a : ActivitySpec W) × (activity key spec.activities ≡ some a)
          × Turned run spec key a i.id i.workflow_key r)

  step_with-Turn :
      (i : WorkflowInstance) (key : String) (o : Option (ActivitySpec W)) (s : WorkflowStore W)
      → get instance_id i.id s.instances ≡ some i
      → i.current_step ≡ some key
      → activity key spec.activities ≡ o
      → Turn i (step_with run i spec key o s)
  unfolding step_with put_instance
  step_with-Turn i key none s at here e = inl (failed, _, refl)
  step_with-Turn i key (some a) s at here e = inr (
    key,
    here,
    a,
    e,
    step_after-Turned run spec key (ap is_some e) i i a (last_attempt i.id key s.attempts) s at
        here,
  )

  step_at-Turn :
      (i : WorkflowInstance) (o : Option String) (s : WorkflowStore W)
      → get instance_id i.id s.instances ≡ some i
      → i.current_step ≡ o
      → Turn i (step_at run i spec o s)
  unfolding step_at put_instance
  step_at-Turn i none s at here = inl (completed, _, refl)
  step_at-Turn i (some key) s at here =
      step_with-Turn i key (activity key spec.activities) s at here refl

  step_instance-Turn :
      (i : WorkflowInstance) (s : WorkflowStore W)
      → get instance_id i.id s.instances ≡ some i
      → run.registry i.workflow_key ≡ some spec
      → Turn i (step_instance run i s)
  unfolding step_instance require
  step_instance-Turn i s at known = by_status (is_terminal i.status) refl
    where
      by_status : (b : Bool) → is_terminal i.status ≡ b → Turn i (step_instance run i s)
      by_status true e = inl (i.status, s, rw (e, step_instance) refl)
      by_status false e =
          rw (e, step_instance, require, known) (step_at-Turn i i.current_step s at refl)

  step_once-Turn :
      (id : ℕ) (i : WorkflowInstance) (s : WorkflowStore W)
      → get instance_id id s.instances ≡ some i
      → run.registry i.workflow_key ≡ some spec
      → Turn i (step_once run id s)
  unfolding step_once get_instance
  step_once-Turn id i s at known = rw at (
      step_instance-Turn i s
        (ap (λ j. get instance_id j s.instances) (key-get instance_id id s.instances i at) ∙ at)
        known)

  -- The loop from the end of a turn.
  abbrev loop :
      ℕ
      → ℕ
      → WorkflowStore W
      → Result WorkflowError (Option WorkflowStatus × WorkflowStore W)
      → Result WorkflowError (Option WorkflowStatus) × WorkflowStore W
  loop n id s r = elim r [
    | ok (some status, s') ↦ (ok (some status), s')
    | ok (none, s') ↦ advance run n id s'
    | err e ↦ (err e, s)
  ]

  advance_returns :
      (n id : ℕ) (s : WorkflowStore W) (i : WorkflowInstance)
      → DistinctKeys spec.activities
      → get instance_id id s.instances ≡ some i
      → run.registry i.workflow_key ≡ some spec
      → left i.current_step spec.activities < n
      → Concludes (advance run n id s)
  unfolding advance
  advance_returns zero id s i d at known l = absurd (omega (arith, l))
  advance_returns (suc n) id s i d at known l =
      by_turn (step_once-Turn id i s at known) (advance_returns n)
    where
      by_turned :
          (r : Result WorkflowError (Option WorkflowStatus × WorkflowStore W)) (key : String)
          (a : ActivitySpec W)
          → i.current_step ≡ some key
          → activity key spec.activities ≡ some a
          → Turned run spec key a i.id i.workflow_key r
          → ((id' : ℕ) (s' : WorkflowStore W) (i' : WorkflowInstance)
              → DistinctKeys spec.activities
              → get instance_id id' s'.instances ≡ some i'
              → run.registry i'.workflow_key ≡ some spec
              → left i'.current_step spec.activities < n
              → Concludes (advance run n id' s'))
          → Concludes (loop n id s r)
      by_turned _ key a here there (returns status s') k = inl (status, s', refl)
      by_turned _ key a here there (raises e broken) k = inr (e, s, refl, key, a, there, broken)
      by_turned _ key a here there (moved s' i' at' same next) k =
          k id s' i' d
            (ap (λ j. get instance_id j s'.instances)
                (sym (key-get instance_id id s.instances i at))
              ∙ at')
            (ap run.registry same ∙ known)
            (rw next (
              omega (
                arith,
                next_key-left key spec.activities d (ap is_some there),
                subst (λ o. left o spec.activities < suc n) here l,
              )))

      by_turn :
          Turn i (step_once run id s)
          → ((id' : ℕ) (s' : WorkflowStore W) (i' : WorkflowInstance)
              → DistinctKeys spec.activities
              → get instance_id id' s'.instances ≡ some i'
              → run.registry i'.workflow_key ≡ some spec
              → left i'.current_step spec.activities < n
              → Concludes (advance run n id' s'))
          → Concludes (advance run (suc n) id s)
      by_turn (inl (status, s', e)) k = inl (status, s', ap (loop n id s) e)
      by_turn (inr (key, here, a, there, t)) k = by_turned (step_once run id s) key a here there t k

-- The loop of `advance` always ends: for an instance whose workflow is registered, with distinct
-- activity keys, one turn per activity and one more are enough, whatever the handlers do and
-- whatever signals there are. It ends with a status, or with one of two exceptions that a handler
-- of the workflow causes: it broke its session, or its result waits for a signal whose key is not
-- a text.
pub advance_ends :
    {W : Type 0} (run : WorkflowRunner W) (spec : WorkflowSpec W) (n id : ℕ) (s : WorkflowStore W)
    (i : WorkflowInstance)
    → get instance_id id s.instances ≡ some i
    → run.registry i.workflow_key ≡ some spec
    → DistinctKeys spec.activities
    → length spec.activities < n
    → Concludes run spec (advance run n id s)
advance_ends run spec n id s i at known d l =
    advance_returns run spec n id s i d at known
      (omega (arith, left-length i.current_step spec.activities, l))
