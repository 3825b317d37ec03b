-- ===== src/Kernel/Workflow/Handling.antt =====
-- What the runner hears of a handler (`_step_once` of inc/kernel/workflow/runner.py).
use aiya_cms.Prelude.{ℕ, ◌≡◌, refl, sym, ap, subst, ◌∙◌, true, Option, none, some, ◌⊎◌, inl, inr}
use aiya_cms.Prelude.Result.{Result, ok, err, ok-injective}
use aiya_cms.Kernel.Errors.{Raised}
use aiya_cms.Kernel.Workflow.Model.{
  Dict, HandlerEnd, returned, raised, session_broken, session_error, query_error, WorkflowError,
  WorkflowStore, ActivitySpec, WorkflowRunner, lookup, item, boolean, empty,
}
use aiya_cms.Kernel.Workflow.Settle.{run_handler, not_a_key, wait_key, heard}

module _ {W : Type 0} where
  -- The exceptions that only a handler causes, by what it does with some input: it breaks its
  -- session, or asks to wait for a signal whose key is not a text.
  abbrev pub Breaks : ActivitySpec W → WorkflowError → Type 0
  Breaks a e =
      (handler : Dict → ℕ → W → HandlerEnd × W) × (a.handler ≡ some handler)
      × (input : Dict) × (attempt : ℕ) × (world : W) × (((e ≡ session_error)
            × ((handler input attempt world).0 ≡ session_broken))
          ⊎ ((e ≡ query_error)
              × (result : Dict) × ((handler input attempt world).0 ≡ returned result)
              × (wait_key (lookup "wait_for_signal" result) ≡ not_a_key)))

  -- Why the runner may raise on an outcome.
  abbrev pub MayRefuse : ActivitySpec W → Result Raised Dict → Type 0
  MayRefuse a outcome =
      (result : Dict)
      → outcome ≡ ok result
      → wait_key (lookup "wait_for_signal" result) ≡ not_a_key
      → Breaks a query_error

  -- The handler only changes the outside world, or breaks its session.
  abbrev pub Handled :
      ActivitySpec W
      → WorkflowStore W
      → Result WorkflowError (Result Raised Dict × WorkflowStore W)
      → Type 0
  Handled a s r =
      ((outcome : Result Raised Dict) × (world : W) × (r ≡ ok (outcome, record s { world = world }))
        × MayRefuse a outcome)
      ⊎ ((r ≡ err session_error) × Breaks a session_error)

  heard-Handled :
      (a : ActivitySpec W) (handler : Dict → ℕ → W → HandlerEnd × W) (input : Dict) (attempt : ℕ)
      (s : WorkflowStore W) (end : HandlerEnd × W)
      → a.handler ≡ some handler
      → handler input attempt s.world ≡ end
      → Handled a s (heard s end)
  unfolding heard
  heard-Handled a handler input attempt s (returned result, world) h e = inl (
    ok result,
    world,
    refl,
    λ d same bad. (
      handler,
      h,
      input,
      attempt,
      s.world,
      inr (refl, d, ap (λ (x : HandlerEnd × W). x.0) e ∙ ap returned (ok-injective same), bad),
    ),
  )
  heard-Handled a handler input attempt s (raised x, world) h e =
      inl (err x, world, refl, λ d same bad. cc same)
  heard-Handled a handler input attempt s (session_broken, world) h e =
      inr (
        refl,
        (handler, h, input, attempt, s.world, inl (refl, ap (λ (x : HandlerEnd × W). x.0) e)),
      )

noop_goes_on :
    (d : Dict)
    → ◌≡◌ {A = Result Raised Dict} (ok (item "noop" (boolean true) empty)) (ok d)
    → wait_key (lookup "wait_for_signal" d) ≡ not_a_key
    → ⊥
unfolding lookup
noop_goes_on d same bad = cc (
    subst (λ (x : Dict). wait_key (lookup "wait_for_signal" x) ≡ not_a_key)
      (sym (ok-injective same)) bad)

module _ {W : Type 0} (run : WorkflowRunner W) where
  pub run_handler_lem :
      (a : ActivitySpec W) (input : Dict) (attempt : ℕ) (s : WorkflowStore W)
      → Handled a s (run_handler run a input attempt s)
  unfolding run_handler
  run_handler_lem a input attempt s = by_handler a.handler refl
    where
      noop : Dict
      noop = item "noop" (boolean true) empty

      by_handler :
          (o : Option (Dict → ℕ → W → HandlerEnd × W))
          → a.handler ≡ o
          → Handled a s (run_handler run a input attempt s)
      by_handler none e = inl (
        ok noop,
        s.world,
        rw (e, run_handler) refl,
        λ d same bad. absurd (noop_goes_on d same bad),
      )
      by_handler (some handler) e =
          let same : run_handler run a input attempt s ≡ heard s (handler input attempt s.world) =
            rw (e, run_handler) refl in
          subst (λ r. Handled a s r) (sym same)
            (heard-Handled a handler input attempt s (handler input attempt s.world) e refl)
