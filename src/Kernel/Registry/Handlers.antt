-- ===== src/Kernel/Registry/Handlers.antt =====
-- `EventHandlerRegistry` of inc/kernel/events/registry.py: the handlers of an event in the order of
-- their registration.
use aiya_cms.Prelude.{
  ◌≡◌, refl, sym, subst, eq_iff, String, Bool, true, false, not, List, [], ◌∷◌, ◌++◌, arith, any,
  str_eq, if◌then◌else◌,
}
use aiya_cms.Prelude.Result.{
  Result, Tx, ok, err, gets, modify, raise_if, Ensures, Ensures-ok, Ensures-guard, Ensures-passed,
  ◌>>=◌, ◌>>◌,
}
use aiya_cms.Kernel.Registry.{RegistryError, registry_frozen, invalid_key, registry_duplicate}

-- A handler is its key and what it runs.
pub record EventHandler (V : Type 0) : Type 0 where
  pub key : String
  pub run : V

-- `handlers` is the dict of lists; an event without an item has no handlers.
pub record HandlerRegistry (V : Type 0) : Type 0 where
  pub handlers : String → List (EventHandler V)
  pub frozen : Bool

pub data HandlerCall (V : Type 0) : Type 0 where
  handler_call : String → EventHandler V → HandlerCall V
  freeze_call : HandlerCall V

module _ {V : Type 0} where
  abbrev pub with_handler :
      String → EventHandler V → (String → List (EventHandler V)) → String → List (EventHandler V)
  with_handler event h handlers e = if str_eq event e then handlers e ++ h ∷ [] else handlers e

  -- `register`; `is_key` is the pattern of an event key.
  unfoldable pub register_handler :
      (String → Bool) → String → EventHandler V → Tx (HandlerRegistry V) RegistryError (Unit {0})
  register_handler is_key event h = do
    r ← gets (λ r. r)
    raise_if r.frozen registry_frozen
    raise_if (not (is_key event)) invalid_key
    raise_if (any (λ (g : EventHandler V). str_eq g.key h.key) (r.handlers event))
        registry_duplicate
    modify (λ r. record r { handlers = with_handler event h r.handlers })

  -- `freeze`
  unfoldable pub freeze_handlers : Tx (HandlerRegistry V) RegistryError (Unit {0})
  freeze_handlers = modify λ r. record r { frozen = true }

  -- `handlers_for`
  abbrev pub handlers_for : String → HandlerRegistry V → List (EventHandler V)
  handlers_for event r = r.handlers event

  abbrev pub handler_step :
      (String → Bool) → HandlerCall V → Tx (HandlerRegistry V) RegistryError (Unit {0})
  handler_step is_key (handler_call event h) = register_handler is_key event h
  handler_step is_key freeze_call = freeze_handlers

  abbrev pub after_call :
      HandlerRegistry V → Result RegistryError (Unit {0} × HandlerRegistry V) → HandlerRegistry V
  after_call r (ok (_, r')) = r'
  after_call r (err e) = r

  -- Calls one after the other; a call that raises changes nothing.
  unfoldable pub run_handler_calls :
      (String → Bool) → List (HandlerCall V) → HandlerRegistry V → HandlerRegistry V
  unfolding register_handler freeze_handlers
  run_handler_calls is_key [] r = r
  run_handler_calls is_key (c ∷ rest) r =
      run_handler_calls is_key rest (after_call r (handler_step is_key c r))

  -- No two handlers have the same key.
  abbrev pub DistinctHandlers : List (EventHandler V) → Type 0
  DistinctHandlers [] = Unit
  DistinctHandlers (g ∷ rest) =
      (any (λ (x : EventHandler V). str_eq g.key x.key) rest ≡ false) × DistinctHandlers rest

  any-append_false :
      (p : EventHandler V → Bool) (t : List (EventHandler V)) (h : EventHandler V)
      → any p t ≡ false
      → p h ≡ false
      → any p (t ++ h ∷ []) ≡ false
  any-append_false p [] h e f = ground (arith, f)
  any-append_false p (g ∷ t) h e f = ground (arith, any-append_false p t h)

  append-DistinctHandlers :
      (t : List (EventHandler V)) (h : EventHandler V)
      → any (λ (g : EventHandler V). str_eq g.key h.key) t ≡ false
      → DistinctHandlers t
      → DistinctHandlers (t ++ h ∷ [])
  append-DistinctHandlers [] h e d = (refl, tt)
  append-DistinctHandlers (g ∷ t) h e d = (
    any-append_false (λ (x : EventHandler V). str_eq g.key x.key) t h d.0 (ground (arith, e)),
    append-DistinctHandlers t h (ground (arith, e)) d.1,
  )

  with_handler-DistinctHandlers :
      (event : String) (h : EventHandler V) (handlers : String → List (EventHandler V)) (e : String)
      → any (λ (g : EventHandler V). str_eq g.key h.key) (handlers event) ≡ false
      → ((e : String) → DistinctHandlers (handlers e))
      → DistinctHandlers (with_handler event h handlers e)
  with_handler-DistinctHandlers event h handlers e new d = by_test (str_eq event e) refl
    where
      by_test : (b : Bool) → str_eq event e ≡ b → DistinctHandlers (with_handler event h handlers e)
      by_test true q =
          let same : event ≡ e = (eq_iff event e).0 q in
          rw q (
            append-DistinctHandlers (handlers e) h
              (subst (λ k. any (λ (g : EventHandler V). str_eq g.key h.key) (handlers k) ≡ false)
                same new)
              (d e))
      by_test false q = rw q (d e)

  register_handler-Ensures :
      (is_key : String → Bool) (event : String) (h : EventHandler V) (r : HandlerRegistry V)
      → ((e : String) → DistinctHandlers (r.handlers e))
      → Ensures
          (λ _ r'. (e : String) → DistinctHandlers (r'.handlers e))
          (register_handler is_key event h r)
  unfolding register_handler
  register_handler-Ensures is_key event h r d = Ensures-guard r.frozen registry_frozen _ _ r (
      Ensures-guard (not (is_key event)) invalid_key _ _ r (
        Ensures-passed (any (λ (g : EventHandler V). str_eq g.key h.key) (r.handlers event))
          registry_duplicate _ _ r
          λ new.
            Ensures-ok _ _ tt (record r { handlers = with_handler event h r.handlers }) refl
              (λ e. with_handler-DistinctHandlers event h r.handlers e new d)))

  after_call-DistinctHandlers :
      (r : HandlerRegistry V) (x : Result RegistryError (Unit {0} × HandlerRegistry V))
      → ((e : String) → DistinctHandlers (r.handlers e))
      → Ensures (λ _ r'. (e : String) → DistinctHandlers (r'.handlers e)) x
      → (e : String) → DistinctHandlers ((after_call r x).handlers e)
  after_call-DistinctHandlers r (ok (u, r')) d k e = k.holds u r' refl e
  after_call-DistinctHandlers r (err x) d k e = d e

  run_calls-DistinctHandlers :
      (is_key : String → Bool) (calls : List (HandlerCall V)) (r : HandlerRegistry V)
      → ((e : String) → DistinctHandlers (r.handlers e))
      → (e : String) → DistinctHandlers ((run_handler_calls is_key calls r).handlers e)
  unfolding run_handler_calls freeze_handlers
  run_calls-DistinctHandlers is_key [] r d e = d e
  run_calls-DistinctHandlers is_key (freeze_call ∷ rest) r d e =
      run_calls-DistinctHandlers is_key rest (record r { frozen = true }) d e
  run_calls-DistinctHandlers is_key (handler_call event h ∷ rest) r d e =
      run_calls-DistinctHandlers is_key rest (after_call r (register_handler is_key event h r))
        (after_call-DistinctHandlers r (register_handler is_key event h r) d
          (register_handler-Ensures is_key event h r d))
        e

-- From an empty registry on, whatever is registered, the handlers of an event have distinct keys:
-- no two of them share their inbox receipts.
pub run_handler_calls-DistinctHandlers :
    {V : Type 0} (is_key : String → Bool) (calls : List (HandlerCall V)) (r : HandlerRegistry V)
    (event : String)
    → ((e : String) → handlers_for e r ≡ [])
    → DistinctHandlers (handlers_for event (run_handler_calls is_key calls r))
run_handler_calls-DistinctHandlers is_key calls r event empty =
    run_calls-DistinctHandlers is_key calls r (λ e. subst DistinctHandlers (sym (empty e)) tt) event
