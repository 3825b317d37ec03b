-- ===== src/Kernel/Registry.antt =====
-- The registries that boot fills and then freezes: `TaskRegistry` and `CronRegistry` of
-- inc/kernel/tasks/registry.py, `WorkflowRegistry` of inc/kernel/workflow/registry.py,
-- `EventSchemaRegistry` of inc/kernel/events/registry.py and `PointBehaviorRegistry` of
-- inc/capabilities/points/behaviors.py.
pub mod Catalog
pub mod Handlers
mod Tests
use aiya_cms.Prelude.{
  String, Bool, true, false, not, Option, none, some, List, [], ◌∷◌, is_some, str_eq, if◌then◌else◌,
}
use aiya_cms.Prelude.Result.{
  Result, Tx, ok, err, pure, raise, gets, modify, or_raise, raise_if, ◌>>=◌, ◌>>◌,
}

-- `invalid_key` is the ValueError of a key that the registry's pattern does not match.
pub data RegistryError : Type 0 where
  registry_frozen invalid_key registry_duplicate registry_invalid unknown_key : RegistryError

-- What tells the registries apart: the pattern of the keys, and the check of a declaration (the
-- signal keys of a workflow).
pub record Rules (V : Type 0) : Type 0 where
  pub is_key : String → Bool
  pub accepts : V → Bool

-- `specs` is the dict, its items in the order of their insertion.
pub record Registry (V : Type 0) : Type 0 where
  pub specs : List (String × V)
  pub frozen : Bool

module _ {V : Type 0} where
  unfoldable pub find : String → List (String × V) → Option V
  find key [] = none
  find key ((k, v) ∷ rest) = if str_eq k key then some v else find key rest

  -- `self._specs[key] = spec`: in the place of the item that the key has, or as a new one.
  unfoldable pub set_spec : String → V → List (String × V) → List (String × V)
  set_spec key v [] = (key, v) ∷ []
  set_spec key v ((k, w) ∷ rest) =
      let others = set_spec key v rest in if str_eq k key then (k, v) ∷ rest else (k, w) ∷ others

  -- `lookup`
  abbrev pub lookup : String → Registry V → Option V
  lookup key r = find key r.specs

  -- `require`
  unfoldable pub require : String → Tx (Registry V) RegistryError V
  require key = do found ← gets (lookup key); or_raise found unknown_key

  -- `register`
  unfoldable pub register : Rules V → String → V → Tx (Registry V) RegistryError (Unit {0})
  register rules key v = do
    is_frozen ← gets (λ r. r.frozen)
    raise_if is_frozen registry_frozen
    raise_if (not (rules.is_key key)) invalid_key
    found ← gets (lookup key)
    raise_if (is_some found) registry_duplicate
    raise_if (not (rules.accepts v)) registry_invalid
    modify (λ r. record r { specs = set_spec key v r.specs })

  -- `freeze`
  unfoldable pub freeze : Tx (Registry V) RegistryError (Unit {0})
  freeze = modify λ r. record r { frozen = true }

pub data RegistryCall (V : Type 0) : Type 0 where
  register_call : String → V → RegistryCall V
  freeze_call : RegistryCall V

module _ {V : Type 0} (rules : Rules V) where
  abbrev pub call : RegistryCall V → Tx (Registry V) RegistryError (Unit {0})
  call (register_call key v) = register rules key v
  call freeze_call = freeze

  -- Whether a call went through, and the registry after it.
  abbrev pub answer : Registry V → Result RegistryError (Unit {0} × Registry V) → Bool × Registry V
  answer r (ok (_, r')) = (true, r')
  answer r (err e) = (false, r)

  -- Calls one after the other, and which of them went through.
  unfoldable pub run_calls : List (RegistryCall V) → Registry V → List Bool × Registry V
  unfolding register freeze
  run_calls [] r = ([], r)
  run_calls (c ∷ rest) r =
      let (went, r') = answer r (call c r) in
      let (more, r'') = run_calls rest r' in (went ∷ more, r'')
