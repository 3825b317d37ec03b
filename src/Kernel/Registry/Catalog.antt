-- ===== src/Kernel/Registry/Catalog.antt =====
-- What a registry promises: a map from keys to declarations that only grows, until it is frozen.
use aiya_cms.Prelude.{
  ◌≡◌, refl, sym, ap, ◌∙◌, String, Bool, true, false, not, Option, some, List, [], ◌∷◌, ◌++◌, ◌&&◌,
  is_some, str_eq, arith, eq_iff, Bool-cases, inl, inr, if◌then◌else◌,
}
use aiya_cms.Kernel.Registry.{
  Rules, Registry, find, set_spec, lookup, register, freeze, RegistryCall, register_call,
  freeze_call, call, answer, run_calls,
}

-- The abstract view forgets the order of the items.
pub record Catalog (V : Type 0) : Type 0 where
  pub entry : String → Option V
  pub closed : Bool

module _ {V : Type 0} where
  -- What a registry shows.
  abbrev pub view : Registry V → Catalog V
  view r = record { entry = λ key. lookup key r; closed = r.frozen }

  abbrev pub shown : Bool × Registry V → Bool × Catalog V
  shown (went, r) = (went, view r)

  abbrev pub shown_all : List Bool × Registry V → List Bool × Catalog V
  shown_all (went, r) = (went, view r)

module _ {V : Type 0} (rules : Rules V) where
  abbrev admits : Catalog V → String → V → Bool
  admits c key v =
      not c.closed && rules.is_key key && not (is_some (c.entry key)) && rules.accepts v

  abbrev with_entry : String → V → Catalog V → Catalog V
  with_entry key v c = record c { entry = λ k. if str_eq key k then some v else c.entry k }

  -- A call, as the map sees it.
  abbrev pub change : RegistryCall V → Catalog V → Bool × Catalog V
  change (register_call key v) c = if admits c key v then (true, with_entry key v c) else (false, c)
  change freeze_call c = (true, record c { closed = true })

  abbrev pub changes : List (RegistryCall V) → Catalog V → List Bool × Catalog V
  changes [] c = ([], c)
  changes (x ∷ rest) c =
      let (went, c') = change x c in let (more, c'') = changes rest c' in (went ∷ more, c'')

  find-set_spec :
      (key k : String) (v : V) (l : List (String × V))
      → find k (set_spec key v l) ≡ (if str_eq key k then some v else find k l)
  unfolding find set_spec
  find-set_spec key k v [] = refl
  find-set_spec key k v ((j, w) ∷ l) =
      ground (arith, find-set_spec key k v l, eq_iff j key, eq_iff j k, eq_iff key k)

  register-view :
      (key : String) (v : V) (r : Registry V)
      → shown (answer rules r (register rules key v r)) ≡ change (register_call key v) (view r)
  unfolding register
  register-view key v r =
      by_cases r.frozen (rules.is_key key) (is_some (lookup key r)) (rules.accepts v) refl refl refl
        refl
    where
      added :
          (b : Bool)
          → view (record { specs = set_spec key v r.specs; frozen = b })
            ≡ with_entry key v (view (record { specs = r.specs; frozen = b }))
      added b i = record { entry = λ k. find-set_spec key k v r.specs i; closed = b }

      by_cases :
          (f k d a : Bool)
          → r.frozen ≡ f
          → rules.is_key key ≡ k
          → is_some (lookup key r) ≡ d
          → rules.accepts v ≡ a
          → shown (answer rules r (register rules key v r)) ≡ change (register_call key v) (view r)
      by_cases true k d a ef ek ed ea = rw (ef, register) refl
      by_cases false false d a ef ek ed ea = rw (ef, ek, register) refl
      by_cases false true true a ef ek ed ea = rw (ef, ek, ed, register) refl
      by_cases false true false false ef ek ed ea = rw (ef, ek, ed, ea, register) refl
      by_cases false true false true ef ek ed ea =
          rw (ef, ek, ed, ea, register) (ap (λ c. (true, c)) (added false))

  call-view :
      (x : RegistryCall V) (r : Registry V)
      → shown (answer rules r (call rules x r)) ≡ change x (view r)
  unfolding freeze
  call-view freeze_call r = refl
  call-view (register_call key v) r = register-view key v r

  -- The calls of a registry are those of the map that it shows: the same calls go through, and the
  -- registry shows the map that they lead to.
  pub run_calls-view :
      (calls : List (RegistryCall V)) (r : Registry V)
      → shown_all (run_calls rules calls r) ≡ changes calls (view r)
  unfolding run_calls
  run_calls-view [] r = refl
  run_calls-view (x ∷ rest) r =
      let (went, r') = answer rules r (call rules x r) in
      ap (λ (q : List Bool × Catalog V). (went ∷ q.0, q.1)) (run_calls-view rest r')
      ∙ ap (λ (q : Bool × Catalog V). (q.0 ∷ (changes rest q.1).0, (changes rest q.1).1))
          (call-view x r)

  frozen_call :
      (x : RegistryCall V) (r : Registry V)
      → r.frozen ≡ true
      → (answer rules r (call rules x r)).1 ≡ r
  unfolding register freeze
  frozen_call freeze_call r e = ap (λ b. record r { frozen = b }) (sym e)
  frozen_call (register_call key v) r e = rw (e, register) refl

  frozen_run :
      (calls : List (RegistryCall V)) (r : Registry V)
      → r.frozen ≡ true
      → (run_calls rules calls r).1 ≡ r
  unfolding run_calls
  frozen_run [] r e = refl
  frozen_run (x ∷ rest) r e =
      ap (λ q. (run_calls rules rest q).1) (frozen_call x r e) ∙ frozen_run rest r e

  run_calls-append :
      (before after : List (RegistryCall V)) (r : Registry V)
      → (run_calls rules (before ++ after) r).1
        ≡ (run_calls rules after (run_calls rules before r).1).1
  unfolding run_calls
  run_calls-append [] after r = refl
  run_calls-append (x ∷ before) after r =
      run_calls-append before after (answer rules r (call rules x r)).1

  -- What is called after the registry was frozen does not change a declaration: the workers see
  -- what boot registered.
  pub frozen_for_good :
      (before after : List (RegistryCall V)) (r : Registry V)
      → (run_calls rules (before ++ freeze_call ∷ after) r).1.specs
        ≡ (run_calls rules before r).1.specs
  unfolding run_calls freeze
  frozen_for_good before after r =
      let booted = record (run_calls rules before r).1 { frozen = true } in
      ap (λ (q : Registry V). q.specs)
        (run_calls-append before (freeze_call ∷ after) r ∙ frozen_run after booted refl)

  change_keeps :
      (x : RegistryCall V) (c : Catalog V) (key : String) (v : V)
      → c.entry key ≡ some v
      → (change x c).1.entry key ≡ some v
  change_keeps freeze_call c key v e = e
  change_keeps (register_call k w) c key v e = elim (Bool-cases (admits c k w)) [
    | inl q ↦ rw q (kept q)
    | inr q ↦ rw q e
  ]
    where
      kept : admits c k w ≡ true → (with_entry k w c).entry key ≡ some v
      kept q = ground (arith, q, e, ap is_some e, eq_iff k key, ap c.entry)

  changes_keep :
      (calls : List (RegistryCall V)) (c : Catalog V) (key : String) (v : V)
      → c.entry key ≡ some v
      → (changes calls c).1.entry key ≡ some v
  changes_keep [] c key v e = e
  changes_keep (x ∷ rest) c key v e =
      changes_keep rest (change x c).1 key v (change_keeps x c key v e)

  refused :
      (key : String) (v w : V) (c : Catalog V)
      → c.entry key ≡ some v
      → (change (register_call key w) c).0 ≡ false
  refused key v w c e = ground (arith, ap is_some e)

  -- A declaration that is registered is what its key gives from then on, whatever is called, and
  -- a later registration under the same key is refused.
  pub registered_for_good :
      (calls : List (RegistryCall V)) (r : Registry V) (key : String) (v w : V)
      → lookup key r ≡ some v
      → (lookup key (run_calls rules calls r).1 ≡ some v)
        × ((answer rules
              (run_calls rules calls r).1
              (register rules key w (run_calls rules calls r).1)).0
            ≡ false)
  registered_for_good calls r key v w e =
      let r' = (run_calls rules calls r).1 in
      let kept : lookup key r' ≡ some v =
        ap (λ (q : List Bool × Catalog V). q.1.entry key) (run_calls-view calls r)
        ∙ changes_keep calls (view r) key v e in
      (
        kept,
        ap (λ (q : Bool × Catalog V). q.0) (register-view key w r')
            ∙ refused key v w (view r') kept,
      )
