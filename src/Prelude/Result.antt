-- ===== src/Prelude/Result.antt =====
-- Calls that may raise, and transactions: calls that also change a store.
use mathlib.Core.Path.{◌≡◌, refl, sym, ap, subst, ◌∙◌}
use mathlib.Core.Bool.{Bool, true, false}
use mathlib.Core.Option.{Option, none, some}
use aiya_cms.Prelude.Tests.{if◌then◌else◌}

pub data Result {ℓ} (E : Type 0) (A : Type ℓ) : Type ℓ where
  ok : A → Result E A
  err : E → Result E A

-- What runs inside one unit of work: an exception discards what was written.
abbrev pub Tx : Type 0 → Type 0 → Type 0 → Type 0
Tx S E A = S → Result E (A × S)

module _ {S E A : Type 0} where
  abbrev pub pure : A → Tx S E A
  pure a s = ok (a, s)

  abbrev pub raise : E → Tx S E A
  raise e s = err e

  abbrev pub gets : (S → A) → Tx S E A
  gets f s = ok (f s, s)

  -- `if x is None: raise`
  abbrev pub or_raise : Option A → E → Tx S E A
  or_raise none e = raise e
  or_raise (some a) e = pure a

module _ {S E : Type 0} where
  abbrev pub modify : (S → S) → Tx S E (Unit {0})
  modify f s = ok (tt, f s)

  abbrev pub raise_if : Bool → E → Tx S E (Unit {0})
  raise_if true e = raise e
  raise_if false e = pure tt

module _ {S E A B : Type 0} where
  abbrev pub continue : Result E (A × S) → (A → Tx S E B) → Result E (B × S)
  continue (ok (a, s)) f = f a s
  continue (err e) f = err e

  infixl 5 ◌>>=◌ ◌>>◌
  abbrev pub ◌>>=◌ : Tx S E A → (A → Tx S E B) → Tx S E B
  ◌>>=◌ m f s = continue (m s) f

  abbrev pub ◌>>◌ : Tx S E A → Tx S E B → Tx S E B
  m >> n = m >>= λ _. n

-- The result and the store of a call that succeeded satisfy `Q`.
pub record Ensures {κ} {S E A : Type 0} (Q : A → S → Type κ) (r : Result E (A × S)) : Type κ where
  pub holds : (a : A) (s : S) → r ≡ ok (a, s) → Q a s

err≢ok {ℓ} : {E : Type 0} {A : Type ℓ} {e : E} {a : A} → err e ≡ ok a → ⊥
err≢ok p = cc

ok_or {ℓ} : {E : Type 0} {A : Type ℓ} → A → Result E A → A
ok_or d (ok a) = a
ok_or d (err e) = d

pub ok-injective {ℓ} :
    {E : Type 0} {A : Type ℓ} {x y : A} → ◌≡◌ {A = Result E A} (ok x) (ok y) → x ≡ y
unfolding ok_or
ok-injective {x} p = ap (ok_or x) p

module _ {S E A : Type 0} where
  pub Ensures-ok {κ} :
      (Q : A → S → Type κ) (r : Result E (A × S)) (a : A) (s : S)
      → r ≡ ok (a, s)
      → Q a s
      → Ensures Q r
  Ensures-ok Q r a s e q = record {
    holds = λ b t h. subst (λ x. Q x.0 x.1) (ok-injective (sym e ∙ h)) q;
  }

  pub Ensures-err {κ} :
      (Q : A → S → Type κ) (r : Result E (A × S)) (x : E) → r ≡ err x → Ensures Q r
  Ensures-err Q r x e = record { holds = λ b t h. absurd (err≢ok (sym e ∙ h)) }

module _ {S E A B : Type 0} where
  -- A successful sequence has a successful first call.
  pub continue-eq-ok :
      (r : Result E (A × S)) (f : A → Tx S E B) {x : B × S}
      → continue r f ≡ ok x
      → (a : A) × (s : S) × (r ≡ ok (a, s)) × (f a s ≡ ok x)
  continue-eq-ok (ok (a, s)) f h = (a, s, refl, h)
  continue-eq-ok (err e) f h = cc

  -- The rule for a sequence: what the first call ensures is what the second starts from.
  pub Ensures-bind {κ μ} :
      {P : A → S → Type κ} {Q : B → S → Type μ} {r : Result E (A × S)} {f : A → Tx S E B}
      → Ensures P r
      → ((a : A) (s : S) → P a s → Ensures Q (f a s))
      → Ensures Q (continue r f)
  Ensures-bind {r} {f} p k = record {
    holds =
        λ b t h. let (a, s, e, h') = continue-eq-ok r f h in (k a s (p.holds a s e)).holds b t h';
  }

  -- A first call whose result is known.
  pub Ensures-step {κ} :
      {Q : B → S → Type κ} {r : Result E (A × S)} (f : A → Tx S E B) (a : A) (s : S)
      → r ≡ ok (a, s)
      → Ensures Q (f a s)
      → Ensures Q (continue r f)
  Ensures-step {Q} f a s e q = subst (λ x. Ensures Q (continue x f)) (sym e) q

  pub Ensures-stop {κ} :
      {Q : B → S → Type κ} {r : Result E (A × S)} (f : A → Tx S E B) (x : E)
      → r ≡ err x
      → Ensures Q (continue r f)
  Ensures-stop {Q} f x e =
      subst (λ y. Ensures Q (continue y f)) (sym e) (Ensures-err Q (err x) x refl)

module _ {S E B : Type 0} where
  -- A test that raises, before the rest.
  pub Ensures-guard {κ} :
      (c : Bool) (x : E) (f : Unit {0} → Tx S E B) (Q : B → S → Type κ) (s : S)
      → Ensures Q (f tt s)
      → Ensures Q (continue (raise_if c x s) f)
  Ensures-guard true x f Q s q = Ensures-err Q (err x) x refl
  Ensures-guard false x f Q s q = q

module _ {S E A : Type 0} where
  pub Ensures-if {κ} :
      (c : Bool) (m n : Tx S E A) (Q : A → S → Type κ) (s : S)
      → (c ≡ true → Ensures Q (m s))
      → (c ≡ false → Ensures Q (n s))
      → Ensures Q ((if c then m else n) s)
  Ensures-if true m n Q s yes_case no_case = yes_case refl
  Ensures-if false m n Q s yes_case no_case = no_case refl

  -- What holds of every success.
  pub Ensures-map {κ μ} :
      (P : A → S → Type κ) (Q : A → S → Type μ) (r : Result E (A × S))
      → ((a : A) (s : S) → P a s → Q a s)
      → Ensures P r
      → Ensures Q r
  Ensures-map P Q r f p = record { holds = λ a s e. f a s (p.holds a s e) }

module _ {S E A B : Type 0} where
  -- A value that must be there, before the rest.
  pub Ensures-found {κ} :
      (o : Option A) (x : E) (f : A → Tx S E B) (Q : B → S → Type κ) (s : S)
      → ((a : A) → o ≡ some a → Ensures Q (f a s))
      → Ensures Q (continue (or_raise o x s) f)
  Ensures-found none x f Q s k = Ensures-err Q (err x) x refl
  Ensures-found (some a) x f Q s k = k a refl

module _ {S E B : Type 0} where
  -- A test that raises, before a rest that may rely on its not raising.
  pub Ensures-passed {κ} :
      (c : Bool) (x : E) (f : Unit {0} → Tx S E B) (Q : B → S → Type κ) (s : S)
      → (c ≡ false → Ensures Q (f tt s))
      → Ensures Q (continue (raise_if c x s) f)
  Ensures-passed true x f Q s k = Ensures-err Q (err x) x refl
  Ensures-passed false x f Q s k = k refl

module _ {S E A B : Type 0} where
  -- A first call, before a rest that may rely on its result.
  pub Ensures-known {κ} :
      (r : Result E (A × S)) (f : A → Tx S E B) (Q : B → S → Type κ)
      → ((a : A) (s : S) → r ≡ ok (a, s) → Ensures Q (f a s))
      → Ensures Q (continue r f)
  Ensures-known (ok (a, s)) f Q k = k a s refl
  Ensures-known (err x) f Q k = Ensures-err Q (err x) x refl

module _ {S E A B : Type 0} where
  -- An insertion that a constraint may refuse, before the rest.
  pub Ensures-unless {κ} :
      (c : Bool) (x : E) (a : A) (s : S) (f : A → Tx S E B) (Q : B → S → Type κ)
      → Ensures Q (f a s)
      → Ensures Q (continue (if c then err x else ok (a, s)) f)
  Ensures-unless true x a s f Q q = Ensures-err Q (err x) x refl
  Ensures-unless false x a s f Q q = q
