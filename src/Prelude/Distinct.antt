-- ===== src/Prelude/Distinct.antt =====
-- Tables whose rows have distinct keys, and the rows that a query has loaded from one.
use Prim.Native.Nat.{ℕ}
use mathlib.Core.Path.{◌≡◌, refl, ◌∙◌}
use mathlib.Core.Bool.{Bool}
use mathlib.Core.Option.{none, some}
use mathlib.Core.List.{List, [], ◌∷◌, ◌++◌}
use native.Mathlib.Omega.{arith}
use aiya_cms.Prelude.Tests.{==_refl}
use aiya_cms.Prelude.Lists.{select, first}
use aiya_cms.Prelude.Table.{get, put, get-put_ne, get-put-none, get-append_ne}

module _ {A : Type 0} (key : A → ℕ) where
  abbrev pub Distinct : List A → Type 0
  Distinct [] = Unit
  Distinct (r ∷ t) = (get key (key r) t ≡ none) × Distinct t

  -- Distinct rows, each as it stands in the table.
  abbrev pub Loaded : List A → List A → Type 0
  Loaded t [] = Unit
  Loaded t (r ∷ rs) = (get key (key r) t ≡ some r) × (get key (key r) rs ≡ none) × Loaded t rs

  pub Distinct-put : (r : A) (t : List A) → Distinct t → Distinct (put key r t)
  unfolding get put
  Distinct-put r [] d = tt
  Distinct-put r (q ∷ t) d = ground (arith, Distinct-put r t d.1, get-put-none key (key q) r t d.0)

  pub Distinct-append :
      (t : List A) (x : A) → get key (key x) t ≡ none → Distinct t → Distinct (t ++ x ∷ [])
  unfolding get
  Distinct-append [] x h d = (refl, tt)
  Distinct-append (q ∷ t) x h d =
      ground (arith, Distinct-append t x, get-append_ne key (key q) t x d.0)

  -- The row that a query finds stands in the table under its own key.
  pub first-get :
      (p : A → Bool) (t : List A) (r : A)
      → Distinct t
      → first p t ≡ some r
      → get key (key r) t ≡ some r
  unfolding get
  first-get p [] r d h = cc
  first-get p (q ∷ t) r d h = ground (arith, first-get p t r d.1, ==_refl (key q))

  Loaded-cons : (q : A) (t rs : List A) → get key (key q) t ≡ none → Loaded t rs → Loaded (q ∷ t) rs
  unfolding get
  Loaded-cons q t [] h l = tt
  Loaded-cons q t (r ∷ rs) h l = (ground arith, l.1, Loaded-cons q t rs h l.2)

  get-select-none :
      (p : A → Bool) (i : ℕ) (t : List A) → get key i t ≡ none → get key i (select p t) ≡ none
  unfolding get
  get-select-none p i [] h = refl
  get-select-none p i (q ∷ t) h = ground (arith, get-select-none p i t)

  pub select-Loaded : (p : A → Bool) (t : List A) → Distinct t → Loaded t (select p t)
  unfolding get
  select-Loaded p [] d = tt
  select-Loaded p (b ∷ t) d = ground (
    arith,
    Loaded-cons b t (select p t) d.0 (select-Loaded p t d.1),
    get-select-none p (key b) t d.0,
    ==_refl (key b),
  )

  pub put-Loaded :
      (r : A) (t rs : List A) → get key (key r) rs ≡ none → Loaded t rs → Loaded (put key r t) rs
  unfolding get
  put-Loaded r t [] h l = tt
  put-Loaded r t (q ∷ rs) h l =
      (get-put_ne key (key q) r t (ground arith) ∙ l.0, l.1, put-Loaded r t rs (ground arith) l.2)
