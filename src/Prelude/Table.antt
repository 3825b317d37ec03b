-- ===== src/Prelude/Table.antt =====
-- A database table as the list of its rows; `key` is the primary key. SELECT by key reads the
-- first row with the key, UPDATE by key replaces it, and INSERT appends a row.
use Prim.Native.Nat.{ℕ, ◌+◌}
use mathlib.Core.Path.{◌≡◌, refl}
use mathlib.Core.Logic.{◌≢◌}
use mathlib.Core.Option.{Option, none, some}
use mathlib.Core.List.{List, [], ◌∷◌, ◌++◌}
use native.Mathlib.Omega.{arith}
use aiya_cms.Prelude.Tests.{◌==◌, if◌then◌else◌}
use aiya_cms.Prelude.Lists.{sum_by}

module _ {A : Type 0} (key : A → ℕ) where
  unfoldable pub get : ℕ → List A → Option A
  get i [] = none
  get i (r ∷ t) = if key r == i then some r else get i t

  unfoldable pub put : A → List A → List A
  put r [] = []
  put r (q ∷ t) = if key q == key r then r ∷ t else q ∷ put r t

  pub get-put_self :
      (r old : A) (t : List A) → get (key r) t ≡ some old → get (key r) (put r t) ≡ some r
  unfolding get put
  get-put_self r old [] h = cc
  get-put_self r old (q ∷ t) h = ground (arith, get-put_self r old t)

  pub get-put_ne : (i : ℕ) (r : A) (t : List A) → key r ≢ i → get i (put r t) ≡ get i t
  unfolding get put
  get-put_ne i r [] h = refl
  get-put_ne i r (q ∷ t) h = ground (arith, get-put_ne i r t)

  pub key-get : (i : ℕ) (t : List A) (r : A) → get i t ≡ some r → key r ≡ i
  unfolding get
  key-get i [] r h = cc
  key-get i (q ∷ t) r h = ground (arith, key-get i t r)

  pub get-append_some : (i : ℕ) (t u : List A) (r : A) → get i t ≡ some r → get i (t ++ u) ≡ some r
  unfolding get
  get-append_some i [] u r h = cc
  get-append_some i (q ∷ t) u r h = ground (arith, get-append_some i t u r)

  pub get-append_none : (i : ℕ) (t u : List A) → get i t ≡ none → get i (t ++ u) ≡ get i u
  unfolding get
  get-append_none i [] u h = refl
  get-append_none i (q ∷ t) u h = ground (arith, get-append_none i t u)

  pub sum_by-put :
      (f : A → ℕ) (r old : A) (t : List A)
      → get (key r) t ≡ some old
      → sum_by f (put r t) + f old ≡ sum_by f t + f r
  unfolding get put
  sum_by-put f r old [] h = cc
  sum_by-put f r old (q ∷ t) h = ground (arith, sum_by-put f r old t)

  -- A row that an append has brought in.
  pub get-append_last :
      (i : ℕ) (t : List A) (x y : A)
      → get i t ≡ none
      → get i (t ++ x ∷ []) ≡ some y
      → (x ≡ y) × (key x ≡ i)
  unfolding get
  get-append_last i [] x y h g = ground arith
  get-append_last i (q ∷ t) x y h g = ground (arith, get-append_last i t x y)

  pub get-append_new :
      (x : A) (t : List A) → get (key x) t ≡ none → get (key x) (t ++ x ∷ []) ≡ some x
  unfolding get
  get-append_new x [] h = ground arith
  get-append_new x (q ∷ t) h = ground (arith, get-append_new x t)

  pub get-append_ne :
      (i : ℕ) (t : List A) (x : A) → get i t ≡ none → key x ≢ i → get i (t ++ x ∷ []) ≡ none
  unfolding get
  get-append_ne i [] x h ne = ground arith
  get-append_ne i (q ∷ t) x h ne = ground (arith, get-append_ne i t x)

  pub get-put-none : (i : ℕ) (r : A) (t : List A) → get i t ≡ none → get i (put r t) ≡ none
  unfolding get put
  get-put-none i r [] h = refl
  get-put-none i r (q ∷ t) h = ground (arith, get-put-none i r t)
