-- ===== src/Kernel/Workflow/Order.antt =====
-- The activities of a workflow in their order (`WorkflowSpec` of inc/kernel/workflow/spec.py).
use aiya_cms.Prelude.{
  ℕ, suc, ◌≤◌, ◌<◌, ◌≡◌, refl, ap, String, Bool, true, false, Option, none, some, List, [], ◌∷◌,
  arith, length, is_some, str_eq, eq_iff, eq_refl, if◌then◌else◌,
}
use aiya_cms.Kernel.Workflow.Model.{ActivitySpec, activity, first_key, next_key}

module _ {W : Type 0} where
  -- What `WorkflowSpec.__post_init__` checks.
  abbrev pub DistinctKeys : List (ActivitySpec W) → Type 0
  DistinctKeys [] = Unit
  DistinctKeys (a ∷ rest) = (activity a.key rest ≡ none) × DistinctKeys rest

  abbrev left_from : String → List (ActivitySpec W) → ℕ
  left_from key [] = 0
  left_from key (a ∷ rest) = if str_eq a.key key then suc (length rest) else left_from key rest

  -- How many activities are left, from the current step on.
  abbrev pub left : Option String → List (ActivitySpec W) → ℕ
  left none activities = 0
  left (some key) activities = left_from key activities

  left_from-length : (key : String) (l : List (ActivitySpec W)) → left_from key l ≤ length l
  left_from-length key [] = omega arith
  left_from-length key (a ∷ rest) = ground (arith, left_from-length key rest)

  pub left-length : (o : Option String) (l : List (ActivitySpec W)) → left o l ≤ length l
  left-length none l = omega arith
  left-length (some key) l = left_from-length key l

  -- An activity that is not the first one has its own place.
  left_past :
      (key : String) (a : ActivitySpec W) (rest : List (ActivitySpec W))
      → activity a.key rest ≡ none
      → is_some (activity key rest) ≡ true
      → left_from key (a ∷ rest) ≡ left_from key rest
  left_past key a rest d h = by_test (str_eq a.key key) refl
    where
      by_test : (c : Bool) → str_eq a.key key ≡ c → left_from key (a ∷ rest) ≡ left_from key rest
      by_test true e = cc (ap (λ k. activity k rest) ((eq_iff a.key key).0 e), d, h)
      by_test false e = rw e refl

  -- The activity after another one is there.
  next_there :
      (key next : String) (l : List (ActivitySpec W))
      → next_key key l ≡ some next
      → is_some (activity next l) ≡ true
  unfolding activity next_key
  next_there key next [] n = cc
  next_there key next (a ∷ []) n = ground (arith, n)
  next_there key next (a ∷ b ∷ rest) n =
      ground (arith, next_there key next (b ∷ rest), eq_refl b.key)

  -- A step on to the next activity leaves fewer.
  pub next_key-left :
      (key : String) (l : List (ActivitySpec W))
      → DistinctKeys l
      → is_some (activity key l) ≡ true
      → left (next_key key l) l < left (some key) l
  unfolding activity next_key
  next_key-left key [] d h = cc
  next_key-left key (a ∷ rest) d h = by_test (str_eq a.key key) refl (next_key-left key rest d.1)
    where
      by_next :
          (o : Option String)
          → next_key key rest ≡ o
          → left o rest < left_from key rest
          → left o (a ∷ rest) < left_from key rest
      by_next none n l = l
      by_next (some next) n l = rw (left_past next a rest d.0 (next_there key next rest n)) l

      by_rest :
          (rest : List (ActivitySpec W))
          → activity a.key rest ≡ none
          → left (first_key rest) (a ∷ rest) < suc (length rest)
      by_rest [] e = omega arith
      by_rest (b ∷ more) e =
          rw (left_past b.key a (b ∷ more) e (rw (eq_refl b.key) refl))
            (rw (eq_refl b.key) (omega arith))

      by_test :
          (c : Bool)
          → str_eq a.key key ≡ c
          → (is_some (activity key rest) ≡ true
              → left (next_key key rest) rest < left (some key) rest)
          → left (next_key key (a ∷ rest)) (a ∷ rest) < left (some key) (a ∷ rest)
      by_test true e k = rw e (by_rest rest d.0)
      by_test false e k = rw e (by_next (next_key key rest) refl (k (ground (arith, e, h))))
