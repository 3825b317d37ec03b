-- ===== src/Kernel/Inbox/Once.antt =====
-- How often the work for a handler and an event runs, over a sequence of deliveries.
use aiya_cms.Prelude.{
  ◌⊎◌, eq_iff, ℕ, ◌+◌, ◌≤◌, ◌≡◌, ◌∙◌, refl, sym, ap, subst, String, Bool, true, false, List, [],
  ◌∷◌, ◌++◌, ◌&&◌, ◌==◌, str_eq, any, any-last, arith, if◌then◌else◌, Bool-cases, inl, inr, eq_refl,
  ==_refl,
}
use aiya_cms.Prelude.Result.{Result, ok, err}
use aiya_cms.Kernel.Inbox.{InboxReceipt, is_receipt, already_processed, Inbox, process}

any-append :
    (p : InboxReceipt → Bool) (xs ys : List InboxReceipt)
    → any p xs ≡ true
    → any p (xs ++ ys) ≡ true
any-append p [] ys h = cc
any-append p (x ∷ xs) ys h = ground (arith, any-append p xs ys)

-- 1 for a delivery whose work ran to its end, 0 for any other.
abbrev pub ran : {E : Type 0} → Result E Bool → ℕ
ran (ok true) = 1
ran (ok false) = 0
ran (err e) = 0

same_pair :
    (h handler : String) (e event : ℕ)
    → (str_eq h handler && (e == event)) ≡ true
    → (h ≡ handler) × (e ≡ event)
same_pair h handler e event p = ((eq_iff h handler).0 (ground arith), ground arith)

module _ {E W : Type 0} where
  -- How often, in a sequence of deliveries, the work for this handler and event ran to its end.
  unfoldable pub runs : (String → ℕ → W → Result E W) → String → ℕ → List (String × ℕ) → Inbox W → ℕ
  runs work handler event [] d = 0
  runs work handler event ((h, e) ∷ rest) d =
      let (result, d') = process h e (work h e) d in
      let later = runs work handler event rest d' in
      if str_eq h handler && (e == event) then ran result + later else later

  -- A receipt is never lost.
  process-keeps :
      (h : String) (e : ℕ) (w : W → Result E W) (handler : String) (event : ℕ) (d : Inbox W)
      → already_processed handler event d.receipts ≡ true
      → already_processed handler event (process h e w d).1.receipts ≡ true
  unfolding process already_processed
  process-keeps h e w handler event d p = elim (Bool-cases (any (is_receipt h e) d.receipts)) [
    | inl c ↦ rw (c, process) p
    | inr c ↦ by_work (w d.world) refl c
  ]
    where
      by_work :
          (r : Result E W)
          → w d.world ≡ r
          → any (is_receipt h e) d.receipts ≡ false
          → any (is_receipt handler event) (process h e w d).1.receipts ≡ true
      by_work (ok x) q c =
          rw (c, process) (rw q (any-append (is_receipt handler event) d.receipts _ p))
      by_work (err x) q c = rw (c, process) (rw q p)

  -- A delivery that ran, or was a duplicate, is on record afterwards.
  process-records :
      (h : String) (e : ℕ) (w : W → Result E W) (d : Inbox W)
      → (ran (process h e w d).0 ≡ 0)
        ⊎ ((ran (process h e w d).0 ≡ 1)
            × (already_processed h e d.receipts ≡ false)
            × (already_processed h e (process h e w d).1.receipts ≡ true))
  unfolding process already_processed
  process-records h e w d = elim (Bool-cases (any (is_receipt h e) d.receipts)) [
    | inl c ↦ inl (rw (c, process) refl)
    | inr c ↦ by_work (w d.world) refl c
  ]
    where
      by_work :
          (r : Result E W)
          → w d.world ≡ r
          → any (is_receipt h e) d.receipts ≡ false
          → (ran (process h e w d).0 ≡ 0)
            ⊎ ((ran (process h e w d).0 ≡ 1)
                × (any (is_receipt h e) d.receipts ≡ false)
                × (any (is_receipt h e) (process h e w d).1.receipts ≡ true))
      by_work (ok x) q c = inr (
        rw (c, process) (rw q refl),
        c,
        rw (c, process)
            (rw q (any-last (is_receipt h e) d.receipts _ (rw (eq_refl h) (==_refl e)))),
      )
      by_work (err x) q c = inl (rw (c, process) (rw q refl))

  runs-recorded :
      (work : String → ℕ → W → Result E W) (handler : String) (event : ℕ) (xs : List (String × ℕ))
      (d : Inbox W)
      → already_processed handler event d.receipts ≡ true
      → runs work handler event xs d ≡ 0
  unfolding runs
  runs-recorded work handler event [] d p = refl
  runs-recorded work handler event ((h, e) ∷ xs) d p =
      let later =
        runs-recorded work handler event xs (process h e (work h e) d).1
          (process-keeps h e (work h e) handler event d p) in
      elim (Bool-cases (str_eq h handler && (e == event))) [
        | inr c ↦ rw c later
        | inl c ↦
            let (hs, es) = same_pair h handler e event c in
            elim (process-records h e (work h e) d) [
              | inl z ↦ rw (c, z) (omega (arith, later))
              | inr (_, fresh, _) ↦ absurd (
                  ground (
                    arith,
                    sym (ap (λ x. already_processed x e d.receipts) hs) ∙ fresh,
                    ap (λ x. already_processed handler x d.receipts) es,
                  ))
            ]
      ]

  -- In any sequence of deliveries, redeliveries among them, with handlers that may fail: the work for
  -- one handler and event runs to its end, and is committed, at most once.
  pub runs_bound :
      (work : String → ℕ → W → Result E W) (handler : String) (event : ℕ) (xs : List (String × ℕ))
      (d : Inbox W)
      → runs work handler event xs d ≤ 1
  unfolding runs
  runs_bound work handler event [] d = omega arith
  runs_bound work handler event ((h, e) ∷ xs) d =
      elim (Bool-cases (str_eq h handler && (e == event))) [
        | inr c ↦ rw c (runs_bound work handler event xs (process h e (work h e) d).1)
        | inl c ↦
            let (hs, es) = same_pair h handler e event c in
            elim (process-records h e (work h e) d) [
              | inl z ↦
                  rw (c, z)
                    (omega (arith, runs_bound work handler event xs (process h e (work h e) d).1))
              | inr (one, _, kept) ↦
                  let later = runs-recorded work handler event xs (process h e (work h e) d).1 (
                    subst
                      (λ x. already_processed x event (process h e (work h e) d).1.receipts ≡ true)
                      hs
                      (subst
                        (λ x. already_processed h x (process h e (work h e) d).1.receipts ≡ true) es
                        kept)) in
                  rw (c, one, later) (omega arith)
            ]
      ]
