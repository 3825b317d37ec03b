-- ===== src/Kernel/Tasks/Attempts.antt =====
-- How the execution of a task ends.
use aiya_cms.Prelude.{
  ℕ, ◌+◌, ◌<◌, ◌≤◌, ◌≡◌, ◌∙◌, ◌⊎◌, refl, sym, subst, ap, String, Bool, true, false, Option, none,
  some, List, arith, Bool-cases, Option-cases, inl, inr,
}
use aiya_cms.Prelude.Table.{get, put, get-put_self, key-get}
use aiya_cms.Kernel.Errors.{permanent, Raised, classify_retry}
use aiya_cms.Kernel.Retry.{RetryPolicy, should_retry}
use aiya_cms.Kernel.Lease.{pending, finished, dead, LeasedRow, row_id}
use aiya_cms.Kernel.Tasks.{
  completed, buried, HandlerEnd, returned, raised, session_broken, Queue, TaskSpec, after_failure,
  concluded, execute_fresh, execute,
}

allowed :
    (policy : RetryPolicy) (attempts : ℕ) (x : Raised)
    → should_retry policy (classify_retry x) attempts ≡ true
    → attempts < policy.max_attempts
unfolding should_retry
allowed policy attempts x h = ground arith

found_again :
    (i : ℕ) (r r' : LeasedRow) (t : List LeasedRow)
    → get row_id i t ≡ some r
    → r'.id ≡ r.id
    → get row_id i (put row_id r' t) ≡ some r'
found_again i r r' t g e =
    let own : r'.id ≡ i = e ∙ key-get row_id i t r g in
    ap (λ j. get row_id j (put row_id r' t)) (sym own)
    ∙ get-put_self row_id r' r t (ap (λ j. get row_id j t) own ∙ g)

module _ {W : Type 0} where
  -- Completed with the attempts it had, or dead with one more, or waiting for an attempt that the
  -- task's policy allows, not before the failure.
  abbrev pub Ended : Option (TaskSpec W) → ℕ → LeasedRow → LeasedRow → Type 0
  Ended spec failed_at before after =
      (after.lease_owner ≡ none)
      × (after.lease_expires_at ≡ none)
      × (((after.status ≡ finished) × (after.attempts ≡ before.attempts))
          ⊎ (((after.status ≡ dead) × (after.attempts ≡ before.attempts + 1))
              ⊎ ((after.status ≡ pending)
                  × (after.attempts ≡ before.attempts + 1)
                  × (failed_at ≤ after.due_at)
                  × ((x : TaskSpec W) → spec ≡ some x → after.attempts < x.retry.max_attempts))))

  after_failure-Ended :
      (spec : TaskSpec W) (failed_at sample : ℕ) (e : Raised) (fresh : LeasedRow)
      → Ended (some spec) failed_at fresh (after_failure spec failed_at sample e fresh)
        × ((after_failure spec failed_at sample e fresh).id ≡ fresh.id)
  unfolding after_failure
  after_failure-Ended spec failed_at sample e fresh =
      elim (Bool-cases (should_retry spec.retry (classify_retry e) (fresh.attempts + 1))) [
        | inl c ↦
            rw (c, after_failure)
              ((refl, refl, inr (inr (refl, refl, omega arith, λ x p. within x p c))), refl)
        | inr c ↦ rw (c, after_failure) ((refl, refl, inr (inl (refl, refl))), refl)
      ]
    where
      within :
          (x : TaskSpec W)
          → some spec ≡ some x
          → should_retry spec.retry (classify_retry e) (fresh.attempts + 1) ≡ true
          → fresh.attempts + 1 < x.retry.max_attempts
      within x p c =
          let same : spec ≡ x = cc p in
          subst (λ (y : TaskSpec W). fresh.attempts + 1 < y.retry.max_attempts) same
            (allowed spec.retry (fresh.attempts + 1) e c)

  -- Either the task is released, or its handler broke the session and nothing is committed.
  abbrev pub Executed : Option (TaskSpec W) → ℕ → LeasedRow → ℕ → Queue W → Bool × Queue W → Type 0
  Executed spec failed_at fresh i q (went, q') =
      ((went ≡ true)
        × (r : LeasedRow) × (get row_id i q'.tasks ≡ some r)
        × Ended spec failed_at fresh r)
      ⊎ ((went ≡ false)
          × (q' ≡ q)
          × (x : TaskSpec W) × (spec ≡ some x)
          × ((x.handler fresh.subject (fresh.attempts + 1) q.world).0 ≡ session_broken))

  concluded-Executed :
      (spec : TaskSpec W) (failed_at sample i : ℕ) (fresh : LeasedRow) (q : Queue W)
      (end : HandlerEnd × W)
      → get row_id i q.tasks ≡ some fresh
      → spec.handler fresh.subject (fresh.attempts + 1) q.world ≡ end
      → Executed (some spec) failed_at fresh i q (concluded spec failed_at sample fresh q end)
  unfolding concluded
  concluded-Executed spec failed_at sample i fresh q (returned, w) g e = inl (
    refl,
    completed fresh,
    found_again i fresh (completed fresh) q.tasks g refl,
    (refl, refl, inl (refl, refl)),
  )
  concluded-Executed spec failed_at sample i fresh q (raised x, w) g e =
      let end = after_failure-Ended spec failed_at sample x fresh in
      inl (
        refl,
        after_failure spec failed_at sample x fresh,
        found_again i fresh (after_failure spec failed_at sample x fresh) q.tasks g end.1,
        end.0,
      )
  concluded-Executed spec failed_at sample i fresh q (session_broken, w) g e =
      inr (refl, refl, spec, refl, ap (λ (z : HandlerEnd × W). z.0) e)

  -- An executed task is released: completed, or dead, or pending for an attempt that its retry
  -- policy still allows, registered or not. The one exception is a handler that leaves its session
  -- unusable: then the execution raises, and the tables are as they were.
  pub execute-Ended :
      (lookup : String → Option (TaskSpec W)) (failed_at sample : ℕ) (task fresh : LeasedRow)
      (q : Queue W)
      → get row_id task.id q.tasks ≡ some fresh
      → Executed
          (lookup task.key)
          failed_at
          fresh
          task.id
          q
          (execute lookup failed_at sample task q)
  unfolding execute execute_fresh
  execute-Ended lookup failed_at sample task fresh q g = elim (Option-cases (lookup task.key)) [
    | inl e ↦
        rw (e, g, execute)
          (inl (
            refl,
            buried permanent fresh,
            found_again task.id fresh (buried permanent fresh) q.tasks g refl,
            (refl, refl, inr (inl (refl, refl))),
          ))
    | inr (spec, e) ↦
        rw (e, g, execute)
          (concluded-Executed spec failed_at sample task.id fresh q
            (spec.handler fresh.subject (fresh.attempts + 1) q.world) g refl)
  ]
