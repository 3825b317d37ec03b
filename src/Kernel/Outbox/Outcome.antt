-- ===== src/Kernel/Outbox/Outcome.antt =====
-- How the processing of a message ends.
use aiya_cms.Prelude.{
  subst, ℕ, ◌+◌, ◌<◌, ◌≤◌, ◌≡◌, ◌∙◌, ◌⊎◌, refl, sym, ap, String, true, Option, none, some, arith,
  Bool-cases, inl, inr, str_eq, eq_option, eq_refl, ◌&&◌,
}
use aiya_cms.Prelude.Table.{get, put, get-put_self, key-get}
use aiya_cms.Kernel.Errors.{RetryCategory, permanent, Raised, classify_retry}
use aiya_cms.Kernel.Retry.{RetryPolicy, should_retry, next_attempt_delay}
use aiya_cms.Kernel.Lease.{pending, claimed, finished, dead, eq_status, LeasedRow, row_id}
use aiya_cms.Kernel.Lease.Claims.{HeldBy}
use aiya_cms.Kernel.Outbox.{
  mark, delivered, retried, buried, mark_delivered, mark_retry, mark_dead, Database, Dispatcher,
  Moment, run_handlers, mark_fresh, conclude, held, standing, process,
}

-- How a processed message ends: delivered, or dead with one more attempt, or waiting for the next
-- attempt, which the policy allows and which is not before the failure.
abbrev pub Ended : RetryPolicy → ℕ → LeasedRow → LeasedRow → Type 0
Ended policy failed_at m r =
    (r.lease_owner ≡ none)
    × (((r.status ≡ finished) × (r.attempts ≡ m.attempts))
        ⊎ (((r.status ≡ dead) × (r.attempts ≡ m.attempts + 1))
            ⊎ ((r.status ≡ pending)
                × (r.attempts ≡ m.attempts + 1)
                × (r.attempts < policy.max_attempts)
                × (failed_at ≤ r.due_at))))

allowed :
    (policy : RetryPolicy) (category : RetryCategory) (n : ℕ)
    → should_retry policy category n ≡ true
    → n < policy.max_attempts
unfolding should_retry
allowed policy category n h = ground arith

live_is_held :
    (owner : String) (expires now : ℕ) (r : LeasedRow)
    → HeldBy owner expires r
    → now ≤ expires
    → standing owner now (some r) ≡ held
unfolding standing
live_is_held owner expires now r h l = rw (h.0, h.1, h.2) (rw (eq_refl owner) (ground arith))

module _ {W : Type 0} where
  mark_fresh_self :
      (m : LeasedRow) (change : LeasedRow → LeasedRow) (d : Database W) (owner : String)
      (expires : ℕ)
      → ((q : LeasedRow) → (change q).id ≡ q.id)
      → get row_id m.id d.messages ≡ some m
      → HeldBy owner expires m
      → (d' : Database W) × (mark_fresh m.id (λ fresh. mark fresh change) d ≡ some d')
        × (get row_id m.id d'.messages ≡ some (change m))
  unfolding mark_fresh mark
  mark_fresh_self m change d owner expires same g h =
      let own : (eq_status m.status claimed && eq_option str_eq m.lease_owner m.lease_owner)
          ≡ true =
        rw (h.0, h.1) (eq_refl owner) in
      (
        record d { messages = put row_id (change m) d.messages },
        rw (g, mark_fresh) (rw (g, mark) (rw own refl)),
        ap (λ j. get row_id j (put row_id (change m) d.messages)) (sym (same m))
            ∙ get-put_self row_id (change m) m d.messages
                (ap (λ j. get row_id j d.messages) (same m) ∙ g),
      )

  -- The row as it is left, and how it ended.
  abbrev pub Ends : RetryPolicy → ℕ → LeasedRow → Option (Database W) → Type 0
  Ends policy failed_at m result =
      (d' : Database W) × (r : LeasedRow) × (result ≡ some d')
      × (get row_id m.id d'.messages ≡ some r)
      × Ended policy failed_at m r

  conclude-Ends :
      (env : Dispatcher W) (at : Moment) (m : LeasedRow) (failure : Option Raised) (d : Database W)
      (owner : String) (expires : ℕ)
      → get row_id m.id d.messages ≡ some m
      → HeldBy owner expires m
      → Ends env.retry_policy at.failed_at m (conclude env at m failure d)
  unfolding conclude mark_delivered mark_retry mark_dead
  conclude-Ends env at m none d owner expires g h =
      let (d', e, found) = mark_fresh_self m delivered d owner expires (λ q. refl) g h in
      (d', delivered m, e, found, (refl, inl (refl, refl)))
  conclude-Ends env at m (some x) d owner expires g h =
      let category = classify_retry x in
      elim (Bool-cases (should_retry env.retry_policy category (m.attempts + 1))) [
        | inl c ↦
            let next =
              at.failed_at
              + next_attempt_delay env.retry_policy category (m.attempts + 1) at.jitter_sample in
            let (d', e, found) =
              mark_fresh_self m (retried next category) d owner expires (λ q. refl) g h in
            (
              d',
              retried next category m,
              rw (c, conclude) e,
              found,
              (
                refl,
                inr (
                    inr (
                      refl,
                      refl,
                      allowed env.retry_policy category (m.attempts + 1) c,
                      omega arith,
                    )),
              ),
            )
        | inr c ↦
            let (d', e, found) =
              mark_fresh_self m (buried category) d owner expires (λ q. refl) g h in
            (d', buried category m, rw (c, conclude) e, found, (refl, inr (inl (refl, refl))))
      ]

  -- When the worker that holds a message, as it stands in the table, processes it before its lease is
  -- over, whatever the handlers do, the cycle goes on, and the message is released: delivered, or dead, or pending for an attempt
  -- that the retry policy still allows.
  pub process-Ends :
      (env : Dispatcher W) (owner : String) (expires : ℕ) (at : Moment) (m : LeasedRow)
      (d : Database W)
      → get row_id m.id d.messages ≡ some m
      → HeldBy owner expires m
      → at.checked_at ≤ expires
      → Ends env.retry_policy at.failed_at m (process env owner at m d)
  unfolding process mark_dead
  process-Ends env owner expires at m d g h l =
      let mine : standing owner at.checked_at (get row_id m.id d.messages) ≡ held =
        ap (standing owner at.checked_at) g ∙ live_is_held owner expires at.checked_at m h l in
      elim (Bool-cases (env.known_schema m.key)) [
        | inl k ↦
            let run = run_handlers (env.handlers_for m.key) m.subject d.world in
            rw (mine, process)
              (rw k (conclude-Ends env at m run.0 (record d { world = run.1 }) owner expires g h))
        | inr k ↦
            let (d', e, found) =
              mark_fresh_self m (buried permanent) d owner expires (λ q. refl) g h in
            (
              d',
              buried permanent m,
              rw (mine, process) (rw k e),
              found,
              (refl, inr (inl (refl, refl))),
            )
      ]

module _ {W : Type 0} where
  -- After handlers that all went through, the row of the message is marked as delivered whoever holds
  -- it by then: the owner of the claim under which they ran is not compared.
  pub conclude-delivered :
      (env : Dispatcher W) (at : Moment) (message r : LeasedRow) (d : Database W) (other : String)
      (expires : ℕ)
      → get row_id message.id d.messages ≡ some r
      → HeldBy other expires r
      → (d' : Database W) × (conclude env at message none d ≡ some d')
        × (get row_id message.id d'.messages ≡ some (delivered r))
  unfolding conclude mark_delivered
  conclude-delivered env at message r d other expires g h =
      let i = key-get row_id message.id d.messages r g in
      subst
        (λ j.
          (d' : Database W) × (mark_fresh j mark_delivered d ≡ some d')
          × (get row_id j d'.messages ≡ some (delivered r)))
        i
        (mark_fresh_self r delivered d other expires (λ q. refl)
          (ap (λ j. get row_id j d.messages) i ∙ g) h)
