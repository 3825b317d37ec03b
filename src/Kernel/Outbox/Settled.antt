-- ===== src/Kernel/Outbox/Settled.antt =====
-- A dispatch cycle and the messages that it does not process.
use aiya_cms.Prelude.{
  seconds, ℕ, ◌+◌, ◌≡◌, ◌≢◌, ◌∙◌, refl, sym, ap, String, Option, none, some, List, [], ◌∷◌, arith,
  Bool-cases, Option-cases, inl, inr, ℕ_discrete,
}
use aiya_cms.Prelude.Table.{get, key-get}
use aiya_cms.Kernel.Errors.{permanent, Raised, classify_retry}
use aiya_cms.Kernel.Retry.{should_retry}
use aiya_cms.Kernel.Lease.{LeasedRow, row_id, due_ids}
use aiya_cms.Kernel.Lease.Claims.{claim_rows-keeps}
use aiya_cms.Kernel.Outbox.{
  claim_due, delivered, buried, mark_delivered, mark_retry, mark_dead, Database, Dispatcher, Moment,
  run_handlers, mark_fresh, conclude, Standing, held, stale, broken, standing, process, process_all,
  dispatch_cycle,
}
use aiya_cms.Kernel.Outbox.Delivery.{IsSettled, settled_is_not_due, settled_is_not_held, mark-other}

module _ {W : Type 0} where
  -- Every row but that of the id `m` is as it was.
  abbrev Leaves : ℕ → Database W → Database W → Type 0
  Leaves m d d' = (i : ℕ) → m ≢ i → get row_id i d'.messages ≡ get row_id i d.messages

  mark_fresh-Leaves :
      (m : ℕ) (marking : LeasedRow → List LeasedRow → List LeasedRow) (d d' : Database W)
      → ((i : ℕ) (fresh : LeasedRow)
          → fresh.id ≢ i
          → get row_id i (marking fresh d.messages) ≡ get row_id i d.messages)
      → mark_fresh m marking d ≡ some d'
      → Leaves m d d'
  unfolding mark_fresh
  mark_fresh-Leaves m marking d d' f h i ne = elim (Option-cases (get row_id m d.messages)) [
    | inl e ↦ absurd (ground arith)
    | inr (fresh, e) ↦
        let same : record d { messages = marking fresh d.messages } ≡ d' = ground arith in
        sym (ap (λ (x : Database W). get row_id i x.messages) same)
        ∙ f i fresh (λ p. ne (sym (key-get row_id m d.messages fresh e) ∙ p))
  ]

  conclude-Leaves :
      (env : Dispatcher W) (at : Moment) (message : LeasedRow) (failure : Option Raised)
      (d d' : Database W)
      → conclude env at message failure d ≡ some d'
      → Leaves message.id d d'
  unfolding conclude mark_delivered mark_retry mark_dead
  conclude-Leaves env at message none d d' h =
      mark_fresh-Leaves message.id mark_delivered d d'
        (λ i fresh ne. mark-other i fresh delivered d.messages (λ q. refl) ne) h
  conclude-Leaves env at message (some e) d d' h =
      elim (Bool-cases (should_retry env.retry_policy (classify_retry e) (message.attempts + 1))) [
        | inl c ↦
            mark_fresh-Leaves message.id _ d d'
              (λ i fresh ne. mark-other i fresh _ d.messages (λ q. refl) ne) (rw (c, conclude) at h)
        | inr c ↦
            mark_fresh-Leaves message.id _ d d'
              (λ i fresh ne.
                mark-other i fresh (buried (classify_retry e)) d.messages (λ q. refl) ne)
              (rw (c, conclude) at h)
      ]

  process-Leaves :
      (env : Dispatcher W) (owner : String) (at : Moment) (message : LeasedRow) (d d' : Database W)
      → process env owner at message d ≡ some d'
      → Leaves message.id d d'
  unfolding process mark_dead
  process-Leaves env owner at message d d' h i ne =
      by_standing (standing owner at.checked_at (get row_id message.id d.messages)) refl
    where
      by_standing :
          (c : Standing)
          → standing owner at.checked_at (get row_id message.id d.messages) ≡ c
          → get row_id i d'.messages ≡ get row_id i d.messages
      by_standing stale e =
          let same : d ≡ d' = ground (arith, rw (e, process) at h) in
          sym (ap (λ (x : Database W). get row_id i x.messages) same)
      by_standing broken e = absurd (ground (arith, rw (e, process) at h))
      by_standing held e = elim (Bool-cases (env.known_schema message.key)) [
        | inl k ↦
            let run = run_handlers (env.handlers_for message.key) message.subject d.world in
            conclude-Leaves env at message run.0 (record d { world = run.1 }) d'
              (rw k at (rw (e, process) at h)) i ne
        | inr k ↦
            mark_fresh-Leaves message.id _ d d'
              (λ j fresh other. mark-other j fresh (buried permanent) d.messages (λ q. refl) other)
              (rw k at (rw (e, process) at h)) i ne
      ]

  process-keeps :
      (env : Dispatcher W) (owner : String) (at : Moment) (message : LeasedRow) (d d' : Database W)
      (i : ℕ) (r : LeasedRow)
      → get row_id i d.messages ≡ some r
      → IsSettled r
      → process env owner at message d ≡ some d'
      → get row_id i d'.messages ≡ some r
  unfolding process
  process-keeps env owner at message d d' i r g s h = elim (ℕ_discrete message.id i) [
    | no ne ↦ process-Leaves env owner at message d d' h i ne ∙ g
    | yes e ↦
        let gone : standing owner at.checked_at (get row_id message.id d.messages) ≡ stale =
          ap (λ j. standing owner at.checked_at (get row_id j d.messages)) e
          ∙ ap (standing owner at.checked_at) g
          ∙ settled_is_not_held owner at.checked_at r s in
        let same : d ≡ d' = ground (arith, rw (gone, process) at h) in
        sym (ap (λ (x : Database W). get row_id i x.messages) same) ∙ g
  ]

  process_all-keeps :
      (env : Dispatcher W) (owner : String) (at : ℕ → Moment) (ms : List LeasedRow)
      (d d' : Database W) (i : ℕ) (r : LeasedRow)
      → get row_id i d.messages ≡ some r
      → IsSettled r
      → process_all env owner at ms d ≡ some d'
      → get row_id i d'.messages ≡ some r
  unfolding process_all
  process_all-keeps env owner at [] d d' i r g s h =
      let same : d ≡ d' = ground arith in
      sym (ap (λ (x : Database W). get row_id i x.messages) same) ∙ g
  process_all-keeps env owner at (m ∷ ms) d d' i r g s h =
      elim (Option-cases (process env owner (at m.id) m d)) [
        | inl e ↦ absurd (ground (arith, rw (e, process_all) at h))
        | inr (d1, e) ↦
            process_all-keeps env owner at ms d1 d' i r
              (process-keeps env owner (at m.id) m d d1 i r g s e) s (rw (e, process_all) at h)
      ]

  -- A message that is delivered or dead before a dispatch cycle of any worker is the same, column
  -- by column, after it, when the cycle ends without an exception.
  pub dispatch_cycle-IsSettled :
      (env : Dispatcher W) (batch lease_seconds now : ℕ) (owner : String) (at : ℕ → Moment)
      (d d' : Database W) (i : ℕ) (r : LeasedRow)
      → get row_id i d.messages ≡ some r
      → IsSettled r
      → dispatch_cycle env batch owner lease_seconds now at d ≡ some d'
      → get row_id i d'.messages ≡ some r
  unfolding dispatch_cycle claim_due
  dispatch_cycle-IsSettled env batch lease_seconds now owner at d d' i r g s h =
      process_all-keeps env owner at _ _ d' i r
        (claim_rows-keeps owner (now + seconds lease_seconds) now (due_ids now batch d.messages) i
          d.messages r g (settled_is_not_due now r s))
        s h
