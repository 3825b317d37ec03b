-- ===== src/Kernel/Workflow/Runner.antt =====
-- `WorkflowRepository.claim_due` and `WorkflowRunner.run_due` (inc/kernel/workflow/runner.py).
use aiya_cms.Prelude.{
  ℕ, ◌+◌, String, Bool, true, false, Option, none, some, List, [], ◌∷◌, ◌&&◌, ◌==◌, ltb, leb,
  str_eq, take, select, any, map, seconds, if◌then◌else◌,
}
use aiya_cms.Prelude.Result.{Result, ok, err, gets, modify, ◌>>=◌, ◌>>◌}
use aiya_cms.Kernel.Lease.{lease_is_over}
use aiya_cms.Kernel.Workflow.Model.{
  WorkflowError, is_pending, WorkflowStatus, WorkflowInstance, WorkflowStore, WorkflowRunner,
  Workflow, instance_id,
}
use aiya_cms.Kernel.Workflow.Step.{advance}

-- `wake_at <= now`, which NULL does not satisfy.
abbrev pub has_woken : ℕ → Option ℕ → Bool
has_woken at none = false
has_woken at (some wake) = leb wake at

-- The condition `due`.
unfoldable pub is_due : ℕ → WorkflowInstance → Bool
is_due at i = is_pending i.status && has_woken at i.wake_at && lease_is_over at i.lease_expires_at

abbrev pub wake_time : Option ℕ → ℕ
wake_time none = 0
wake_time (some at) = at

-- ORDER BY wake_at, id
abbrev pub wakes_before : WorkflowInstance → WorkflowInstance → Bool
wakes_before a b =
    if wake_time a.wake_at == wake_time b.wake_at
    then leb a.id b.id
    else ltb (wake_time a.wake_at) (wake_time b.wake_at)

abbrev pub id_before : WorkflowInstance → WorkflowInstance → Bool
id_before a b = leb a.id b.id

unfoldable pub insert_instance :
    (WorkflowInstance → WorkflowInstance → Bool)
    → WorkflowInstance
    → List WorkflowInstance
    → List WorkflowInstance
insert_instance le r [] = r ∷ []
insert_instance le r (q ∷ t) = if le r q then r ∷ q ∷ t else q ∷ insert_instance le r t

unfoldable pub sort_instances :
    (WorkflowInstance → WorkflowInstance → Bool) → List WorkflowInstance → List WorkflowInstance
unfolding insert_instance
sort_instances le [] = []
sort_instances le (r ∷ t) = insert_instance le r (sort_instances le t)

abbrev pub is_among : List ℕ → WorkflowInstance → Bool
is_among ids i = any (λ j. j == i.id) ids

-- The update of the rows that were picked and are still due.
unfoldable pub lease_rows : String → ℕ → ℕ → List ℕ → List WorkflowInstance → List WorkflowInstance
unfolding is_due
lease_rows owner expires at ids [] = []
lease_rows owner expires at ids (i ∷ t) =
    let rest = lease_rows owner expires at ids t in
    if is_among ids i && is_due at i
    then record i { lease_owner = some owner; lease_expires_at = some expires } ∷ rest
    else i ∷ rest

-- `workflow_key is not None and instance.workflow_key != workflow_key`
abbrev pub is_skipped : Option String → WorkflowInstance → Bool
is_skipped none i = false
is_skipped (some key) i = if str_eq i.workflow_key key then false else true

module _ {W : Type 0} where
  abbrev pub one_more :
      Result WorkflowError ℕ × WorkflowStore W → Result WorkflowError ℕ × WorkflowStore W
  one_more (ok n, s) = (ok (n + 1), s)
  one_more (err e, s) = (err e, s)

  -- The rest of the loop, after one instance.
  abbrev pub and_more :
      (WorkflowStore W → Result WorkflowError ℕ × WorkflowStore W)
      → Result WorkflowError (Option WorkflowStatus) × WorkflowStore W
      → Result WorkflowError ℕ × WorkflowStore W
  and_more more (ok _, s) = one_more (more s)
  and_more more (err e, s) = (err e, s)

module _ {W : Type 0} (run : WorkflowRunner W) where
  -- `claim_due`
  unfoldable pub claim_due : ℕ → String → ℕ → ℕ → Workflow W (List WorkflowInstance)
  unfolding sort_instances lease_rows is_due
  claim_due batch owner lease_seconds at = do
    ids ← gets (λ s.
        map instance_id (take batch (sort_instances wakes_before (select (is_due at) s.instances))))
    modify (λ s. record s {
      instances = lease_rows owner (at + seconds lease_seconds) at ids s.instances;
    })
    gets (λ s. sort_instances id_before (select (is_among ids) s.instances))

  -- The loop over the claimed instances, `fuel` being that of each `advance`. An error ends it.
  unfoldable pub advance_all :
      ℕ
      → Option String
      → List WorkflowInstance
      → WorkflowStore W
      → Result WorkflowError ℕ × WorkflowStore W
  unfolding advance
  advance_all fuel key [] s = (ok 0, s)
  advance_all fuel key (i ∷ rest) s =
      let more = advance_all fuel key rest in
      if is_skipped key i then more s else and_more more (advance run fuel i.id s)

  -- `run_due`: the claim commits, then the instances advance one by one.
  unfoldable pub run_due :
      ℕ
      → Option String
      → ℕ
      → String
      → ℕ
      → WorkflowStore W
      → Result WorkflowError ℕ × WorkflowStore W
  unfolding claim_due advance_all
  run_due fuel key batch owner lease_seconds s =
      elim (claim_due batch owner lease_seconds (run.utc_now s.world) s) [
        | ok (instances, s') ↦ advance_all fuel key instances s'
        | err e ↦ (err e, s)
      ]
