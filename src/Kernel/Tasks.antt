-- ===== src/Kernel/Tasks.antt =====
-- The task worker (inc/kernel/tasks/worker.py).
pub mod Attempts
use aiya_cms.Prelude.{
  seconds, ℕ, ◌+◌, String, Bool, true, false, Option, none, some, List, [], ◌∷◌, if◌then◌else◌,
}
use aiya_cms.Prelude.Table.{get, put}
use aiya_cms.Kernel.Errors.{RetryCategory, permanent, Raised, classify_retry}
use aiya_cms.Kernel.Retry.{RetryPolicy, should_retry, next_attempt_delay}
use aiya_cms.Kernel.Lease.{
  Status, pending, finished, dead, LeasedRow, row_id, due_ids, claim_rows, picked_rows,
}

-- `TaskRepository.claim_due`
unfoldable pub claim_due : ℕ → String → ℕ → ℕ → List LeasedRow → List LeasedRow × List LeasedRow
claim_due batch owner lease_seconds now t =
    let ids = due_ids now batch t in
    let t' = claim_rows owner (now + seconds lease_seconds) now ids t in (picked_rows ids t', t')

abbrev pub completed : LeasedRow → LeasedRow
completed r = record r {
  status = finished;
  lease_owner = none;
  lease_expires_at = none;
  error_category = none;
}

abbrev pub retried : ℕ → RetryCategory → LeasedRow → LeasedRow
retried at category r = record r {
  status = pending;
  attempts = r.attempts + 1;
  due_at = at;
  lease_owner = none;
  lease_expires_at = none;
  error_category = some category;
}

abbrev pub buried : RetryCategory → LeasedRow → LeasedRow
buried category r = record r {
  status = dead;
  attempts = r.attempts + 1;
  lease_owner = none;
  lease_expires_at = none;
  error_category = some category;
}

-- The tasks, and the tables that the handlers write.
pub record Queue (W : Type 0) : Type 0 where
  pub tasks : List LeasedRow
  pub world : W

-- How a handler ends. After `session_broken` (a flush of its unit of work failed and was not rolled
-- back, or it left rows that do not flush) whatever is done next in that unit of work raises.
pub data HandlerEnd : Type 0 where
  returned : HandlerEnd
  raised : Raised → HandlerEnd
  session_broken : HandlerEnd

-- A registered task. The handler takes the payload's id, the attempt and the tables; what it wrote
-- before it raised (or timed out) is still in the unit of work.
pub record TaskSpec (W : Type 0) : Type 0 where
  pub handler : ℕ → ℕ → W → HandlerEnd × W
  pub retry : RetryPolicy

module _ {W : Type 0} where
  -- The mark that a failure leads to, `failed_at` being the clock.
  unfoldable pub after_failure : TaskSpec W → ℕ → ℕ → Raised → LeasedRow → LeasedRow
  after_failure spec failed_at sample e fresh =
      let category = classify_retry e in
      let attempts = fresh.attempts + 1 in
      if should_retry spec.retry category attempts
      then retried (failed_at + next_attempt_delay spec.retry category attempts sample) category
          fresh
      else buried category fresh

  -- The mark and the handler's writes are one commit; `false` is an exception out of `_execute`,
  -- which leaves the tables as they were.
  unfoldable pub concluded :
      TaskSpec W → ℕ → ℕ → LeasedRow → Queue W → HandlerEnd × W → Bool × Queue W
  concluded spec failed_at sample fresh q (returned, w) =
      (true, record { tasks = put row_id (completed fresh) q.tasks; world = w })
  concluded spec failed_at sample fresh q (raised e, w) = (
    true,
    record { tasks = put row_id (after_failure spec failed_at sample e fresh) q.tasks; world = w },
  )
  concluded spec failed_at sample fresh q (session_broken, w) = (false, q)

  unfoldable pub execute_fresh :
      Option (TaskSpec W) → ℕ → ℕ → Option LeasedRow → Queue W → Bool × Queue W
  execute_fresh spec failed_at sample none q = (true, q)
  execute_fresh none failed_at sample (some fresh) q =
      (true, record q { tasks = put row_id (buried permanent fresh) q.tasks })
  execute_fresh (some spec) failed_at sample (some fresh) q =
      concluded spec failed_at sample fresh q
        (spec.handler fresh.subject (fresh.attempts + 1) q.world)

  -- `_execute`: `task` as claimed.
  unfoldable pub execute :
      (String → Option (TaskSpec W)) → ℕ → ℕ → LeasedRow → Queue W → Bool × Queue W
  execute lookup failed_at sample task q =
      execute_fresh (lookup task.key) failed_at sample (get row_id task.id q.tasks) q

  -- The loop over the claimed tasks; an exception ends it.
  unfoldable pub execute_all :
      (String → Option (TaskSpec W)) → (ℕ → ℕ × ℕ) → List LeasedRow → Queue W → Bool × Queue W
  unfolding execute
  execute_all lookup at [] q = (true, q)
  execute_all lookup at (task ∷ rest) q =
      let (failed_at, sample) = at task.id in
      let (went, q') = execute lookup failed_at sample task q in
      let more = execute_all lookup at rest q' in if went then more else (false, q')

  -- `run_cycle`: the claim commits, then the tasks one by one; `at` is the clock and the jitter.
  unfoldable pub run_cycle :
      (String → Option (TaskSpec W)) → ℕ → String → ℕ → ℕ → (ℕ → ℕ × ℕ) → Queue W → Bool × Queue W
  unfolding execute_all
  run_cycle lookup batch owner lease_seconds now at q =
      let (tasks, t) = claim_due batch owner lease_seconds now q.tasks in
      execute_all lookup at tasks (record q { tasks = t })
