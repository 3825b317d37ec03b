-- ===== src/Kernel/Tests.antt =====
-- The theorems on inc/kernel at concrete tables, dispatchers and task queues.
use aiya_cms.Prelude.{
  ℕ, ◌+◌, ◌*◌, ◌^◌, ◌≤◌, ◌≡◌, refl, String, true, Option, none, some, List, [], ◌∷◌, arith, All,
  inl,
}
use aiya_cms.Prelude.Result.{Result, ok, err}
use aiya_cms.Prelude.Table.{get, put}
use aiya_cms.Kernel.Errors.{
  classify_retry, transient, limited, permanent, cancelled, kernel_error, dependency_unavailable,
}
use aiya_cms.Kernel.Retry.{
  RetryPolicy, should_retry, backoff, next_attempt_delay, next_attempt_delay_bounds,
}
use aiya_cms.Kernel.Lease.{
  pending, claimed, finished, LeasedRow, row_id, due_ids, claim_rows, owned_rows, is_due, sort_by,
  insert_by,
}
use aiya_cms.Kernel.Lease.Claims.{HeldBy}
use aiya_cms.Kernel.Outbox.{
  delivered, Database, Dispatcher, Moment, claim_due, process, process_all, standing, run_handlers,
  conclude, mark_fresh, mark_retry, mark, dispatch_cycle,
}
use aiya_cms.Kernel.Outbox.Delivery.{claim_due-Exclusive, claim_due-HeldBy}
use aiya_cms.Kernel.Outbox.Settled.{dispatch_cycle-IsSettled}
use aiya_cms.Kernel.Outbox.Outcome.{Ends, process-Ends, conclude-delivered}
use aiya_cms.Kernel.Inbox.Once.{runs, runs_bound}
use aiya_cms.Kernel.Tasks.{raised, TaskSpec, execute}
use aiya_cms.Kernel.Tasks.Attempts.{Executed, execute-Ended}

-- The defaults of `RetryPolicy`.
abbrev policy : RetryPolicy
policy = record {
  max_attempts = 5;
  base_delay = 1000000;
  max_delay = 300000000;
  scaled = λ base n. base * 2 ^ n;
  jitter = 100000;
  permanent_categories = permanent ∷ cancelled ∷ [];
}

next_attempt_delay_bounds_example :
    (backoff policy limited 3 ≤ next_attempt_delay policy limited 3 70000)
    × (next_attempt_delay policy limited 3 70000 ≤ 300000000 + 100000)
next_attempt_delay_bounds_example = next_attempt_delay_bounds policy limited 3 70000 (omega arith)

abbrev waiting : LeasedRow
waiting = record {
  id = 1;
  key = "points.credited.v1";
  subject = 11;
  status = pending;
  attempts = 1;
  due_at = 50;
  lease_owner = none;
  lease_expires_at = none;
  error_category = some transient;
}

abbrev taken : LeasedRow
taken = record {
  id = 2;
  key = "points.debited.v1";
  subject = 12;
  status = claimed;
  attempts = 0;
  due_at = 40;
  lease_owner = some "first";
  lease_expires_at = some 160;
  error_category = none;
}

abbrev sent : LeasedRow
sent = record {
  id = 3;
  key = "points.debited.v1";
  subject = 13;
  status = finished;
  attempts = 0;
  due_at = 30;
  lease_owner = none;
  lease_expires_at = none;
  error_category = none;
}

abbrev rows : List LeasedRow
rows = waiting ∷ taken ∷ sent ∷ []

claim_due-Exclusive_example : get row_id 2 (claim_due 20 "second" 60 100 rows).1 ≡ some taken
unfolding get
claim_due-Exclusive_example =
    claim_due-Exclusive 20 60 100 160 2 "first" "second" rows taken refl (refl, refl, refl)
      (omega arith)

claim_due-HeldBy_example : All (HeldBy "second" 60000100) (claim_due 20 "second" 60 100 rows).0
unfolding get
claim_due-HeldBy_example = claim_due-HeldBy 20 60 100 "second" rows (refl, (refl, (refl, tt)))

-- A handler that counts, and one that fails.
abbrev dispatcher : Dispatcher ℕ
dispatcher = record {
  known_schema = λ key. true;
  handlers_for = λ key.
      (λ subject n. ok (n + 1)) ∷ (λ subject n. err (kernel_error dependency_unavailable)) ∷ [];
  retry_policy = policy;
}

abbrev moment : Moment
moment = record { checked_at = 110; failed_at = 120; jitter_sample = 5 }

process-Ends_example :
    Ends policy 120 taken
      (process dispatcher "first" moment taken (record { messages = rows; world = 0 }))
unfolding get
process-Ends_example =
    process-Ends dispatcher "first" 160 moment taken (record { messages = rows; world = 0 }) refl
      (refl, refl, refl) (omega arith)

abbrev runs_example_work : String → ℕ → ℕ → Result ℕ ℕ
runs_example_work handler event n = ok (n + 1)

runs_bound_example :
    runs runs_example_work "audit" 7
      (("audit", 7) ∷ ("mail", 7) ∷ ("audit", 7) ∷ [])
      (record { receipts = []; world = 0 })
    ≤ 1
runs_bound_example =
    runs_bound runs_example_work "audit" 7 (("audit", 7) ∷ ("mail", 7) ∷ ("audit", 7) ∷ [])
      (record { receipts = []; world = 0 })

-- A task whose handler writes and then fails.
abbrev task_specs : String → Option (TaskSpec ℕ)
task_specs key = some (record {
  handler = λ subject attempt n. (raised (kernel_error dependency_unavailable), n + 1);
  retry = policy;
})

execute-Ended_example :
    Executed
      (task_specs "points.debited.v1")
      120
      taken
      2
      (record { tasks = rows; world = 0 })
      (execute task_specs 120 5 taken (record { tasks = rows; world = 0 }))
unfolding get
execute-Ended_example =
    execute-Ended task_specs 120 5 taken taken (record { tasks = rows; world = 0 }) refl

-- The cycle of another worker takes the waiting message, and its second handler fails.
abbrev after : Database ℕ
after = record {
  messages =
      record {
        id = 1;
        key = "points.credited.v1";
        subject = 11;
        status = pending;
        attempts = 2;
        due_at = 2000125;
        lease_owner = none;
        lease_expires_at = none;
        error_category = some transient;
      }
      ∷ taken
      ∷ sent
      ∷ [];
  world = 1;
}

dispatch_cycle-IsSettled_example : get row_id 3 after.messages ≡ some sent
unfolding get put dispatch_cycle process_all process standing claim_due due_ids claim_rows
    owned_rows is_due sort_by insert_by run_handlers conclude mark_fresh mark_retry mark
    should_retry next_attempt_delay backoff classify_retry
dispatch_cycle-IsSettled_example =
    dispatch_cycle-IsSettled dispatcher 20 60 100 "second" (λ id. moment)
      (record { messages = rows; world = 0 }) after 3 sent refl (inl refl) refl

-- The lease of "first" is held; a worker whose claim of the same message ran out still concludes it.
conclude-delivered_example :
    (d' : Database ℕ) × (conclude dispatcher moment
        (record taken { lease_owner = some "late" })
        none
        (record { messages = rows; world = 0 })
      ≡ some d')
    × (get row_id 2 d'.messages ≡ some (delivered taken))
unfolding get
conclude-delivered_example =
    conclude-delivered dispatcher moment (record taken { lease_owner = some "late" }) taken
      (record { messages = rows; world = 0 }) "first" 160 refl (refl, refl, refl)
