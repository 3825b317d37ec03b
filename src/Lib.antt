-- ===== src/Lib.antt =====
-- aiya-cms: the points and membership capabilities and the runtime of its kernel, with what makes
-- them correct.
--
-- The program is a content management server. Capabilities (inc/capabilities) own tables and
-- commands; each command runs in a unit of work (inc/kernel/db/uow.py) and appends its events to
-- the outbox in the same transaction. The kernel (inc/kernel) delivers the events to handlers,
-- each guarded by an inbox receipt, runs queued tasks, and runs persistent workflows step by step;
-- both claim rows under a lease and retry under a policy.
--
-- Points/Model.antt has the tables of inc/capabilities/points/models.py as records, and `Store` as
-- all of them; a UUID is a number that the store counts up. Points/Buckets.antt,
-- Points/Accounts.antt and Points/Limits.antt are the helpers of
-- inc/capabilities/points/commands.py, Points/Commands/* its commands: CreditPoints is
-- `credit_points` (with `credit_in_uow`), DebitPoints `debit_points`, ReverseLedgerEntry
-- `reverse_entry`, AdjustPoints `adjust_points`, ExpireBuckets `expire_buckets`,
-- FreezePointsAccount `freeze_account`, OpenPointsAccount `open_points_account`. A command is a
-- function of the store that ends in a result and a store, or in an error code.
-- Points/Service.antt puts each in a unit of work: what is not committed is rolled back.
-- Points/Ledger.antt states the invariant, and Points/Ledger/* carries it through the commands.
--
-- Membership/Model.antt has the tables of inc/capabilities/membership/models.py, and
-- Membership/Commands/* the commands of its commands.py: PrepareSubscriptionCycle is
-- `prepare_cycle`, AttachPointsGrant `attach_points_grant`, MarkCycleFailed `mark_cycle_failed`,
-- CancelSubscription `cancel_subscription`, TerminateSubscription `terminate_subscription`,
-- ExpireSubscription `expire_subscriptions`. Membership/Cycles.antt states what ties subscriptions
-- to their cycles, and Membership/Cycles/* carries it through the commands. The points that a
-- cycle grants are granted by the points capability; the cycle only keeps the id of their entry.
--
-- Kernel/Errors.antt and Kernel/Retry.antt are inc/kernel/errors/__init__.py and `RetryPolicy` of
-- inc/kernel/workflow/spec.py. Kernel/Lease.antt is the claiming that kernel_outbox and the task
-- table share; Kernel/Outbox.antt is inc/kernel/events/outbox.py, Kernel/Inbox.antt
-- inc/kernel/events/inbox.py, Kernel/Tasks.antt inc/kernel/tasks/worker.py.
-- Kernel/Workflow/Model.antt has the tables and declarations of inc/kernel/workflow,
-- Kernel/Workflow/Settle.antt and Kernel/Workflow/Step.antt are `_step_once` and `advance` of its
-- runner.py, Kernel/Workflow/Signals.antt `start` and `deliver_signal`,
-- Kernel/Workflow/Runner.antt `claim_due` and `run_due`. Kernel/Registry.antt is the registration
-- that the registries of tasks, workflows and event schemas share, Kernel/Registry/Handlers.antt
-- that of event handlers. Kernel/Cron.antt is `tick` of inc/kernel/tasks/cron.py. Handlers,
-- schemas, the clock, the jitter and the float arithmetic of a retry delay are arguments. A handler
-- that runs in its caller's unit of work may leave the session unusable: then the caller raises and
-- commits nothing.
--
-- Loops are structural recursion over the rows that were loaded. Two loops take fuel. For that of
-- `advance` one more than the number of activities is enough, since every turn that does not
-- return moves the instance to a later activity; for the loop over the missed times of a schedule
-- one turn for each microsecond up to now is enough, since the time that a trigger gives after one
-- in the past is later. Amounts are Python integers without a bound: amounts of buckets are natural
-- numbers, as the table's check constraint has it, balances and entries are integers. Times count
-- microseconds.
--
-- Not modelled: two units of work that interleave (the conditional updates keep their version
-- tests, but the store does not change under a running command), RebuildBalance, columns that no
-- operation reads (actors, reasons, display names), the validation of payloads, metrics, and the
-- other capabilities, the registration of membership levels, the HTTP API, the adapters and the
-- front ends.
pub mod Prelude
pub mod Points
pub mod Membership
pub mod Kernel
