-- ===== src/Points/Commands/Credit.antt =====
-- `CreditPoints`
use aiya_cms.Prelude.{ℕ, ◌-◌, String, not, true, none, some, Option, ltb, if◌then◌else◌}
use aiya_cms.Prelude.Int.{pos, ◌-ℤ◌, pos_part}
use aiya_cms.Prelude.Result.{pure, gets, raise_if, ◌>>=◌, ◌>>◌}
use aiya_cms.Points.Model.{
  behavior_direction, source_type_not_allowed, account_frozen, duplicate_credit, frozen, eq_state,
  credit, PointsBucket, PointsProgram, PointsLedgerEntry, Points, PointBehaviorSpec, CommandContext,
  CreditDebitInput, credited, emit,
}
use aiya_cms.Points.Buckets.{add_to_bucket, bucket_target}
use aiya_cms.Points.Limits.{require_behavior, contains, is_credit, credit_routing, validate_limits}
use aiya_cms.Points.Accounts.{
  require_program, fresh_id, ensure_account, apply_balance, write_buckets, find_idempotent,
  insert_entry, Reply, replay,
}

-- A credit first pays a debt down; only the excess enters the bucket.
unfoldable pub fill_bucket : PointsBucket → ℕ → Points (Unit {0})
fill_bucket bucket delta =
    if ltb 0 delta then write_buckets (add_to_bucket bucket delta) else pure tt

unfoldable pub credit_new :
    CommandContext → PointBehaviorSpec → PointsProgram → CreditDebitInput → Points PointsLedgerEntry
credit_new ctx spec program input = do
  account ← ensure_account ctx program input.subject_type input.subject_id
  raise_if (eq_state account.state frozen) account_frozen
  validate_limits ctx spec account.id input.amount
  let routing = credit_routing spec ctx.now input.expires_at
  bucket ← bucket_target ctx.now account.id routing.bucket_type routing.identity routing.expires_at
  new ← apply_balance account (pos input.amount) true
  fill_bucket bucket (pos_part new - pos_part (new -ℤ pos input.amount))
  id ← fresh_id
  let entry : PointsLedgerEntry = record {
    id = id;
    program_id = program.id;
    account_id = account.id;
    amount = pos input.amount;
    entry_type = credit;
    created_at = ctx.now;
    behavior_key = some spec.key;
    source_type = some input.source_type;
    source_id = some input.source_id;
    idempotency_key = input.idempotency_key;
    entry_metadata = some routing;
    reversal_of = none;
  }
  insert_entry duplicate_credit entry
  emit account.id (credited id (pos input.amount) new)
  pure entry

abbrev pub credit_unless :
    CommandContext
    → PointBehaviorSpec
    → PointsProgram
    → CreditDebitInput
    → Option PointsLedgerEntry
    → Points PointsLedgerEntry
credit_unless ctx spec program input (some existing) = replay credit existing
credit_unless ctx spec program input none = credit_new ctx spec program input

-- `credit_in_uow`
unfoldable pub credit_in_uow : CommandContext → String → CreditDebitInput → Points PointsLedgerEntry
credit_in_uow ctx behavior_key input = do
  spec ← require_behavior ctx behavior_key
  raise_if (not (is_credit spec.direction)) behavior_direction
  raise_if (not (contains spec.allowed_source_types input.source_type)) source_type_not_allowed
  program ← require_program spec.program_key
  existing ← gets (λ s. find_idempotent program.id input.idempotency_key s.entries)
  credit_unless ctx spec program input existing

-- `__call__` commits, also on a replay.
unfoldable pub credit_points : CommandContext → String → CreditDebitInput → Points Reply
credit_points ctx behavior_key input = do
  entry ← credit_in_uow ctx behavior_key input
  pure (record { entry = entry; committed = true })
