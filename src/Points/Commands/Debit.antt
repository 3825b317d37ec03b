-- ===== src/Points/Commands/Debit.antt =====
-- `DebitPoints`
use aiya_cms.Prelude.{String, ◌||◌, true, false, none, some, Option}
use aiya_cms.Prelude.Int.{pos, neg}
use aiya_cms.Prelude.Result.{pure, gets, raise_if, ◌>>=◌, ◌>>◌}
use aiya_cms.Points.Model.{
  behavior_direction, account_not_debitable, duplicate_debit, frozen, debt, eq_state, debit,
  PointsProgram, PointsLedgerEntry, Points, PointBehaviorSpec, CommandContext, CreditDebitInput,
  debited, emit,
}
use aiya_cms.Points.Limits.{require_behavior, is_credit, validate_limits}
use aiya_cms.Points.Accounts.{
  require_program, fresh_id, ensure_account, consume_buckets, add_allocations, find_idempotent,
  insert_entry, Reply, replay,
}

unfoldable pub debit_new :
    CommandContext → PointBehaviorSpec → PointsProgram → CreditDebitInput → Points Reply
debit_new ctx spec program input = do
  account ← ensure_account ctx program input.subject_type input.subject_id
  raise_if (eq_state account.state frozen || eq_state account.state debt) account_not_debitable
  validate_limits ctx spec account.id input.amount
  (new, allocations) ← consume_buckets account input.amount false
  id ← fresh_id
  let entry : PointsLedgerEntry = record {
    id = id;
    program_id = program.id;
    account_id = account.id;
    amount = neg (pos input.amount);
    entry_type = debit;
    created_at = ctx.now;
    behavior_key = some spec.key;
    source_type = some input.source_type;
    source_id = some input.source_id;
    idempotency_key = input.idempotency_key;
    entry_metadata = none;
    reversal_of = none;
  }
  insert_entry duplicate_debit entry
  add_allocations id allocations
  emit account.id (debited id (neg (pos input.amount)) new)
  pure (record { entry = entry; committed = true })

abbrev pub debit_unless :
    CommandContext
    → PointBehaviorSpec
    → PointsProgram
    → CreditDebitInput
    → Option PointsLedgerEntry
    → Points Reply
debit_unless ctx spec program input (some existing) = do
  entry ← replay debit existing
  pure (record { entry = entry; committed = false })
debit_unless ctx spec program input none = debit_new ctx spec program input

unfoldable pub debit_points : CommandContext → String → CreditDebitInput → Points Reply
debit_points ctx behavior_key input = do
  spec ← require_behavior ctx behavior_key
  raise_if (is_credit spec.direction) behavior_direction
  program ← require_program spec.program_key
  existing ← gets (λ s. find_idempotent program.id input.idempotency_key s.entries)
  debit_unless ctx spec program input existing
