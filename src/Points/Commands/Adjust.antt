-- ===== src/Points/Commands/Adjust.antt =====
-- `AdjustPoints`
use aiya_cms.Prelude.{
  ℕ, ◌-◌, String, not, ◌&&◌, Bool, true, false, none, some, Option, [], ltb, if◌then◌else◌,
}
use aiya_cms.Prelude.Int.{ℤ, pos, ◌-ℤ◌, pos_part, neg_part, ltb_ℤ}
use aiya_cms.Prelude.Result.{pure, gets, raise_if, ◌>>=◌, ◌>>◌}
use aiya_cms.Points.Model.{
  forbidden, zero_amount, duplicate_adjustment, perpetual, adjustment, PointsProgram, PointsAccount,
  PointsLedgerEntry, Points, CommandContext, AdjustInput, credited, debited, audit_adjusted, emit,
}
use aiya_cms.Points.Buckets.{Allocations, add_to_bucket, bucket_target}
use aiya_cms.Points.Limits.{contains}
use aiya_cms.Points.Accounts.{
  require_program, fresh_id, ensure_account, apply_balance, write_buckets, consume_buckets,
  add_allocations, find_idempotent, insert_entry, Reply, replay,
}

-- The bucket is looked up only if something enters it.
unfoldable pub fill_perpetual : CommandContext → PointsAccount → ℕ → Points (Unit {0})
fill_perpetual ctx account delta =
    if ltb 0 delta
    then (do
      bucket ← bucket_target ctx.now account.id perpetual none none
      write_buckets (add_to_bucket bucket delta))
    else pure tt

unfoldable pub adjust_balance : CommandContext → PointsAccount → ℤ → Points (ℤ × Allocations)
unfolding fill_perpetual
adjust_balance ctx account amount =
    if ltb_ℤ (pos 0) amount
    then (do
      new ← apply_balance account amount true
      fill_perpetual ctx account (pos_part new - pos_part (new -ℤ amount))
      pure (new, []))
    else consume_buckets account (neg_part amount) true

unfoldable pub adjust_new :
    CommandContext → PointsProgram → PointsAccount → AdjustInput → Points Reply
adjust_new ctx program account input = do
  (new, allocations) ← adjust_balance ctx account input.amount
  id ← fresh_id
  let entry : PointsLedgerEntry = record {
    id = id;
    program_id = program.id;
    account_id = account.id;
    amount = input.amount;
    entry_type = adjustment;
    created_at = ctx.now;
    behavior_key = none;
    source_type = none;
    source_id = none;
    idempotency_key = input.idempotency_key;
    entry_metadata = none;
    reversal_of = none;
  }
  insert_entry duplicate_adjustment entry
  add_allocations id allocations
  emit account.id (
      if ltb_ℤ input.amount (pos 0)
      then debited id input.amount new
      else credited id input.amount new)
  emit account.id (audit_adjusted input.amount id)
  pure (record { entry = entry; committed = true })

abbrev pub adjust_unless :
    CommandContext
    → PointsProgram
    → PointsAccount
    → AdjustInput
    → Option PointsLedgerEntry
    → Points Reply
adjust_unless ctx program account input (some existing) = do
  entry ← replay adjustment existing
  pure (record { entry = entry; committed = false })
adjust_unless ctx program account input none = adjust_new ctx program account input

abbrev pub is_zero : ℤ → Bool
is_zero a = not (ltb_ℤ a (pos 0)) && not (ltb_ℤ (pos 0) a)

-- `DEFAULT_PROGRAM_KEY`
abbrev pub default_program_key : Option String → String
default_program_key none = "credit"
default_program_key (some key) = key

unfoldable pub adjust_points : CommandContext → AdjustInput → Points Reply
adjust_points ctx input = do
  raise_if (not (contains ctx.permissions "points.adjust")) forbidden
  raise_if (is_zero input.amount) zero_amount
  program ← require_program (default_program_key input.program_key)
  account ← ensure_account ctx program input.subject_type input.subject_id
  existing ← gets (λ s. find_idempotent program.id input.idempotency_key s.entries)
  adjust_unless ctx program account input existing
