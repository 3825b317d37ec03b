-- ===== src/Points/Commands/Reverse.antt =====
-- `ReverseLedgerEntry`
use aiya_cms.Prelude.{
  ℕ, String, not, Bool, true, false, none, some, Option, [], ◌==◌, if◌then◌else◌, eq_option, any,
}
use aiya_cms.Prelude.Int.{ℤ, pos, pos_part, neg_part, neg, ltb_ℤ}
use aiya_cms.Prelude.Result.{pure, gets, or_raise, raise_if, ◌>>=◌, ◌>>◌}
use aiya_cms.Prelude.Table.{get}
use aiya_cms.Points.Model.{
  entry_not_found, reversal_not_allowed, reversal_of_reversal, already_reversed, account_not_found,
  duplicate_reversal, reversal, eq_entry_type, PointsProgram, PointsAccount, PointsLedgerEntry,
  Points, CommandContext, entry_reversed, emit,
}
use aiya_cms.Points.Buckets.{Allocations}
use aiya_cms.Points.Accounts.{
  account_id, entry_id, program_id, fresh_id, consume_buckets, restore_buckets, add_allocations,
  entry_allocations, find_idempotent, insert_entry, Reply, replay,
}

-- A credit is spent back from the buckets; a debit or an expiration goes back to the buckets that
-- it drew from, and then no allocation is recorded.
unfoldable pub undo : CommandContext → PointsAccount → PointsLedgerEntry → Points (ℤ × Allocations)
undo ctx account entry =
    if ltb_ℤ (pos 0) entry.amount then consume_buckets account (pos_part entry.amount) true else (do
      targets ← gets (λ s. entry_allocations entry.id s.buckets s.allocations)
      new ← restore_buckets ctx account (neg_part entry.amount) targets
      pure (new, []))

abbrev pub allows : Option PointsProgram → Bool
allows none = false
allows (some p) = p.allow_admin_reversal

abbrev pub reverses : ℕ → PointsLedgerEntry → Bool
reverses id e = eq_option ◌==◌ e.reversal_of (some id)

unfoldable pub reverse_new : CommandContext → PointsLedgerEntry → String → Points Reply
reverse_new ctx entry key = do
  already ← gets (λ s. any (reverses entry.id) s.entries)
  raise_if already already_reversed
  found ← gets (λ s. get account_id entry.account_id s.accounts)
  account ← or_raise found account_not_found
  (new, allocations) ← undo ctx account entry
  id ← fresh_id
  let row : PointsLedgerEntry = record {
    id = id;
    program_id = entry.program_id;
    account_id = entry.account_id;
    amount = neg entry.amount;
    entry_type = reversal;
    created_at = ctx.now;
    behavior_key = entry.behavior_key;
    source_type = entry.source_type;
    source_id = entry.source_id;
    idempotency_key = key;
    entry_metadata = none;
    reversal_of = some entry.id;
  }
  insert_entry duplicate_reversal row
  add_allocations id allocations
  emit account.id (entry_reversed entry.id id (neg entry.amount) new)
  pure (record { entry = row; committed = true })

abbrev pub reverse_unless :
    CommandContext → PointsLedgerEntry → String → Option PointsLedgerEntry → Points Reply
reverse_unless ctx entry key (some existing) = do
  row ← replay reversal existing
  pure (record { entry = row; committed = false })
reverse_unless ctx entry key none = reverse_new ctx entry key

unfoldable pub reverse_entry : CommandContext → ℕ → String → Points Reply
reverse_entry ctx id key = do
  found ← gets (λ s. get entry_id id s.entries)
  entry ← or_raise found entry_not_found
  program ← gets (λ s. get program_id entry.program_id s.programs)
  raise_if (not (allows program)) reversal_not_allowed
  raise_if (eq_entry_type entry.entry_type reversal) reversal_of_reversal
  existing ← gets (λ s. find_idempotent entry.program_id key s.entries)
  reverse_unless ctx entry key existing
