-- ===== src/Points/Commands/Expire.antt =====
-- `ExpireBuckets`
use aiya_cms.Prelude.{
  ℕ, ◌&&◌, Bool, true, false, none, some, Option, List, [], ◌∷◌, ◌++◌, ltb, leb, if◌then◌else◌,
  select,
}
use aiya_cms.Prelude.Int.{pos, ◌-ℤ◌, neg}
use aiya_cms.Prelude.Result.{pure, gets, ◌>>=◌, ◌>>◌}
use aiya_cms.Prelude.Table.{get}
use aiya_cms.Points.Model.{
  expiration_conflict, expiring, eq_bucket_type, expiration, PointsProgram, PointsAccount,
  PointsBucket, PointsLedgerEntry, Points, CommandContext, bucket_expired, emit,
}
use aiya_cms.Points.Buckets.{update_bucket}
use aiya_cms.Points.Accounts.{
  account_id, program_id, fresh_id, get_balance, set_balance, sync_account_state, write_buckets,
  add_allocations, insert_entry,
}

abbrev pub is_past : ℕ → Option ℕ → Bool
is_past now none = false
is_past now (some e) = leb e now

abbrev pub is_due : ℕ → PointsBucket → Bool
is_due now b = eq_bucket_type b.bucket_type expiring && is_past now b.expires_at && ltb 0 b.amount

-- ORDER BY expires_at
abbrev pub expires_le : Option ℕ → Option ℕ → Bool
expires_le (some a) (some b) = leb a b
expires_le _ _ = true

abbrev pub insert_due : PointsBucket → List PointsBucket → List PointsBucket
insert_due b [] = b ∷ []
insert_due b (c ∷ cs) =
    if expires_le b.expires_at c.expires_at then b ∷ c ∷ cs else c ∷ insert_due b cs

abbrev pub sort_due : List PointsBucket → List PointsBucket
sort_due [] = []
sort_due (b ∷ bs) = insert_due b (sort_due bs)

unfoldable pub due_buckets : ℕ → List PointsBucket → List PointsBucket
due_buckets now t = sort_due (select (is_due now) t)

-- One round of the sweep, for a bucket whose account and program are found.
unfoldable pub expire_bucket :
    CommandContext → PointsBucket → PointsAccount → PointsProgram → Points PointsLedgerEntry
expire_bucket ctx bucket account program = do
  id ← fresh_id
  let entry : PointsLedgerEntry = record {
    id = id;
    program_id = program.id;
    account_id = account.id;
    amount = neg (pos bucket.amount);
    entry_type = expiration;
    created_at = ctx.now;
    behavior_key = bucket.expiration_identity;
    source_type = some "system";
    source_id = some (ctx.bucket_source bucket.id);
    idempotency_key = ctx.expiration_key bucket.id bucket.version;
    entry_metadata = none;
    reversal_of = none;
  }
  insert_entry expiration_conflict entry
  add_allocations id ((bucket, bucket.amount) ∷ [])
  row ← get_balance account.id
  let new = row.balance -ℤ pos bucket.amount
  set_balance row new
  sync_account_state account new
  write_buckets (update_bucket bucket (λ _. true) (λ _. 0))
  emit account.id (bucket_expired id bucket.id (pos bucket.amount) new)
  pure entry

abbrev pub expire_if :
    CommandContext
    → PointsBucket
    → Option PointsAccount
    → Option PointsProgram
    → Points (List PointsLedgerEntry)
expire_if ctx bucket (some account) (some program) = do
  entry ← expire_bucket ctx bucket account program
  pure (entry ∷ [])
expire_if ctx bucket _ _ = pure []

abbrev pub program_of : Option PointsAccount → List PointsProgram → Option PointsProgram
program_of none t = none
program_of (some a) t = get program_id a.program_id t

unfoldable pub expire_one : CommandContext → PointsBucket → Points (List PointsLedgerEntry)
expire_one ctx bucket = do
  account ← gets (λ s. get account_id bucket.account_id s.accounts)
  program ← gets (λ s. program_of account s.programs)
  expire_if ctx bucket account program

unfoldable pub expire_loop : CommandContext → List PointsBucket → Points (List PointsLedgerEntry)
unfolding expire_one
expire_loop ctx [] = pure []
expire_loop ctx (b ∷ bs) = do
  made ← expire_one ctx b
  rest ← expire_loop ctx bs
  pure (made ++ rest)

unfoldable pub expire_buckets : CommandContext → Points (List PointsLedgerEntry)
expire_buckets ctx = do due ← gets (λ s. due_buckets ctx.now s.buckets); expire_loop ctx due
