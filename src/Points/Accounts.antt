-- ===== src/Points/Accounts.antt =====
-- Accounts, balances and ledger rows in inc/capabilities/points/commands.py: lookup, opening, the
-- conditional update of a balance, and the account state that follows it.
use aiya_cms.Prelude.{
  ℕ, ◌+◌, ◌-◌, String, min, ◌&&◌, not, Bool, Option, none, some, List, [], ◌∷◌, ◌++◌, ◌==◌, ltb,
  str_eq, if◌then◌else◌, first, any,
}
use aiya_cms.Prelude.Int.{ℤ, pos, ◌+ℤ◌, ◌-ℤ◌, ltb_ℤ, neg_part}
use aiya_cms.Prelude.Result.{
  Result, ok, err, pure, raise, gets, modify, or_raise, raise_if, ◌>>=◌, ◌>>◌,
}
use aiya_cms.Prelude.Table.{get, put}
use aiya_cms.Points.Model.{
  Error, program_inactive, account_exists, balance_missing, insufficient_balance, balance_conflict,
  AccountState, active, debt, eq_state, is_active, perpetual, EntryType, eq_entry_type,
  idempotency_mismatch, PointsProgram, PointsAccount, PointsBalance, PointsBucket,
  PointsDebitAllocation, PointsLedgerEntry, Points, CommandContext, account_opened, emit,
}
use aiya_cms.Points.Buckets.{
  Allocations, bucket_id, consume_rows, restore_loop, add_to_bucket, bucket_target,
}

abbrev pub account_id : PointsAccount → ℕ
account_id a = a.id

abbrev pub balance_id : PointsBalance → ℕ
balance_id b = b.account_id

abbrev pub entry_id : PointsLedgerEntry → ℕ
entry_id e = e.id

abbrev pub program_id : PointsProgram → ℕ
program_id p = p.id

abbrev pub active_program : Option PointsProgram → Points PointsProgram
active_program none = raise program_inactive
active_program (some p) = if is_active p.status then pure p else raise program_inactive

unfoldable pub require_program : String → Points PointsProgram
require_program key = do
  found ← gets (λ s. first (λ p. str_eq p.program_key key) s.programs)
  active_program found

abbrev pub is_subject : ℕ → String → String → PointsAccount → Bool
is_subject program subject_type subject_id a =
    (a.program_id == program)
    && str_eq a.subject_type subject_type
    && str_eq a.subject_id subject_id

abbrev pub fresh_id : Points ℕ
fresh_id s = ok (s.next_id, record s { next_id = s.next_id + 1 })

-- The unique constraint on (program_id, subject_type, subject_id).
unfoldable pub insert_account : PointsAccount → Points (Unit {0})
insert_account a s =
    if any (is_subject a.program_id a.subject_type a.subject_id) s.accounts
    then err account_exists
    else ok (tt, record s { accounts = s.accounts ++ a ∷ [] })

unfoldable pub insert_balance : ℕ → Points (Unit {0})
insert_balance account = modify λ s. record s {
  balances = s.balances ++ record { account_id = account; balance = pos 0; version = 1 } ∷ [];
}

unfoldable pub open_account :
    CommandContext → PointsProgram → String → String → Option PointsAccount → Points PointsAccount
open_account ctx program subject_type subject_id (some account) = do
  bucket_target ctx.now account.id perpetual none none
  pure account
open_account ctx program subject_type subject_id none = do
  id ← fresh_id
  let account : PointsAccount = record {
    id = id;
    program_id = program.id;
    subject_type = subject_type;
    subject_id = subject_id;
    state = active;
    version = 1;
  }
  insert_account account
  insert_balance id
  bucket_target ctx.now id perpetual none none
  emit id account_opened
  pure account

-- `_ensure_account`
unfoldable pub ensure_account :
    CommandContext → PointsProgram → String → String → Points PointsAccount
ensure_account ctx program subject_type subject_id = do
  found ← gets (λ s. first (is_subject program.id subject_type subject_id) s.accounts)
  open_account ctx program subject_type subject_id found

unfoldable pub get_balance : ℕ → Points PointsBalance
get_balance account = do
  found ← gets (λ s. get balance_id account s.balances)
  or_raise found balance_missing

-- The conditional UPDATE of a balance row that was loaded as `row`.
unfoldable pub set_balance : PointsBalance → ℤ → Points (Unit {0})
set_balance row new s = elim (get balance_id row.account_id s.balances) [
  | none ↦ err balance_conflict
  | some cur ↦
      if cur.version == row.version
      then ok (
        tt,
        record s {
          balances =
              put balance_id (record cur { balance = new; version = cur.version + 1 }) s.balances;
        },
      )
      else err balance_conflict
]

-- The state that `_sync_account_state` leaves an account in.
unfoldable pub synced_state : AccountState → ℤ → AccountState
synced_state state new =
    if ltb_ℤ new (pos 0) then debt else if eq_state state debt then active else state

unfoldable pub put_account : PointsAccount → AccountState → Points (Unit {0})
put_account account state =
    if eq_state account.state state
    then pure tt
    else modify λ s. record s {
      accounts =
          put account_id (record account { state = state; version = account.version + 1 })
            s.accounts;
    }

unfoldable pub sync_account_state : PointsAccount → ℤ → Points (Unit {0})
sync_account_state account new = put_account account (synced_state account.state new)

-- `_apply_balance`
unfoldable pub apply_balance : PointsAccount → ℤ → Bool → Points ℤ
apply_balance account amount allow_negative = do
  row ← get_balance account.id
  let new = row.balance +ℤ amount
  raise_if (not allow_negative && ltb_ℤ new (pos 0)) insufficient_balance
  set_balance row new
  sync_account_state account new
  pure new

-- A step on the table of buckets inside the transaction.
unfoldable pub on_buckets :
    {A : Type 0} → (List PointsBucket → Result Error (A × List PointsBucket)) → Points A
on_buckets f s = elim (f s.buckets) [ ok (a, t) ↦ ok (a, record s { buckets = t }) | err e ↦ err e ]

unfoldable pub write_buckets :
    (List PointsBucket → Result Error (List PointsBucket)) → Points (Unit {0})
write_buckets f s = elim (f s.buckets) [ ok t ↦ ok (tt, record s { buckets = t }) | err e ↦ err e ]

-- `_consume_buckets`
unfoldable pub consume_buckets : PointsAccount → ℕ → Bool → Points (ℤ × Allocations)
consume_buckets account amount allow_negative = do
  row ← get_balance account.id
  allocations ← on_buckets (consume_rows account.id amount allow_negative)
  let new = row.balance -ℤ pos amount
  set_balance row new
  sync_account_state account new
  pure (new, allocations)

-- What is left over after the targets goes to the perpetual bucket.
unfoldable pub give_fallback : CommandContext → PointsAccount → ℕ → Points (Unit {0})
give_fallback ctx account left =
    if ltb 0 left
    then (do
      fallback ← bucket_target ctx.now account.id perpetual none none
      write_buckets (add_to_bucket fallback left))
    else pure tt

-- `_restore_buckets`
unfoldable pub restore_buckets : CommandContext → PointsAccount → ℕ → Allocations → Points ℤ
restore_buckets ctx account amount targets = do
  row ← get_balance account.id
  let new = row.balance +ℤ pos amount
  left ← on_buckets (restore_loop (amount - min (neg_part row.balance) amount) targets)
  give_fallback ctx account left
  set_balance row new
  sync_account_state account new
  pure new

-- `_add_allocations`
abbrev pub allocation_rows : ℕ → Allocations → List PointsDebitAllocation
allocation_rows entry [] = []
allocation_rows entry ((b, amount) ∷ rest) =
    record { entry_id = entry; bucket_id = b.id; amount = amount } ∷ allocation_rows entry rest

unfoldable pub add_allocations : ℕ → Allocations → Points (Unit {0})
add_allocations entry allocations =
    modify λ s. record s { allocations = s.allocations ++ allocation_rows entry allocations }

abbrev pub add_target : Option PointsBucket → ℕ → Allocations → Allocations
add_target none amount rest = rest
add_target (some b) amount rest = (b, amount) ∷ rest

-- `_entry_allocations`: the rows of the entry whose bucket is still there.
unfoldable pub entry_allocations : ℕ → List PointsBucket → List PointsDebitAllocation → Allocations
entry_allocations entry t [] = []
entry_allocations entry t (r ∷ rs) =
    let rest = entry_allocations entry t rs in
    if r.entry_id == entry then add_target (get bucket_id r.bucket_id t) r.amount rest else rest

abbrev pub has_key : ℕ → String → PointsLedgerEntry → Bool
has_key program key e = (e.program_id == program) && str_eq e.idempotency_key key

-- `_find_idempotent`
unfoldable pub find_idempotent : ℕ → String → List PointsLedgerEntry → Option PointsLedgerEntry
find_idempotent program key t = first (has_key program key) t

-- The flush of a new entry, under the unique constraint on (program_id, idempotency_key).
unfoldable pub insert_entry : Error → PointsLedgerEntry → Points (Unit {0})
insert_entry duplicate e s =
    if any (has_key e.program_id e.idempotency_key) s.entries
    then err duplicate
    else ok (tt, record s { entries = s.entries ++ e ∷ [] })

-- What a command returns, and whether it committed its unit of work.
pub record Reply : Type 0 where
  pub entry : PointsLedgerEntry
  pub committed : Bool

-- The answer to a key that is in use already: the entry, if it is of the command's own type.
unfoldable pub replay : EntryType → PointsLedgerEntry → Points PointsLedgerEntry
replay type existing =
    if eq_entry_type existing.entry_type type then pure existing else raise idempotency_mismatch
