-- ===== src/Points/Ledger.antt =====
-- What ties the tables of the points capability together: a balance is the sum of the account's
-- ledger entries, and the buckets hold exactly the part of it that is above zero.
pub mod Steps
pub mod Rows
pub mod Moves
pub mod Balances
pub mod Restores
pub mod Entries
pub mod Commands
pub mod Corrections
pub mod Due
pub mod Sweep
pub mod Overdraft
pub mod History
use aiya_cms.Prelude.{
  ℕ, ◌+◌, ◌<◌, ◌≡◌, Bool, Option, none, some, List, [], ◌∷◌, ◌==◌, if◌then◌else◌, All,
}
use aiya_cms.Prelude.Int.{ℤ, pos, ◌+ℤ◌, ◌-ℤ◌, pos_part}
use aiya_cms.Prelude.Table.{get}
use aiya_cms.Points.Model.{
  PointsBalance, PointsBucket, PointsLedgerEntry, PointsDebitAllocation, Store,
}
use aiya_cms.Points.Buckets.Loaded.{Keyed}
use aiya_cms.Points.Buckets.Sums.{bucket_sum, RowOf}
use aiya_cms.Points.Accounts.{balance_id, entry_id}

abbrev pub balance_or_zero : Option PointsBalance → ℤ
balance_or_zero none = pos 0
balance_or_zero (some b) = b.balance

-- An account without a balance row has nothing.
abbrev pub balance_at : ℕ → List PointsBalance → ℤ
balance_at a t = balance_or_zero (get balance_id a t)

-- SUM(points_ledger_entries.amount) over an account.
abbrev pub ledger_sum : ℕ → List PointsLedgerEntry → ℤ
ledger_sum a [] = pos 0
ledger_sum a (e ∷ es) = if e.account_id == a then e.amount +ℤ ledger_sum a es else ledger_sum a es

-- `d` at the account `a`, 0 at the others.
abbrev pub only : ℕ → ℤ → ℕ → ℤ
only a d c = if a == c then d else pos 0

-- An allocation belongs to an entry that was made before, and names a bucket of its account.
abbrev pub OwnedBy : ℕ → List PointsBucket → List PointsLedgerEntry → PointsDebitAllocation → Type 0
OwnedBy n t es r =
    (r.entry_id < n)
    × ((e : PointsLedgerEntry)
        → get entry_id r.entry_id es ≡ some e
        → RowOf e.account_id t r.bucket_id)

-- In the middle of an operation on the account `a` the ledger may lag behind the balance by
-- `owed`, and the buckets by `unfilled`. All other accounts are in order.
pub record Holds (a : ℕ) (owed unfilled : ℤ) (s : Store) : Type 0 where
  pub keyed : Keyed s.next_id s.buckets
  pub below : All (λ (e : PointsLedgerEntry). e.id < s.next_id) s.entries
  pub owned : All (OwnedBy s.next_id s.buckets s.entries) s.allocations
  pub matches : (c : ℕ) → balance_at c s.balances ≡ ledger_sum c s.entries +ℤ only a owed c
  pub covered :
      (c : ℕ) → bucket_sum c s.buckets ≡ pos_part (balance_at c s.balances -ℤ only a unfilled c)

-- Between two commands, for every account: the balance is the sum of the ledger, and the buckets
-- hold the balance, or nothing while it is a debt.
pub record IsSound (s : Store) : Type 0 where
  pub keyed : Keyed s.next_id s.buckets
  pub below : All (λ (e : PointsLedgerEntry). e.id < s.next_id) s.entries
  pub owned : All (OwnedBy s.next_id s.buckets s.entries) s.allocations
  pub matches : (c : ℕ) → balance_at c s.balances ≡ ledger_sum c s.entries
  pub covered : (c : ℕ) → bucket_sum c s.buckets ≡ pos_part (balance_at c s.balances)
