-- ===== src/Points/Ledger/History.antt =====
-- Sequences of commands, each in its unit of work, under the invariant.
use aiya_cms.Prelude.{first, ℕ, ◌≡◌, refl, Bool, true, false, String, List, [], ◌∷◌, not}
use aiya_cms.Prelude.Int.{pos, pos_part}
use aiya_cms.Prelude.Result.{
  Result, ok, err, Ensures-ok, Ensures-bind, Ensures-if, Ensures-guard, Ensures-found,
}
use aiya_cms.Points.Model.{
  Error, forbidden, account_not_opened, AccountState, PointsAccount, PointsBalance, PointsProgram,
  Store, Points, CommandContext, eq_state,
}
use aiya_cms.Prelude.Table.{get}
use aiya_cms.Points.Limits.{contains}
use aiya_cms.Points.Accounts.{Reply, get_balance, is_subject}
use aiya_cms.Points.Commands.{freeze_target, freeze_account, open_points_account}
use aiya_cms.Points.Commands.Freeze.{announce}
use aiya_cms.Points.Service.{
  Call, open_call, credit_call, debit_call, reverse_call, adjust_call, expire_call, freeze_call,
  commits, replies, handle, in_unit_of_work, serve,
}
use aiya_cms.Points.Ledger.{balance_at, ledger_sum, IsSound}
use aiya_cms.Points.Buckets.Sums.{bucket_sum}
use aiya_cms.Points.Ledger.Steps.{Holds-IsSound, IsSound-Holds}
use aiya_cms.Points.Ledger.Moves.{emit-Holds, put_account-Holds}
use aiya_cms.Points.Ledger.Entries.{
  Reads, Ensures-read, or_raise-Reads, require_program-Reads, ensure_account-IsSound,
}
use aiya_cms.Points.Ledger.Commands.{KeepsBooks, credit_points-KeepsBooks, debit_points-KeepsBooks}
use aiya_cms.Points.Ledger.Corrections.{reverse_entry-KeepsBooks, adjust_points-KeepsBooks}
use aiya_cms.Points.Ledger.Sweep.{expire_buckets-KeepsBooks}

get_balance-Reads : (a : ℕ) → Reads (get_balance a)
unfolding get_balance
get_balance-Reads a s = or_raise-Reads _ _ s

open_points_account-KeepsBooks :
    (ctx : CommandContext) (key type id : String) → KeepsBooks (open_points_account ctx key type id)
unfolding open_points_account
open_points_account-KeepsBooks ctx key type id s h =
    Ensures-read _ s (require_program-Reads key) (λ program.
      Ensures-bind (ensure_account-IsSound ctx program type id s h) (λ account s1 h1.
        Ensures-read _ s1 (get_balance-Reads account.id) (λ row. Ensures-ok _ _ _ s1 refl h1)))

announce-KeepsBooks :
    (account : PointsAccount) (row : PointsBalance) (target : AccountState) (freeze : Bool)
    → KeepsBooks (announce account row target freeze)
unfolding announce
announce-KeepsBooks account row target freeze s h =
    Ensures-bind (emit-Holds 0 account.id (pos 0) (pos 0) _ s (IsSound-Holds 0 s h)) (λ _ s1 h1.
      Ensures-bind (emit-Holds 0 account.id (pos 0) (pos 0) _ s1 h1)
        (λ _ s2 h2. Ensures-ok _ _ _ s2 refl (Holds-IsSound 0 s2 h2)))

freeze_account-KeepsBooks :
    (ctx : CommandContext) (key type id : String) (freeze : Bool)
    → KeepsBooks (freeze_account ctx key type id freeze)
unfolding freeze_account
freeze_account-KeepsBooks ctx key type id freeze s h =
    Ensures-guard (not (contains ctx.permissions "points.freeze")) forbidden _ _ s (
      Ensures-read _ s (require_program-Reads key) (λ program.
        Ensures-found (first (is_subject program.id type id) s.accounts) account_not_opened _ _ s
          (λ account e. Ensures-read _ s (get_balance-Reads account.id) (λ row.
            let target = freeze_target account.state row.balance freeze in
            Ensures-bind
              (put_account-Holds 0 (pos 0) (pos 0) account target [] s (IsSound-Holds 0 s h) tt)
              (λ _ s1 p.
                let sound = Holds-IsSound 0 s1 p.0 in
                Ensures-if (eq_state account.state target) _ _ _ s1
                  (λ _. Ensures-ok _ _ _ s1 refl sound)
                  (λ _. announce-KeepsBooks account row target freeze s1 sound))))))

commits-KeepsBooks : {A : Type 0} (m : Points A) → KeepsBooks m → KeepsBooks (commits m)
commits-KeepsBooks m k s h = Ensures-bind (k s h) (λ a s1 q. Ensures-ok _ _ true s1 refl q)

replies-KeepsBooks : (m : Points Reply) → KeepsBooks m → KeepsBooks (replies m)
replies-KeepsBooks m k s h = Ensures-bind (k s h) (λ r s1 q. Ensures-ok _ _ r.committed s1 refl q)

-- Each public command leaves the books in order whenever it returns.
pub handle-KeepsBooks : (ctx : CommandContext) (call : Call) → KeepsBooks (handle ctx call)
unfolding handle
handle-KeepsBooks ctx (open_call p t i) =
    commits-KeepsBooks _ (open_points_account-KeepsBooks ctx p t i)
handle-KeepsBooks ctx (credit_call k i) = replies-KeepsBooks _ (credit_points-KeepsBooks ctx k i)
handle-KeepsBooks ctx (debit_call k i) = replies-KeepsBooks _ (debit_points-KeepsBooks ctx k i)
handle-KeepsBooks ctx (reverse_call e k) = replies-KeepsBooks _ (reverse_entry-KeepsBooks ctx e k)
handle-KeepsBooks ctx (adjust_call i) = replies-KeepsBooks _ (adjust_points-KeepsBooks ctx i)
handle-KeepsBooks ctx expire_call = commits-KeepsBooks _ (expire_buckets-KeepsBooks ctx)
handle-KeepsBooks ctx (freeze_call p t i f) =
    commits-KeepsBooks _ (freeze_account-KeepsBooks ctx p t i f)

-- A unit of work around a command that keeps the books keeps them, committed or rolled back.
in_unit_of_work-IsSound :
    (m : Points Bool) (s : Store) → KeepsBooks m → IsSound s → IsSound (in_unit_of_work m s)
unfolding in_unit_of_work
in_unit_of_work-IsSound m s k h = outcome (m s) refl
  where
    outcome : (r : Result Error (Bool × Store)) → m s ≡ r → IsSound (in_unit_of_work m s)
    outcome (ok (true, s')) e = rw (e, in_unit_of_work) ((k s h).holds true s' e)
    outcome (ok (false, s')) e = rw (e, in_unit_of_work) h
    outcome (err x) e = rw (e, in_unit_of_work) h

-- For any sequence of the commands of `Call`, served one after the other from a store in order, with
-- any clocks, callers and arguments, and whether each commits, replays, or raises: afterwards bucket
-- ids are distinct, ids are below the next one, allocations belong to earlier entries and name buckets
-- of the entry's account, every account's balance is the sum of its ledger entries, and its buckets
-- hold the balance, or nothing while it is a debt.
pub serve-IsSound :
    (history : List (CommandContext × Call)) (s : Store) → IsSound s → IsSound (serve history s)
unfolding serve
serve-IsSound [] s h = h
serve-IsSound ((ctx, call) ∷ rest) s h =
    serve-IsSound rest (in_unit_of_work (handle ctx call) s)
      (in_unit_of_work-IsSound (handle ctx call) s (handle-KeepsBooks ctx call) h)

-- The database before the first command: programs are set up, no account is open.
abbrev pub new_store : List PointsProgram → Store
new_store programs = record {
  programs = programs;
  accounts = [];
  balances = [];
  buckets = [];
  allocations = [];
  entries = [];
  outbox = [];
  next_id = 1;
}

pub new_store-IsSound : (programs : List PointsProgram) → IsSound (new_store programs)
unfolding get
new_store-IsSound programs = record {
  keyed = tt;
  below = tt;
  owned = tt;
  matches = λ c. refl;
  covered = λ c. refl;
}

-- From an empty database on, after any sequence of the commands of `Call` with any clocks, callers and
-- arguments: for every account, the balance is the sum of its ledger entries, and its buckets hold
-- the balance, or nothing while it is a debt.
pub books_balance :
    (programs : List PointsProgram) (history : List (CommandContext × Call)) (account : ℕ)
    → let s = serve history (new_store programs) in
      (balance_at account s.balances ≡ ledger_sum account s.entries)
      × (bucket_sum account s.buckets ≡ pos_part (balance_at account s.balances))
books_balance programs history account =
    let h = serve-IsSound history (new_store programs) (new_store-IsSound programs) in
    (h.matches account, h.covered account)
