-- ===== src/Points/Retry/Kept.antt =====
-- Every command keeps the programs, and what a key of the ledger finds.
use aiya_cms.Prelude.{
  ◌≡◌, refl, String, Bool, true, false, Option, none, some, List, [], ◌∷◌, first, not,
}
use aiya_cms.Prelude.Result.{Result, ok, err}
use aiya_cms.Prelude.Table.{get}
use aiya_cms.Points.Model.{
  Error, Points, Store, PointsProgram, PointsAccount, PointsBucket, PointsBalance, CommandContext,
  AccountState, eq_state, forbidden, account_not_opened,
}
use aiya_cms.Points.Limits.{contains}
use aiya_cms.Points.Accounts.{Reply, sync_account_state, account_id, is_subject}
use aiya_cms.Points.Commands.{
  credit_points, expire_bucket, expire_loop, expire_buckets, due_buckets, freeze_target,
  freeze_account, open_points_account,
}
use aiya_cms.Points.Commands.Expire.{expire_if, expire_one, program_of}
use aiya_cms.Points.Commands.Freeze.{announce}
use aiya_cms.Points.Ledger.Entries.{or_raise-Reads, require_program-Reads}
use aiya_cms.Points.Retry.Frame.{
  Frames, Frames-bind, Frames-pure, Frames-Reads, Frames-if, Frames-raise_if, fresh_id-Frames,
  ensure_account-Frames, emit-Frames, get_balance-Frames, set_balance-Frames, put_account-Frames,
  write_buckets-Frames,
}
use aiya_cms.Points.Service.{
  Call, open_call, credit_call, debit_call, reverse_call, adjust_call, expire_call, freeze_call,
  commits, replies, handle, in_unit_of_work, serve,
}
use aiya_cms.Points.Retry.Grows.{
  Grown, Grown-refl, Grown-trans, Grows, Grows-bind, Grows-Frames, gets-Frames, frame_first,
  pure-Grows, allocated-Grows,
}
use aiya_cms.Points.Retry.Bookings.{credit_in_uow-Grows, debit_points-Grows}
use aiya_cms.Points.Retry.Corrections.{reverse_entry-Grows, adjust_points-Grows}

expire_bucket-Grows :
    (ctx : CommandContext) (b : PointsBucket) (account : PointsAccount) (program : PointsProgram)
    → Grows (expire_bucket ctx b account program)
unfolding expire_bucket sync_account_state
expire_bucket-Grows ctx b account program = frame_first _ _ fresh_id-Frames λ id.
    allocated-Grows _ _ _ _ _ (
      Frames-bind _ _ (get_balance-Frames account.id) λ row.
        Frames-bind _ _ (set_balance-Frames row _) λ _.
          Frames-bind _ _ (put_account-Frames account _) λ _.
            Frames-bind _ _ (write_buckets-Frames _)
              λ _. Frames-bind _ _ (emit-Frames _ _) λ _. Frames-pure _)

expire_if-Grows :
    (ctx : CommandContext) (b : PointsBucket) (account : Option PointsAccount)
    (program : Option PointsProgram)
    → Grows (expire_if ctx b account program)
expire_if-Grows ctx b (some account) (some program) =
    Grows-bind _ _ (expire_bucket-Grows ctx b account program) λ e. pure-Grows _
expire_if-Grows ctx b (some account) none = pure-Grows _
expire_if-Grows ctx b none program = pure-Grows _

expire_loop-Grows : (ctx : CommandContext) (bs : List PointsBucket) → Grows (expire_loop ctx bs)
unfolding expire_loop expire_one
expire_loop-Grows ctx [] = pure-Grows _
expire_loop-Grows ctx (b ∷ bs) =
    Grows-bind _ _
      (frame_first _ _ (gets-Frames (λ s. get account_id b.account_id s.accounts)) λ account.
        frame_first _ _ (gets-Frames (λ s. program_of account s.programs))
          λ program. expire_if-Grows ctx b account program)
      λ made. Grows-bind _ _ (expire_loop-Grows ctx bs) λ rest. pure-Grows _

open_points_account-Frames :
    (ctx : CommandContext) (program type id : String)
    → Frames (open_points_account ctx program type id)
unfolding open_points_account
open_points_account-Frames ctx program type id =
    Frames-bind _ _ (Frames-Reads _ (require_program-Reads program)) λ p.
      Frames-bind _ _ (ensure_account-Frames ctx p type id)
        λ account. Frames-bind _ _ (get_balance-Frames account.id) λ balance. Frames-pure _

announce-Frames :
    (account : PointsAccount) (balance : PointsBalance) (target : AccountState) (freeze : Bool)
    → Frames (announce account balance target freeze)
unfolding announce
announce-Frames account balance target freeze =
    Frames-bind _ _ (emit-Frames _ _) λ _. Frames-bind _ _ (emit-Frames _ _) λ _. Frames-pure _

freeze_account-Frames :
    (ctx : CommandContext) (program type id : String) (freeze : Bool)
    → Frames (freeze_account ctx program type id freeze)
unfolding freeze_account
freeze_account-Frames ctx program type id freeze =
    Frames-bind _ _ (Frames-raise_if (not (contains ctx.permissions "points.freeze")) forbidden)
      λ _. Frames-bind _ _ (Frames-Reads _ (require_program-Reads program)) λ p.
        Frames-bind _ _ (gets-Frames (λ s. first (is_subject p.id type id) s.accounts)) λ found.
          Frames-bind _ _ (Frames-Reads _ (or_raise-Reads found account_not_opened)) λ account.
            Frames-bind _ _ (get_balance-Frames account.id) λ balance.
              let target = freeze_target account.state balance.balance freeze in
              Frames-bind _ _ (put_account-Frames account target) λ _.
                Frames-if (eq_state account.state target) _ _ (Frames-pure (account, balance))
                  (announce-Frames account balance target freeze)

replies-Grows : (m : Points Reply) → Grows m → Grows (replies m)
replies-Grows m g = Grows-bind m _ g λ r. pure-Grows _

commits-Grows : {A : Type 0} (m : Points A) → Grows m → Grows (commits m)
commits-Grows m g = Grows-bind m _ g λ a. pure-Grows _

handle-Grows : (ctx : CommandContext) (call : Call) → Grows (handle ctx call)
unfolding handle credit_points expire_buckets
handle-Grows ctx (open_call program type id) =
    commits-Grows _ (Grows-Frames _ (open_points_account-Frames ctx program type id))
handle-Grows ctx (credit_call key input) =
    replies-Grows _ (Grows-bind _ _ (credit_in_uow-Grows ctx key input) λ e. pure-Grows _)
handle-Grows ctx (debit_call key input) = replies-Grows _ (debit_points-Grows ctx key input)
handle-Grows ctx (reverse_call entry key) = replies-Grows _ (reverse_entry-Grows ctx entry key)
handle-Grows ctx (adjust_call input) = replies-Grows _ (adjust_points-Grows ctx input)
handle-Grows ctx expire_call = commits-Grows _ (
    frame_first _ _ (gets-Frames (λ s. due_buckets ctx.now s.buckets))
      λ due. expire_loop-Grows ctx due)
handle-Grows ctx (freeze_call program type id freeze) =
    commits-Grows _ (Grows-Frames _ (freeze_account-Frames ctx program type id freeze))

unit_of_work-Grown : (m : Points Bool) (s : Store) → Grows m → Grown s (in_unit_of_work m s)
unfolding in_unit_of_work
unit_of_work-Grown m s g = by_result (m s) refl
  where
    by_result : (r : Result Error (Bool × Store)) → m s ≡ r → Grown s (in_unit_of_work m s)
    by_result (ok (true, s')) e = rw (e, in_unit_of_work) ((g s).holds true s' e)
    by_result (ok (false, s')) e = rw (e, in_unit_of_work) (Grown-refl s)
    by_result (err x) e = rw (e, in_unit_of_work) (Grown-refl s)

-- Whatever is served, the programs are the same, and a key finds what it found.
pub serve-Grown : (calls : List (CommandContext × Call)) (s : Store) → Grown s (serve calls s)
unfolding serve
serve-Grown [] s = Grown-refl s
serve-Grown ((ctx, call) ∷ rest) s =
    let s1 = in_unit_of_work (handle ctx call) s in
    Grown-trans s s1 (serve rest s1)
      (unit_of_work-Grown (handle ctx call) s (handle-Grows ctx call)) (serve-Grown rest s1)
