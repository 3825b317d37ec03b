-- ===== src/Points/Commands/Freeze.antt =====
-- `OpenPointsAccount` and `FreezePointsAccount`
use aiya_cms.Prelude.{◌+◌, String, not, Bool, true, false, if◌then◌else◌, first}
use aiya_cms.Prelude.Int.{ℤ, pos, ltb_ℤ}
use aiya_cms.Prelude.Result.{pure, gets, or_raise, raise_if, ◌>>=◌, ◌>>◌}
use aiya_cms.Points.Model.{
  forbidden, account_not_opened, AccountState, active, debt, frozen, eq_state, PointsAccount,
  PointsBalance, Points, CommandContext, account_frozen_event, audit_frozen, audit_unfrozen, emit,
}
use aiya_cms.Points.Limits.{contains}
use aiya_cms.Points.Accounts.{require_program, is_subject, ensure_account, get_balance, put_account}

unfoldable pub open_points_account :
    CommandContext → String → String → String → Points (PointsAccount × PointsBalance)
open_points_account ctx program_key subject_type subject_id = do
  program ← require_program program_key
  account ← ensure_account ctx program subject_type subject_id
  balance ← get_balance account.id
  pure (account, balance)

-- The state that an administrator's freeze or release leads to.
unfoldable pub freeze_target : AccountState → ℤ → Bool → AccountState
freeze_target state balance true = frozen
freeze_target state balance false =
    if eq_state state frozen then (if ltb_ℤ balance (pos 0) then debt else active) else state

-- A change of state is announced and audited.
unfoldable pub announce :
    PointsAccount → PointsBalance → AccountState → Bool → Points (PointsAccount × PointsBalance)
announce account balance target freeze = do
  emit account.id (account_frozen_event target)
  emit account.id (if freeze then audit_frozen else audit_unfrozen)
  pure (record account { state = target; version = account.version + 1 }, balance)

unfoldable pub freeze_account :
    CommandContext → String → String → String → Bool → Points (PointsAccount × PointsBalance)
freeze_account ctx program_key subject_type subject_id freeze = do
  raise_if (not (contains ctx.permissions "points.freeze")) forbidden
  program ← require_program program_key
  found ← gets (λ s. first (is_subject program.id subject_type subject_id) s.accounts)
  account ← or_raise found account_not_opened
  balance ← get_balance account.id
  let target = freeze_target account.state balance.balance freeze
  put_account account target
  if eq_state account.state target
      then pure (account, balance)
      else announce account balance target freeze
