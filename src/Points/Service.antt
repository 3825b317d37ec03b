-- ===== src/Points/Service.antt =====
-- The points capability as a whole: one command after the other, each in its own unit of work
-- (`SqlAlchemyUnitOfWork` of inc/kernel/db/uow.py).
use aiya_cms.Prelude.{ℕ, Bool, true, String, List, [], ◌∷◌, if◌then◌else◌}
use aiya_cms.Prelude.Result.{ok, err, pure, ◌>>=◌}
use aiya_cms.Points.Model.{Store, Points, CommandContext, CreditDebitInput, AdjustInput}
use aiya_cms.Points.Accounts.{Reply}
use aiya_cms.Points.Commands.{
  credit_points, debit_points, reverse_entry, adjust_points, expire_buckets, freeze_account,
  open_points_account,
}

-- A call of one of the public commands.
pub data Call : Type 0 where
  open_call : String → String → String → Call
  credit_call debit_call : String → CreditDebitInput → Call
  reverse_call : ℕ → String → Call
  adjust_call : AdjustInput → Call
  expire_call : Call
  freeze_call : String → String → String → Bool → Call

abbrev pub commits : {A : Type 0} → Points A → Points Bool
commits m = do a ← m; pure true

abbrev pub replies : Points Reply → Points Bool
replies m = do r ← m; pure r.committed

-- The command that a call runs; its result says whether it committed.
unfoldable pub handle : CommandContext → Call → Points Bool
handle ctx (open_call program type id) = commits (open_points_account ctx program type id)
handle ctx (credit_call key input) = replies (credit_points ctx key input)
handle ctx (debit_call key input) = replies (debit_points ctx key input)
handle ctx (reverse_call entry key) = replies (reverse_entry ctx entry key)
handle ctx (adjust_call input) = replies (adjust_points ctx input)
handle ctx expire_call = commits (expire_buckets ctx)
handle ctx (freeze_call program type id freeze) =
    commits (freeze_account ctx program type id freeze)

-- A unit of work that raises, or ends without a commit, leaves the database as it was.
unfoldable pub in_unit_of_work : Points Bool → Store → Store
in_unit_of_work m s = elim (m s) [ ok (committed, s') ↦ if committed then s' else s | err e ↦ s ]

-- Calls in the order in which they are served, each with its own clock and caller.
unfoldable pub serve : List (CommandContext × Call) → Store → Store
unfolding in_unit_of_work handle
serve [] s = s
serve ((ctx, call) ∷ rest) s = serve rest (in_unit_of_work (handle ctx call) s)
