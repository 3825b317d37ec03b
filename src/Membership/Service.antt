-- ===== src/Membership/Service.antt =====
-- The membership capability as a whole: one command after the other, each in its own unit of work
-- (inc/kernel/db/uow.py).
use aiya_cms.Prelude.{ℕ, Bool, String, List, [], ◌∷◌, if◌then◌else◌}
use aiya_cms.Prelude.Result.{ok, err, pure, ◌>>=◌}
use aiya_cms.Membership.Model.{
  MembershipCycle, MembershipStore, Membership, MembershipContext, PrepareInput,
}
use aiya_cms.Membership.Commands.Prepare.{prepare_cycle}
use aiya_cms.Membership.Commands.Settle.{attach_points_grant, mark_cycle_failed}
use aiya_cms.Membership.Commands.Stop.{
  cancel_subscription, terminate_subscription, expire_subscriptions,
}

pub data MembershipCall : Type 0 where
  prepare_call : PrepareInput → MembershipCall
  attach_call : (cycle points_entry : ℕ) → String → MembershipCall
  fail_call : ℕ → String → MembershipCall
  cancel_call terminate_call : ℕ → MembershipCall
  expire_call : MembershipCall

abbrev pub committed : Membership (MembershipCycle × Bool) → Membership Bool
committed m = do r ← m; pure r.1

-- The command that a call runs; its result says whether it committed.
unfoldable pub handle : MembershipContext → MembershipCall → Membership Bool
handle ctx (prepare_call input) = committed (prepare_cycle ctx input)
handle ctx (attach_call cycle entry key) = committed (attach_points_grant cycle entry key)
handle ctx (fail_call cycle code) = committed (mark_cycle_failed cycle code)
handle ctx (cancel_call id) = cancel_subscription ctx id
handle ctx (terminate_call id) = terminate_subscription ctx id
handle ctx expire_call = expire_subscriptions ctx

unfoldable pub in_unit_of_work : Membership Bool → MembershipStore → MembershipStore
in_unit_of_work m s = elim (m s) [ ok (commits, s') ↦ if commits then s' else s | err e ↦ s ]

unfoldable pub serve : List (MembershipContext × MembershipCall) → MembershipStore → MembershipStore
unfolding in_unit_of_work handle
serve [] s = s
serve ((ctx, call) ∷ rest) s = serve rest (in_unit_of_work (handle ctx call) s)
