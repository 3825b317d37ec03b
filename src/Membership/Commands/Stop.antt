-- ===== src/Membership/Commands/Stop.antt =====
-- `CancelSubscription`, `TerminateSubscription` and `ExpireSubscription`
use aiya_cms.Prelude.{
  ℕ, ◌+◌, Bool, true, false, not, ◌&&◌, ◌||◌, none, some, List, [], ◌∷◌, leb, select, if◌then◌else◌,
}
use aiya_cms.Prelude.Result.{pure, gets, raise_if, ◌>>=◌, ◌>>◌}
use aiya_cms.Membership.Model.{
  not_active, forbidden, expired, cancelled, terminated, is_active, is_cancelled, is_terminated,
  MembershipSubscription, cancelled_event, terminated_event, expired_event, Membership,
  MembershipContext, emit,
}
use aiya_cms.Membership.Commands.Prepare.{put_subscription}
use aiya_cms.Membership.Commands.Settle.{get_subscription}

abbrev pub cancelled_row : ℕ → MembershipSubscription → MembershipSubscription
cancelled_row now s = record s {
  status = cancelled;
  auto_renew = false;
  cancelled_at = some now;
  version = s.version + 1;
}

unfoldable pub cancel_active : MembershipContext → MembershipSubscription → Membership Bool
cancel_active ctx s = do
  raise_if (not (is_active s.status)) not_active
  put_subscription (cancelled_row ctx.now s)
  emit cancelled_event s.id none
  pure true

-- Whether it committed.
unfoldable pub cancel_subscription : MembershipContext → ℕ → Membership Bool
cancel_subscription ctx id = do
  s ← get_subscription id
  if is_cancelled s.status then pure false else cancel_active ctx s

abbrev pub terminated_row : ℕ → MembershipSubscription → MembershipSubscription
terminated_row now s = record s {
  status = terminated;
  auto_renew = false;
  terminated_at = some now;
  version = s.version + 1;
}

unfoldable pub terminate_current : MembershipContext → MembershipSubscription → Membership Bool
terminate_current ctx s = do
  raise_if (not (is_active s.status || is_cancelled s.status)) not_active
  put_subscription (terminated_row ctx.now s)
  emit terminated_event s.id none
  pure true

unfoldable pub terminate_subscription : MembershipContext → ℕ → Membership Bool
terminate_subscription ctx id = do
  raise_if (not ctx.may_manage) forbidden
  s ← get_subscription id
  if is_terminated s.status then pure false else terminate_current ctx s

abbrev pub has_ended : ℕ → MembershipSubscription → Bool
has_ended now s = (is_active s.status || is_cancelled s.status) && leb s.cycle_end now

abbrev pub expired_row : ℕ → MembershipSubscription → MembershipSubscription
expired_row now s = record s { status = expired; expired_at = some now; version = s.version + 1 }

-- The rows that were loaded, one by one.
unfoldable pub expire_rows : MembershipContext → List MembershipSubscription → Membership (Unit {0})
expire_rows ctx [] = pure tt
expire_rows ctx (s ∷ rest) = do
  put_subscription (expired_row ctx.now s)
  emit expired_event s.id none
  expire_rows ctx rest

-- `ExpireSubscription`
unfoldable pub expire_subscriptions : MembershipContext → Membership Bool
unfolding expire_rows
expire_subscriptions ctx = do
  rows ← gets (λ s. select (has_ended ctx.now) s.subscriptions)
  expire_rows ctx rows
  pure true
