-- ===== src/Membership/Commands/Settle.antt =====
-- `AttachPointsGrant` and `MarkCycleFailed`
use aiya_cms.Prelude.{
  ℕ, ◌+◌, String, Bool, true, false, not, ◌||◌, some, ◌==◌, ltb, str_eq, eq_option, if◌then◌else◌,
}
use aiya_cms.Prelude.Result.{pure, raise, gets, modify, or_raise, raise_if, ◌>>=◌, ◌>>◌}
use aiya_cms.Prelude.Table.{get, put}
use aiya_cms.Membership.Model.{
  cycle_not_found, subscription_not_found, points_grant_already_attached, cycle_not_prepared,
  subscription_cycle_mismatch, cycle_failure_already_recorded, active, failed, prepared, activated,
  failed_cycle, is_pending, MembershipSubscription, MembershipCycle, EventKey, activated_event,
  renewed, cycle_failed, Membership, subscription_id, cycle_id, emit,
}
use aiya_cms.Membership.Commands.Prepare.{put_subscription}

-- `_get_cycle` and `_get_subscription`, with an id that is a UUID.
unfoldable pub get_cycle : ℕ → Membership MembershipCycle
get_cycle id = do found ← gets (λ s. get cycle_id id s.cycles); or_raise found cycle_not_found

unfoldable pub get_subscription : ℕ → Membership MembershipSubscription
get_subscription id = do
  found ← gets (λ s. get subscription_id id s.subscriptions)
  or_raise found subscription_not_found

unfoldable pub put_cycle : MembershipCycle → Membership (Unit {0})
put_cycle row = modify λ s. record s { cycles = put cycle_id row s.cycles }

abbrev pub attached : ℕ → String → MembershipCycle → MembershipCycle
attached points_entry key c = record c {
  points_entry_ref = some points_entry;
  attach_idempotency_key = some key;
  state = activated;
  version = c.version + 1;
}

abbrev pub is_current : MembershipCycle → MembershipSubscription → Bool
is_current c s = eq_option ◌==◌ s.cycle_id (some c.id)

abbrev pub activation_event : ℕ → EventKey
activation_event renewals = if ltb 0 renewals then renewed else activated_event

unfoldable pub activate :
    MembershipCycle → MembershipSubscription → ℕ → String → Membership (MembershipCycle × Bool)
activate cycle subscription points_entry key = do
  raise_if (not (is_current cycle subscription) || not (is_pending subscription.status))
      subscription_cycle_mismatch
  put_cycle (attached points_entry key cycle)
  put_subscription (record subscription { status = active; version = subscription.version + 1 })
  emit (activation_event subscription.renewal_count) subscription.id (some cycle.id)
  pure (attached points_entry key cycle, true)

-- `AttachPointsGrant`, with a reference that is a UUID; the result says whether it committed.
unfoldable pub attach_points_grant : ℕ → ℕ → String → Membership (MembershipCycle × Bool)
attach_points_grant id points_entry key = do
  cycle ← get_cycle id
  subscription ← get_subscription cycle.subscription_id
  elim cycle.state [
    | activated ↦
        if eq_option ◌==◌ cycle.points_entry_ref (some points_entry)
        then pure (cycle, false)
        else raise points_grant_already_attached
    | failed_cycle ↦ raise cycle_not_prepared
    | prepared ↦ activate cycle subscription points_entry key
  ]

abbrev pub failed_row : String → MembershipCycle → MembershipCycle
failed_row code c = record c {
  state = failed_cycle;
  failure_code = some code;
  version = c.version + 1;
}

unfoldable pub fail_subscription : MembershipCycle → MembershipSubscription → Membership (Unit {0})
fail_subscription cycle subscription =
    if is_current cycle subscription
    then put_subscription
        (record subscription { status = failed; version = subscription.version + 1 })
    else pure tt

unfoldable pub fail_cycle :
    MembershipCycle → MembershipSubscription → String → Membership (MembershipCycle × Bool)
fail_cycle cycle subscription code = do
  put_cycle (failed_row code cycle)
  fail_subscription cycle subscription
  emit cycle_failed subscription.id (some cycle.id)
  pure (failed_row code cycle, true)

-- `MarkCycleFailed`
unfoldable pub mark_cycle_failed : ℕ → String → Membership (MembershipCycle × Bool)
mark_cycle_failed id code = do
  cycle ← get_cycle id
  subscription ← get_subscription cycle.subscription_id
  elim cycle.state [
    | failed_cycle ↦
        if eq_option str_eq cycle.failure_code (some code)
        then pure (cycle, false)
        else raise cycle_failure_already_recorded
    | activated ↦ raise cycle_not_prepared
    | prepared ↦ fail_cycle cycle subscription code
  ]
