-- ===== src/Membership/Commands/Prepare.antt =====
-- `PrepareSubscriptionCycle`
use aiya_cms.Prelude.{
  ℕ, ◌+◌, String, Bool, true, false, not, ◌&&◌, ◌||◌, Option, none, some, [], ◌∷◌, ◌++◌, ◌==◌,
  str_eq, is_some, days, first, any, if◌then◌else◌,
}
use aiya_cms.Prelude.Result.{ok, err, pure, raise, gets, modify, or_raise, raise_if, ◌>>=◌, ◌>>◌}
use aiya_cms.Prelude.Table.{put}
use aiya_cms.Membership.Model.{
  unknown_level, level_inactive, idempotency_conflict, subscription_version_conflict, cycle_overlap,
  renewal_not_allowed, subscription_exists, pending_activation, prepared, has_current,
  MembershipLevelSpec, MembershipSubscription, MembershipCycle, cycle_prepared, Membership,
  MembershipContext, PrepareInput, subscription_id, emit,
}

-- The registered level with this key, or else the administrator's.
abbrev pub level_of :
    Option MembershipLevelSpec → Option MembershipLevelSpec → Option MembershipLevelSpec
level_of (some level) row = some level
level_of none row = row

abbrev pub has_level_key : String → MembershipLevelSpec → Bool
has_level_key key l = str_eq l.key key

-- `_require_level`. That a row's level is registered on the way is left out: the registry is part of
-- the context of each call.
unfoldable pub require_level : MembershipContext → String → Membership MembershipLevelSpec
require_level ctx key = do
  row ← gets (λ s. first (has_level_key key) s.level_rows)
  or_raise (level_of (first (has_level_key key) ctx.levels) row) unknown_level

abbrev pub is_subscriber : String → String → MembershipSubscription → Bool
is_subscriber type id s = str_eq s.subject_type type && str_eq s.subject_id id

abbrev pub is_keyed_cycle : ℕ → String → MembershipCycle → Bool
is_keyed_cycle subscription key c =
    (c.subscription_id == subscription) && str_eq c.idempotency_key key

-- `_validate_prepare_replay`
abbrev pub differs : MembershipCycle → PrepareInput → Bool
differs c input =
    not (str_eq c.level_key input.level_key)
    || not (str_eq c.source_type input.source_type)
    || not (str_eq c.source_ref input.source_ref)

abbrev pub is_stale : Option ℕ → ℕ → Bool
is_stale none version = false
is_stale (some expected) version = not (version == expected)

unfoldable pub insert_subscription : MembershipSubscription → Membership (Unit {0})
insert_subscription row s =
    if any (is_subscriber row.subject_type row.subject_id) s.subscriptions
    then err subscription_exists
    else ok (tt, record s { subscriptions = s.subscriptions ++ row ∷ [] })

unfoldable pub put_subscription : MembershipSubscription → Membership (Unit {0})
put_subscription row =
    modify λ s. record s { subscriptions = put subscription_id row s.subscriptions }

-- The unique constraint on (subscription_id, idempotency_key).
unfoldable pub insert_cycle : MembershipCycle → Membership (Unit {0})
insert_cycle row s =
    if any (is_keyed_cycle row.subscription_id row.idempotency_key) s.cycles
    then err idempotency_conflict
    else ok (tt, record s { cycles = s.cycles ++ row ∷ [] })

abbrev pub fresh_id : Membership ℕ
fresh_id s = ok (s.next_id, record s { next_id = s.next_id + 1 })

-- The new cycle, current for the subscription row, which gets its id.
unfoldable pub add_cycle :
    MembershipContext
    → MembershipLevelSpec
    → PrepareInput
    → MembershipSubscription
    → Membership MembershipCycle
add_cycle ctx level input subscription = do
  id ← fresh_id
  let cycle : MembershipCycle = record {
    id = id;
    subscription_id = subscription.id;
    level_key = level.key;
    cycle_start = ctx.now;
    cycle_end = ctx.now + days level.cycle_days;
    cycle_points_amount = level.cycle_points_amount;
    state = prepared;
    source_type = input.source_type;
    source_ref = input.source_ref;
    points_entry_ref = none;
    idempotency_key = input.idempotency_key;
    attach_idempotency_key = none;
    failure_code = none;
    version = 1;
  }
  insert_cycle cycle
  put_subscription (record subscription { cycle_id = some id })
  emit cycle_prepared subscription.id (some id)
  pure cycle

-- A subject's first cycle.
unfoldable pub prepare_first :
    MembershipContext → MembershipLevelSpec → PrepareInput → Membership MembershipCycle
prepare_first ctx level input = do
  raise_if (is_some input.expected_version) subscription_version_conflict
  id ← fresh_id
  let subscription : MembershipSubscription = record {
    id = id;
    subject_type = input.subject_type;
    subject_id = input.subject_id;
    level_key = level.key;
    cycle_start = ctx.now;
    cycle_end = ctx.now + days level.cycle_days;
    status = pending_activation;
    auto_renew = input.auto_renew;
    granted_points = level.cycle_points_amount;
    renewal_count = 0;
    cycle_id = none;
    source_type = input.source_type;
    source_ref = input.source_ref;
    version = 1;
    cancelled_at = none;
    expired_at = none;
    terminated_at = none;
  }
  insert_subscription subscription
  add_cycle ctx level input subscription

abbrev pub renewed_row :
    MembershipContext
    → MembershipLevelSpec
    → PrepareInput
    → MembershipSubscription
    → MembershipSubscription
renewed_row ctx level input s = record s {
  level_key = level.key;
  cycle_start = ctx.now;
  cycle_end = ctx.now + days level.cycle_days;
  status = pending_activation;
  auto_renew = input.auto_renew;
  granted_points = level.cycle_points_amount;
  source_type = input.source_type;
  source_ref = input.source_ref;
  cancelled_at = none;
  expired_at = none;
  terminated_at = none;
  renewal_count = s.renewal_count + 1;
  version = s.version + 1;
}

unfoldable pub prepare_next :
    MembershipContext
    → MembershipLevelSpec
    → PrepareInput
    → MembershipSubscription
    → Membership MembershipCycle
prepare_next ctx level input subscription = do
  raise_if (is_stale input.expected_version subscription.version) subscription_version_conflict
  raise_if (has_current subscription.status) cycle_overlap
  raise_if (not level.renewal_allowed) renewal_not_allowed
  add_cycle ctx level input (renewed_row ctx level input subscription)

abbrev pub replay_prepare : PrepareInput → MembershipCycle → Membership MembershipCycle
replay_prepare input c = if differs c input then raise idempotency_conflict else pure c

abbrev pub prepare_unless :
    MembershipContext
    → MembershipLevelSpec
    → PrepareInput
    → MembershipSubscription
    → Option MembershipCycle
    → Membership (MembershipCycle × Bool)
prepare_unless ctx level input subscription (some c) = do
  cycle ← replay_prepare input c
  pure (cycle, false)
prepare_unless ctx level input subscription none = do
  cycle ← prepare_next ctx level input subscription
  pure (cycle, true)

abbrev pub prepare_for :
    MembershipContext
    → MembershipLevelSpec
    → PrepareInput
    → Option MembershipSubscription
    → Membership (MembershipCycle × Bool)
prepare_for ctx level input (some subscription) = do
  replay ← gets (λ s. first (is_keyed_cycle subscription.id input.idempotency_key) s.cycles)
  prepare_unless ctx level input subscription replay
prepare_for ctx level input none = do cycle ← prepare_first ctx level input; pure (cycle, true)

-- The cycle, and whether the unit of work is committed.
unfoldable pub prepare_cycle :
    MembershipContext → PrepareInput → Membership (MembershipCycle × Bool)
prepare_cycle ctx input = do
  level ← require_level ctx input.level_key
  raise_if (not level.is_open) level_inactive
  found ← gets (λ s. first (is_subscriber input.subject_type input.subject_id) s.subscriptions)
  prepare_for ctx level input found
