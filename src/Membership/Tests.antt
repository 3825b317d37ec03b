-- ===== src/Membership/Tests.antt =====
-- The theorems on the membership capability at concrete tables, and runs of its commands.
use aiya_cms.Prelude.{◌≡◌, refl, String, true, false, none, some, List, [], ◌∷◌, ◌++◌, map}
use aiya_cms.Prelude.Result.{ok, err}
use aiya_cms.Prelude.Table.{get, put}
use aiya_cms.Membership.Model.{
  cycle_failed, MembershipLevelSpec, MembershipSubscription, MembershipCycle, MembershipStore,
  MembershipContext, PrepareInput, active, failed, prepared, emit, subscription_id, cycle_id,
  cycle_not_prepared, points_grant_already_attached, pending_activation, cancelled_event,
  terminated_event, expired_event, renewed, activated_event, cycle_prepared,
}
use aiya_cms.Membership.Commands.Prepare.{
  require_level, insert_subscription, put_subscription, insert_cycle, add_cycle, prepare_first,
  prepare_next, prepare_cycle,
}
use aiya_cms.Membership.Commands.Settle.{
  get_cycle, get_subscription, put_cycle, attached, failed_row, activate, attach_points_grant,
  mark_cycle_failed,
}
use aiya_cms.Membership.Commands.Stop.{
  cancel_active, cancel_subscription, terminate_current, terminate_subscription, expire_rows,
  expire_subscriptions,
}
use aiya_cms.Membership.Commands.Settle.{fail_cycle, fail_subscription}
use aiya_cms.Membership.Service.{
  MembershipCall, prepare_call, attach_call, fail_call, cancel_call, terminate_call, expire_call,
  handle, in_unit_of_work, serve,
}
use aiya_cms.Membership.Cycles.{IsConsistent}
use aiya_cms.Membership.Cycles.Settled.{attach_once, fail_once}
use aiya_cms.Membership.Cycles.History.{
  no_subscriptions, no_subscriptions-IsConsistent, serve-IsConsistent, IsGranted,
  entitled-IsGranted,
}

abbrev gold : MembershipLevelSpec
gold = record {
  key = "gold";
  cycle_days = 30;
  cycle_points_amount = 100;
  renewal_allowed = true;
  is_open = true;
}

abbrev context : MembershipContext
context = record { levels = gold ∷ []; may_manage = true; now = 5 }

abbrev much_later : MembershipContext
much_later = record context { now = 9000000000000 }

abbrev order : String → PrepareInput
order key = record {
  subject_type = "user";
  subject_id = "ann";
  level_key = "gold";
  source_type = "purchase";
  source_ref = "order-1";
  idempotency_key = key;
  auto_renew = false;
  expected_version = none;
}

abbrev ordered : List (MembershipContext × MembershipCall)
ordered = (context, prepare_call (order "k1")) ∷ []

abbrev paid : List (MembershipContext × MembershipCall)
paid = ordered ++ (context, attach_call 1 7 "grant-1") ∷ []

abbrev renewed_twice : List (MembershipContext × MembershipCall)
renewed_twice =
    paid
    ++ (context, cancel_call 0)
      ∷ (much_later, expire_call)
      ∷ (much_later, prepare_call (order "k2"))
      ∷ (much_later, attach_call 2 8 "grant-2")
      ∷ (much_later, terminate_call 0)
      ∷ []

abbrev new_row : MembershipSubscription
new_row = record {
  id = 0;
  subject_type = "user";
  subject_id = "ann";
  level_key = "gold";
  cycle_start = 5;
  cycle_end = 2592000000005;
  status = pending_activation;
  auto_renew = false;
  granted_points = 100;
  renewal_count = 0;
  cycle_id = some 1;
  source_type = "purchase";
  source_ref = "order-1";
  version = 1;
  cancelled_at = none;
  expired_at = none;
  terminated_at = none;
}

abbrev new_cycle : MembershipCycle
new_cycle = record {
  id = 1;
  subscription_id = 0;
  level_key = "gold";
  cycle_start = 5;
  cycle_end = 2592000000005;
  cycle_points_amount = 100;
  state = prepared;
  source_type = "purchase";
  source_ref = "order-1";
  points_entry_ref = none;
  idempotency_key = "k1";
  attach_idempotency_key = none;
  failure_code = none;
  version = 1;
}

abbrev empty_tables : MembershipStore
empty_tables = no_subscriptions []

-- The second cycle is a renewal, and ends with the subscription terminated.
renewed_twice_events :
    map (λ e. e.event_key) (serve renewed_twice empty_tables).outbox
    ≡ cycle_prepared ∷ activated_event ∷ cancelled_event ∷ expired_event ∷ cycle_prepared ∷ renewed
      ∷ terminated_event ∷ []
unfolding serve in_unit_of_work handle prepare_cycle require_level prepare_first prepare_next
    insert_subscription add_cycle insert_cycle put_subscription emit attach_points_grant get_cycle
    get_subscription activate put_cycle get put cancel_subscription cancel_active
    terminate_subscription terminate_current expire_subscriptions expire_rows
renewed_twice_events = refl

abbrev retried : List (MembershipContext × MembershipCall)
retried =
    ordered
    ++ (context, fail_call 1 "declined")
      ∷ (context, prepare_call (order "k2"))
      ∷ (context, attach_call 2 8 "grant-2")
      ∷ []

-- After a first cycle that failed, the first activation is announced as a renewal.
retry_is_renewal :
    map (λ e. e.event_key) (serve retried empty_tables).outbox
    ≡ cycle_prepared ∷ cycle_failed ∷ cycle_prepared ∷ renewed ∷ []
unfolding serve in_unit_of_work handle prepare_cycle require_level prepare_first prepare_next
    insert_subscription add_cycle insert_cycle put_subscription emit attach_points_grant get_cycle
    get_subscription activate put_cycle get put cancel_subscription cancel_active
    terminate_subscription terminate_current expire_subscriptions expire_rows mark_cycle_failed
    fail_cycle fail_subscription
retry_is_renewal = refl

serve-IsConsistent_example : IsConsistent (serve renewed_twice empty_tables)
serve-IsConsistent_example =
    serve-IsConsistent renewed_twice empty_tables (no_subscriptions-IsConsistent [])

entitled-IsGranted_example :
    IsGranted (serve paid (no_subscriptions [])) (record new_row { status = active; version = 2 })
unfolding serve in_unit_of_work handle prepare_cycle require_level prepare_first prepare_next
    insert_subscription add_cycle insert_cycle put_subscription emit attach_points_grant get_cycle
    get_subscription activate put_cycle get put
entitled-IsGranted_example =
    entitled-IsGranted [] paid 0 (record new_row { status = active; version = 2 }) refl refl

new_cycle_stored : get cycle_id 1 (serve ordered empty_tables).cycles ≡ some new_cycle
unfolding serve in_unit_of_work handle prepare_cycle require_level prepare_first prepare_next
    insert_subscription add_cycle insert_cycle put_subscription emit attach_points_grant get_cycle
    get_subscription activate put_cycle get put
new_cycle_stored = refl

-- The entry 7 activates the cycle. Then the subscription is cancelled, ends, and is renewed; entry 8
-- is still refused.
abbrev stopped : List (MembershipContext × MembershipCall)
stopped =
    (context, cancel_call 0)
    ∷ (much_later, expire_call)
    ∷ (much_later, prepare_call (order "order-2"))
    ∷ []

attach_once_example :
    (s' : MembershipStore) × (attach_points_grant 1 7 "grant-1" (serve ordered empty_tables)
      ≡ ok ((attached 7 "grant-1" new_cycle, true), s'))
    × (get cycle_id 1 s'.cycles ≡ some (attached 7 "grant-1" new_cycle))
    × ((r : MembershipSubscription) × (get subscription_id 0 s'.subscriptions ≡ some r)
        × (r.status ≡ active))
    × (attach_points_grant 1 8 "grant-2" (serve stopped s') ≡ err points_grant_already_attached)
    × (mark_cycle_failed 1 "declined" (serve stopped s') ≡ err cycle_not_prepared)
attach_once_example =
    attach_once (serve ordered empty_tables) new_cycle 1 7 8 "grant-1" "grant-2" "declined" stopped
      (serve-IsConsistent ordered empty_tables (no_subscriptions-IsConsistent [])) new_cycle_stored
      refl

-- A failure that is recorded again after a new order is answered, and the points are refused.
abbrev reordered : List (MembershipContext × MembershipCall)
reordered = (much_later, prepare_call (order "order-2")) ∷ []

fail_once_example :
    (s' : MembershipStore) × (mark_cycle_failed 1 "declined" (serve ordered empty_tables)
      ≡ ok ((failed_row "declined" new_cycle, true), s'))
    × (get cycle_id 1 s'.cycles ≡ some (failed_row "declined" new_cycle))
    × ((r : MembershipSubscription) × (get subscription_id 0 s'.subscriptions ≡ some r)
        × (r.status ≡ failed))
    × (mark_cycle_failed 1 "declined" (serve reordered s')
        ≡ ok ((failed_row "declined" new_cycle, false), serve reordered s'))
    × (attach_points_grant 1 7 "grant-1" (serve reordered s') ≡ err cycle_not_prepared)
fail_once_example =
    fail_once (serve ordered empty_tables) new_cycle 1 7 "grant-1" "declined" "declined" reordered
      (serve-IsConsistent ordered empty_tables (no_subscriptions-IsConsistent [])) new_cycle_stored
      refl
