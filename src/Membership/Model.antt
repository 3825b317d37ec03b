-- ===== src/Membership/Model.antt =====
-- The tables of inc/capabilities/membership/models.py, the level declarations of levels.py, and the
-- context and the events of a command.
use aiya_cms.Prelude.{ℕ, String, Bool, true, false, Option, List, [], ◌∷◌, ◌++◌}
use aiya_cms.Prelude.Result.{Tx, modify}

-- The error codes that the commands raise, `membership.` left off.
pub data MembershipError : Type 0 where
  unknown_level level_inactive idempotency_conflict subscription_version_conflict : MembershipError
  cycle_overlap renewal_not_allowed subscription_exists cycle_not_found : MembershipError
  subscription_not_found points_grant_already_attached cycle_not_prepared : MembershipError
  subscription_cycle_mismatch cycle_failure_already_recorded not_active forbidden : MembershipError

pub data SubscriptionStatus : Type 0 where
  pending_activation active expired cancelled terminated failed : SubscriptionStatus

pub data CycleState : Type 0 where
  prepared activated failed_cycle : CycleState

-- `subscription.status in {"pending_activation", "active", "cancelled"}`
abbrev pub has_current : SubscriptionStatus → Bool
has_current pending_activation = true
has_current active = true
has_current cancelled = true
has_current _ = false

abbrev pub is_pending : SubscriptionStatus → Bool
is_pending pending_activation = true
is_pending _ = false

abbrev pub is_active : SubscriptionStatus → Bool
is_active active = true
is_active _ = false

abbrev pub is_cancelled : SubscriptionStatus → Bool
is_cancelled cancelled = true
is_cancelled _ = false

abbrev pub is_terminated : SubscriptionStatus → Bool
is_terminated terminated = true
is_terminated _ = false

-- A level, registered or as an administrator's row: `status` is whether it is "active".
pub record MembershipLevelSpec : Type 0 where
  pub key : String
  pub cycle_days : ℕ
  pub cycle_points_amount : ℕ
  pub renewal_allowed : Bool
  pub is_open : Bool

pub record MembershipSubscription : Type 0 where
  pub id : ℕ
  pub subject_type : String
  pub subject_id : String
  pub level_key : String
  pub cycle_start : ℕ
  pub cycle_end : ℕ
  pub status : SubscriptionStatus
  pub auto_renew : Bool
  pub granted_points : ℕ
  pub renewal_count : ℕ
  pub cycle_id : Option ℕ
  pub source_type : String
  pub source_ref : String
  pub version : ℕ
  pub cancelled_at : Option ℕ
  pub expired_at : Option ℕ
  pub terminated_at : Option ℕ

pub record MembershipCycle : Type 0 where
  pub id : ℕ
  pub subscription_id : ℕ
  pub level_key : String
  pub cycle_start : ℕ
  pub cycle_end : ℕ
  pub cycle_points_amount : ℕ
  pub state : CycleState
  pub source_type : String
  pub source_ref : String
  pub points_entry_ref : Option ℕ
  pub idempotency_key : String
  pub attach_idempotency_key : Option String
  pub failure_code : Option String
  pub version : ℕ

-- MEMBERSHIP_EVENT_SCHEMAS
pub data EventKey : Type 0 where
  cycle_prepared activated_event renewed cycle_failed cancelled_event : EventKey
  terminated_event expired_event : EventKey

pub record MembershipEvent : Type 0 where
  pub event_key : EventKey
  pub subscription_id : ℕ
  pub cycle_id : Option ℕ

-- The tables, and the next row id: uuid7 never gives the same id twice.
pub record MembershipStore : Type 0 where
  pub level_rows : List MembershipLevelSpec
  pub subscriptions : List MembershipSubscription
  pub cycles : List MembershipCycle
  pub outbox : List MembershipEvent
  pub next_id : ℕ

abbrev pub Membership : Type 0 → Type 0
Membership A = Tx MembershipStore MembershipError A

-- The registered levels, the caller's permission to manage, and the clock.
pub record MembershipContext : Type 0 where
  pub levels : List MembershipLevelSpec
  pub may_manage : Bool
  pub now : ℕ

pub record PrepareInput : Type 0 where
  pub subject_type : String
  pub subject_id : String
  pub level_key : String
  pub source_type : String
  pub source_ref : String
  pub idempotency_key : String
  pub auto_renew : Bool
  pub expected_version : Option ℕ

abbrev pub subscription_id : MembershipSubscription → ℕ
subscription_id s = s.id

abbrev pub cycle_id : MembershipCycle → ℕ
cycle_id c = c.id

-- `_emit`
unfoldable pub emit : EventKey → ℕ → Option ℕ → Membership (Unit {0})
emit key subscription cycle = modify λ s. record s {
  outbox =
      s.outbox ++ record { event_key = key; subscription_id = subscription; cycle_id = cycle } ∷ [];
}
