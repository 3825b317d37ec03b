-- ===== src/Membership/Cycles.antt =====
-- What ties subscriptions to their cycles.
pub mod Rows
pub mod Adding
pub mod Preparing
pub mod Stopping
pub mod Settling
pub mod Outcome
pub mod Lasting
pub mod Prepared
pub mod Lasted
pub mod Settled
pub mod History
use aiya_cms.Prelude.{ℕ, ◌≤◌, ◌≡◌, ◌≢◌, Bool, true, Option, none, some, List, is_some}
use aiya_cms.Prelude.Table.{get}
use aiya_cms.Prelude.Distinct.{Distinct}
use aiya_cms.Membership.Model.{
  SubscriptionStatus, pending_activation, active, expired, cancelled, terminated, failed,
  CycleState, prepared, activated, failed_cycle, MembershipSubscription, MembershipCycle,
  MembershipStore, subscription_id, cycle_id,
}

-- A subscription that gives, or gave, an entitlement rests on a cycle that is activated with a
-- points entry.
abbrev pub Fits : SubscriptionStatus → MembershipCycle → Type 0
Fits pending_activation c = c.state ≡ prepared
Fits failed c = c.state ≡ failed_cycle
Fits active c = (c.state ≡ activated) × (is_some c.points_entry_ref ≡ true)
Fits expired c = (c.state ≡ activated) × (is_some c.points_entry_ref ≡ true)
Fits cancelled c = (c.state ≡ activated) × (is_some c.points_entry_ref ≡ true)
Fits terminated c = (c.state ≡ activated) × (is_some c.points_entry_ref ≡ true)

-- The row's current cycle is there, is its own and fits its status.
abbrev pub Current : List MembershipCycle → MembershipSubscription → Type 0
Current t r =
    (c : MembershipCycle) × (r.cycle_id ≡ some c.id)
    × (get cycle_id c.id t ≡ some c)
    × (c.subscription_id ≡ r.id)
    × Fits r.status c

-- The subscription of the cycle waits for it.
abbrev pub Awaited : List MembershipSubscription → MembershipCycle → Type 0
Awaited t c =
    (r : MembershipSubscription) × (get subscription_id c.subscription_id t ≡ some r)
    × (r.cycle_id ≡ some c.id)
    × (r.status ≡ pending_activation)

pub record IsConsistent (s : MembershipStore) : Type 0 where
  pub distinct : Distinct subscription_id s.subscriptions
  pub new_subscriptions : (i : ℕ) → s.next_id ≤ i → get subscription_id i s.subscriptions ≡ none
  pub new_cycles : (i : ℕ) → s.next_id ≤ i → get cycle_id i s.cycles ≡ none
  pub current :
      (i : ℕ) (r : MembershipSubscription)
      → get subscription_id i s.subscriptions ≡ some r
      → Current s.cycles r
  pub awaited :
      (i : ℕ) (c : MembershipCycle)
      → get cycle_id i s.cycles ≡ some c
      → c.state ≡ prepared
      → Awaited s.subscriptions c

-- The same while the subscription `a` is without a current cycle.
pub record ExceptFor (a : ℕ) (s : MembershipStore) : Type 0 where
  pub distinct : Distinct subscription_id s.subscriptions
  pub new_subscriptions : (i : ℕ) → s.next_id ≤ i → get subscription_id i s.subscriptions ≡ none
  pub new_cycles : (i : ℕ) → s.next_id ≤ i → get cycle_id i s.cycles ≡ none
  pub current :
      (i : ℕ) (r : MembershipSubscription)
      → a ≢ i
      → get subscription_id i s.subscriptions ≡ some r
      → Current s.cycles r
  pub awaited :
      (i : ℕ) (c : MembershipCycle)
      → get cycle_id i s.cycles ≡ some c
      → c.state ≡ prepared
      → (a ≢ c.subscription_id) × Awaited s.subscriptions c
