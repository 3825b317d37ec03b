-- ===== src/Membership/Cycles/Settled.antt =====
-- A prepared cycle is settled exactly once: by the points that were granted, or by a failure.
use aiya_cms.Prelude.{
  ℕ, ◌≡◌, ◌∙◌, refl, sym, ap, String, Bool, true, false, some, List, str_eq, ◌==◌, if◌then◌else◌,
}
use aiya_cms.Prelude.Result.{ok, err, pure, raise}
use aiya_cms.Prelude.Table.{get, put, get-put_self, key-get}
use aiya_cms.Membership.Model.{
  MembershipError, Membership, MembershipSubscription, MembershipCycle, MembershipStore,
  MembershipContext, EventKey, prepared, active, failed, cycle_failed, subscription_id, cycle_id,
  cycle_not_prepared, points_grant_already_attached, cycle_failure_already_recorded,
}
use aiya_cms.Membership.Commands.Settle.{
  get_cycle, get_subscription, attached, activation_event, attach_points_grant, failed_row,
  mark_cycle_failed,
}
use aiya_cms.Membership.Service.{MembershipCall, serve}
use aiya_cms.Membership.Cycles.{IsConsistent}
use aiya_cms.Membership.Cycles.Lasted.{serve-Lasting}
use aiya_cms.Membership.Cycles.Outcome.{
  waits, settled_store, moved_row, activate_lem, fail_cycle_lem, attach_rows, fail_rows,
}

module _ (s : MembershipStore) (c c' : MembershipCycle) (r r' : MembershipSubscription) (id : ℕ)
    (event : EventKey) (at_c : get cycle_id id s.cycles ≡ some c) (same_c : c'.id ≡ c.id)
    (same_owner : c'.subscription_id ≡ c.subscription_id)
    (at_r : get subscription_id c.subscription_id s.subscriptions ≡ some r)
    (same_r : r'.id ≡ r.id) where
  -- Both rows are read again as they were written.
  cycle_again : get cycle_id id (settled_store c' r' event s).cycles ≡ some c'
  cycle_again =
      let here : c'.id ≡ id = same_c ∙ key-get cycle_id id s.cycles c at_c in
      ap (λ j. get cycle_id j (put cycle_id c' s.cycles)) (sym here)
      ∙ get-put_self cycle_id c' c s.cycles (ap (λ j. get cycle_id j s.cycles) here ∙ at_c)

  subscription_again :
      get subscription_id c'.subscription_id (settled_store c' r' event s).subscriptions ≡ some r'
  subscription_again =
      let here : r'.id ≡ c.subscription_id =
        same_r ∙ key-get subscription_id c.subscription_id s.subscriptions r at_r in
      ap (λ j. get subscription_id j (put subscription_id r' s.subscriptions))
        (same_owner ∙ sym here)
      ∙ get-put_self subscription_id r' r s.subscriptions
          (ap (λ j. get subscription_id j s.subscriptions) here ∙ at_r)

abbrev answer : Bool → MembershipCycle → MembershipError → Membership (MembershipCycle × Bool)
answer b c x = if b then pure (c, false) else raise x

replay_or_refuse :
    (b : Bool) (c : MembershipCycle) (x : MembershipError) (s : MembershipStore)
    → answer b c x s ≡ (if b then ok ((c, false), s) else err x)
replay_or_refuse true c x s = refl
replay_or_refuse false c x s = refl

-- The two commands on a cycle that is settled.
module _ (s : MembershipStore) (c : MembershipCycle) (r : MembershipSubscription) (id : ℕ)
    (at_r : get subscription_id c.subscription_id s.subscriptions ≡ some r) where
  attach_again :
      (entry entry' : ℕ) (key key' : String)
      → get cycle_id id s.cycles ≡ some (attached entry key c)
      → attach_points_grant id entry' key' s ≡ (
          if entry == entry'
          then ok ((attached entry key c, false), s)
          else err points_grant_already_attached)
  unfolding attach_points_grant get_cycle get_subscription
  attach_again entry entry' key key' at_c =
      rw (at_c, at_r)
        (replay_or_refuse (entry == entry') (attached entry key c) points_grant_already_attached s)

  fail_activated :
      (entry : ℕ) (key code : String)
      → get cycle_id id s.cycles ≡ some (attached entry key c)
      → mark_cycle_failed id code s ≡ err cycle_not_prepared
  unfolding mark_cycle_failed get_cycle get_subscription
  fail_activated entry key code at_c = rw (at_c, at_r) refl

  fail_again :
      (code code' : String)
      → get cycle_id id s.cycles ≡ some (failed_row code c)
      → mark_cycle_failed id code' s ≡ (
          if str_eq code code'
          then ok ((failed_row code c, false), s)
          else err cycle_failure_already_recorded)
  unfolding mark_cycle_failed get_cycle get_subscription
  fail_again code code' at_c =
      rw (at_c, at_r)
        (replay_or_refuse (str_eq code code') (failed_row code c) cycle_failure_already_recorded s)

  attach_failed :
      (code : String) (entry : ℕ) (key : String)
      → get cycle_id id s.cycles ≡ some (failed_row code c)
      → attach_points_grant id entry key s ≡ err cycle_not_prepared
  unfolding attach_points_grant get_cycle get_subscription
  attach_failed code entry key at_c = rw (at_c, at_r) refl

-- In a consistent store the first points entry of a prepared cycle is always taken: the cycle is
-- activated with it and its subscription becomes active. From then on, whatever calls are served in
-- between, the same entry is answered without a change, another one is refused, and so is recording
-- a failure.
pub attach_once :
    (s : MembershipStore) (c : MembershipCycle) (id entry entry' : ℕ) (key key' code : String)
    (calls : List (MembershipContext × MembershipCall))
    → IsConsistent s
    → get cycle_id id s.cycles ≡ some c
    → c.state ≡ prepared
    → (s' : MembershipStore) × (attach_points_grant id entry key s
        ≡ ok ((attached entry key c, true), s'))
      × (get cycle_id id s'.cycles ≡ some (attached entry key c))
      × ((r : MembershipSubscription) × (get subscription_id c.subscription_id s'.subscriptions
            ≡ some r)
          × (r.status ≡ active))
      × (attach_points_grant id entry' key' (serve calls s') ≡ (
          if entry == entry'
          then ok ((attached entry key c, false), serve calls s')
          else err points_grant_already_attached))
      × (mark_cycle_failed id code (serve calls s') ≡ err cycle_not_prepared)
attach_once s c id entry entry' key key' code calls h at_c p =
    let (r, w) = waits s c id h at_c p in
    let event = activation_event r.renewal_count in
    let s' = settled_store (attached entry key c) (moved_row active r) event s in
    let at_c' =
      cycle_again s c (attached entry key c) r (moved_row active r) id event at_c refl refl w.row
        refl in
    let at_r' =
      subscription_again s c (attached entry key c) r (moved_row active r) id event at_c refl refl
        w.row refl in
    let later = serve-Lasting calls s' in
    let at_c'' = later.settled id (attached entry key c) at_c' (λ q. cc q) in
    let (q, at_q) = later.there c.subscription_id (moved_row active r) at_r' in
    (
      s',
      attach_rows s c r id entry key at_c w.row p
          ∙ activate_lem c r entry key s w.current w.pending,
      at_c',
      (moved_row active r, at_r', refl),
      attach_again (serve calls s') c q id at_q entry entry' key key' at_c'',
      fail_activated (serve calls s') c q id at_q entry key code at_c'',
    )

-- In a consistent store a prepared cycle can always be recorded as failed: its subscription fails
-- with it. From then on, whatever calls are served in between, the same failure is answered without
-- a change, another one is refused, and so is every points entry.
pub fail_once :
    (s : MembershipStore) (c : MembershipCycle) (id entry : ℕ) (key code code' : String)
    (calls : List (MembershipContext × MembershipCall))
    → IsConsistent s
    → get cycle_id id s.cycles ≡ some c
    → c.state ≡ prepared
    → (s' : MembershipStore) × (mark_cycle_failed id code s ≡ ok ((failed_row code c, true), s'))
      × (get cycle_id id s'.cycles ≡ some (failed_row code c))
      × ((r : MembershipSubscription) × (get subscription_id c.subscription_id s'.subscriptions
            ≡ some r)
          × (r.status ≡ failed))
      × (mark_cycle_failed id code' (serve calls s') ≡ (
          if str_eq code code'
          then ok ((failed_row code c, false), serve calls s')
          else err cycle_failure_already_recorded))
      × (attach_points_grant id entry key (serve calls s') ≡ err cycle_not_prepared)
fail_once s c id entry key code code' calls h at_c p =
    let (r, w) = waits s c id h at_c p in
    let s' = settled_store (failed_row code c) (moved_row failed r) cycle_failed s in
    let at_c' =
      cycle_again s c (failed_row code c) r (moved_row failed r) id cycle_failed at_c refl refl
        w.row refl in
    let at_r' =
      subscription_again s c (failed_row code c) r (moved_row failed r) id cycle_failed at_c refl
        refl w.row refl in
    let later = serve-Lasting calls s' in
    let at_c'' = later.settled id (failed_row code c) at_c' (λ q. cc q) in
    let (q, at_q) = later.there c.subscription_id (moved_row failed r) at_r' in
    (
      s',
      fail_rows s c r id code at_c w.row p ∙ fail_cycle_lem c r code s w.current,
      at_c',
      (moved_row failed r, at_r', refl),
      fail_again (serve calls s') c q id at_q code code' at_c'',
      attach_failed (serve calls s') c q id at_q code entry key at_c'',
    )
