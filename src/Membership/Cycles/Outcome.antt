-- ===== src/Membership/Cycles/Outcome.antt =====
-- What `AttachPointsGrant` and `MarkCycleFailed` do to a prepared cycle, and that they keep the
-- invariant.
use aiya_cms.Prelude.{
  ℕ, ◌+◌, ◌≡◌, ◌∙◌, refl, ap, String, true, Option, none, some, [], ◌∷◌, ◌++◌, ==_refl, eq_option,
  str_eq, ◌==◌,
}
use aiya_cms.Prelude.Result.{ok, Ensures, Ensures-ok, Ensures-err, Ensures-if}
use aiya_cms.Prelude.Table.{get, put, key-get}
use aiya_cms.Membership.Model.{
  SubscriptionStatus, CycleState, MembershipSubscription, MembershipCycle, MembershipStore,
  EventKey, prepared, activated, failed_cycle, cycle_failed, pending_activation, active, failed,
  subscription_id, cycle_id, emit, cycle_not_prepared, cycle_not_found, subscription_not_found,
  points_grant_already_attached, cycle_failure_already_recorded,
}
use aiya_cms.Membership.Commands.Prepare.{put_subscription}
use aiya_cms.Membership.Commands.Settle.{
  get_cycle, get_subscription, put_cycle, attached, activation_event, activate, attach_points_grant,
  failed_row, fail_subscription, fail_cycle, mark_cycle_failed,
}
use aiya_cms.Membership.Cycles.{IsConsistent}
use aiya_cms.Membership.Cycles.Settling.{outbox-IsConsistent, settled-IsConsistent}

-- The subscription with another status, as a row of the next version.
abbrev pub moved_row : SubscriptionStatus → MembershipSubscription → MembershipSubscription
moved_row status r = record r { status = status; version = r.version + 1 }

-- The store after a cycle and its subscription were written and an event was added.
abbrev pub settled_store :
    MembershipCycle → MembershipSubscription → EventKey → MembershipStore → MembershipStore
settled_store c r event s = record s {
  cycles = put cycle_id c s.cycles;
  subscriptions = put subscription_id r s.subscriptions;
  outbox =
      s.outbox ++ record { event_key = event; subscription_id = r.id; cycle_id = some c.id } ∷ [];
}

pub activate_lem :
    (c : MembershipCycle) (r : MembershipSubscription) (entry : ℕ) (key : String)
    (s : MembershipStore)
    → r.cycle_id ≡ some c.id
    → r.status ≡ pending_activation
    → activate c r entry key s
      ≡ ok (
        (attached entry key c, true),
        settled_store
            (attached entry key c)
            (moved_row active r)
            (activation_event r.renewal_count)
            s,
      )
unfolding activate put_cycle put_subscription emit
activate_lem c r entry key s id pending = rw (id, pending, ==_refl) refl

pub fail_cycle_lem :
    (c : MembershipCycle) (r : MembershipSubscription) (code : String) (s : MembershipStore)
    → r.cycle_id ≡ some c.id
    → fail_cycle c r code s
      ≡ ok (
        (failed_row code c, true),
        settled_store (failed_row code c) (moved_row failed r) cycle_failed s,
      )
unfolding fail_cycle fail_subscription put_cycle put_subscription emit
fail_cycle_lem c r code s id = rw (id, ==_refl) refl

-- The row that waits for the prepared cycle `c`.
pub record Waits (s : MembershipStore) (c : MembershipCycle) (r : MembershipSubscription)
    : Type 0 where
  pub row : get subscription_id c.subscription_id s.subscriptions ≡ some r
  pub current : r.cycle_id ≡ some c.id
  pub pending : r.status ≡ pending_activation

module _ (s : MembershipStore) (h : IsConsistent s) (c : MembershipCycle)
    (at_c : get cycle_id c.id s.cycles ≡ some c) (r : MembershipSubscription)
    (w : Waits s c r) where
  owner : r.id ≡ c.subscription_id
  owner = key-get subscription_id c.subscription_id s.subscriptions r w.row

  own_row : get subscription_id r.id s.subscriptions ≡ some r
  own_row = ap (λ j. get subscription_id j s.subscriptions) owner ∙ w.row

  pub activated-IsConsistent :
      (entry : ℕ) (key : String) (event : EventKey)
      → IsConsistent (settled_store (attached entry key c) (moved_row active r) event s)
  activated-IsConsistent entry key event =
      outbox-IsConsistent _
        (settled-IsConsistent s h c (attached entry key c) r (moved_row active r) at_c refl refl
          (λ p. cc p) own_row owner w.current refl refl (refl, refl))
        _

  pub failed-IsConsistent :
      (code : String) (event : EventKey)
      → IsConsistent (settled_store (failed_row code c) (moved_row failed r) event s)
  failed-IsConsistent code event =
      outbox-IsConsistent _
        (settled-IsConsistent s h c (failed_row code c) r (moved_row failed r) at_c refl refl
          (λ p. cc p) own_row owner w.current refl refl refl)
        _

module _ (s : MembershipStore) (c : MembershipCycle) (r : MembershipSubscription) (id : ℕ) where
  -- The command, once both rows were read.
  pub attach_rows :
      (entry : ℕ) (key : String)
      → get cycle_id id s.cycles ≡ some c
      → get subscription_id c.subscription_id s.subscriptions ≡ some r
      → c.state ≡ prepared
      → attach_points_grant id entry key s ≡ activate c r entry key s
  unfolding attach_points_grant get_cycle get_subscription activate
  attach_rows entry key at_c at_r p = rw (at_c, at_r, p) refl

  pub fail_rows :
      (code : String)
      → get cycle_id id s.cycles ≡ some c
      → get subscription_id c.subscription_id s.subscriptions ≡ some r
      → c.state ≡ prepared
      → mark_cycle_failed id code s ≡ fail_cycle c r code s
  unfolding mark_cycle_failed get_cycle get_subscription fail_cycle fail_subscription
  fail_rows code at_c at_r p = rw (at_c, at_r, p) refl

-- In a consistent store a prepared cycle has its subscription waiting for it.
pub waits :
    (s : MembershipStore) (c : MembershipCycle) (id : ℕ)
    → IsConsistent s
    → get cycle_id id s.cycles ≡ some c
    → c.state ≡ prepared
    → (r : MembershipSubscription) × Waits s c r
waits s c id h at_c p =
    let (r, row, current, pending) = h.awaited id c at_c p in
    (r, record { row = row; current = current; pending = pending })

module _ (s : MembershipStore) (h : IsConsistent s) (id : ℕ) where
  own_id :
      (c : MembershipCycle)
      → get cycle_id id s.cycles ≡ some c
      → get cycle_id c.id s.cycles ≡ some c
  own_id c at_c = ap (λ j. get cycle_id j s.cycles) (key-get cycle_id id s.cycles c at_c) ∙ at_c

  pub attach-IsConsistent :
      (entry : ℕ) (key : String)
      → Ensures (λ _ s'. IsConsistent s') (attach_points_grant id entry key s)
  unfolding attach_points_grant get_cycle get_subscription
  attach-IsConsistent entry key = by_cycle (get cycle_id id s.cycles) refl
    where
      by_state :
          (c : MembershipCycle) (r : MembershipSubscription) (state : CycleState)
          → get cycle_id id s.cycles ≡ some c
          → get subscription_id c.subscription_id s.subscriptions ≡ some r
          → c.state ≡ state
          → Ensures (λ _ s'. IsConsistent s') (attach_points_grant id entry key s)
      by_state c r prepared at_c at_r p =
          let (q, w) = waits s c id h at_c p in
          Ensures-ok _ _ _ _
            (attach_rows s c q id entry key at_c w.row p
              ∙ activate_lem c q entry key s w.current w.pending)
            (activated-IsConsistent s h c (own_id c at_c) q w entry key
              (activation_event q.renewal_count))
      by_state c r activated at_c at_r p =
          rw (at_c, at_r, p)
            (Ensures-if (eq_option ◌==◌ c.points_entry_ref (some entry)) _ _ _ s
              (λ e. Ensures-ok _ _ _ s refl h)
              (λ e. Ensures-err _ _ points_grant_already_attached refl))
      by_state c r failed_cycle at_c at_r p =
          rw (at_c, at_r, p) (Ensures-err _ _ cycle_not_prepared refl)

      by_row :
          (c : MembershipCycle) (o : Option MembershipSubscription)
          → get cycle_id id s.cycles ≡ some c
          → get subscription_id c.subscription_id s.subscriptions ≡ o
          → Ensures (λ _ s'. IsConsistent s') (attach_points_grant id entry key s)
      by_row c none at_c at_r = rw (at_c, at_r) (Ensures-err _ _ subscription_not_found refl)
      by_row c (some r) at_c at_r = by_state c r c.state at_c at_r refl

      by_cycle :
          (o : Option MembershipCycle)
          → get cycle_id id s.cycles ≡ o
          → Ensures (λ _ s'. IsConsistent s') (attach_points_grant id entry key s)
      by_cycle none at_c = rw at_c (Ensures-err _ _ cycle_not_found refl)
      by_cycle (some c) at_c =
          by_row c (get subscription_id c.subscription_id s.subscriptions) at_c refl

  pub fail-IsConsistent :
      (code : String) → Ensures (λ _ s'. IsConsistent s') (mark_cycle_failed id code s)
  unfolding mark_cycle_failed get_cycle get_subscription
  fail-IsConsistent code = by_cycle (get cycle_id id s.cycles) refl
    where
      by_state :
          (c : MembershipCycle) (r : MembershipSubscription) (state : CycleState)
          → get cycle_id id s.cycles ≡ some c
          → get subscription_id c.subscription_id s.subscriptions ≡ some r
          → c.state ≡ state
          → Ensures (λ _ s'. IsConsistent s') (mark_cycle_failed id code s)
      by_state c r prepared at_c at_r p =
          let (q, w) = waits s c id h at_c p in
          Ensures-ok _ _ _ _
            (fail_rows s c q id code at_c w.row p ∙ fail_cycle_lem c q code s w.current)
            (failed-IsConsistent s h c (own_id c at_c) q w code cycle_failed)
      by_state c r failed_cycle at_c at_r p =
          rw (at_c, at_r, p)
            (Ensures-if (eq_option str_eq c.failure_code (some code)) _ _ _ s
              (λ e. Ensures-ok _ _ _ s refl h)
              (λ e. Ensures-err _ _ cycle_failure_already_recorded refl))
      by_state c r activated at_c at_r p =
          rw (at_c, at_r, p) (Ensures-err _ _ cycle_not_prepared refl)

      by_row :
          (c : MembershipCycle) (o : Option MembershipSubscription)
          → get cycle_id id s.cycles ≡ some c
          → get subscription_id c.subscription_id s.subscriptions ≡ o
          → Ensures (λ _ s'. IsConsistent s') (mark_cycle_failed id code s)
      by_row c none at_c at_r = rw (at_c, at_r) (Ensures-err _ _ subscription_not_found refl)
      by_row c (some r) at_c at_r = by_state c r c.state at_c at_r refl

      by_cycle :
          (o : Option MembershipCycle)
          → get cycle_id id s.cycles ≡ o
          → Ensures (λ _ s'. IsConsistent s') (mark_cycle_failed id code s)
      by_cycle none at_c = rw at_c (Ensures-err _ _ cycle_not_found refl)
      by_cycle (some c) at_c =
          by_row c (get subscription_id c.subscription_id s.subscriptions) at_c refl
