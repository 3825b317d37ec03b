-- ===== src/Membership/Cycles/Stopping.antt =====
-- `CancelSubscription`, `TerminateSubscription` and `ExpireSubscription` under the invariant.
use aiya_cms.Prelude.{
  ℕ, ◌≡◌, ◌≢◌, ◌∙◌, refl, ap, Bool, true, false, not, ◌||◌, some, List, [], ◌∷◌, arith, All, select,
  is_some,
}
use aiya_cms.Prelude.Result.{
  Ensures, Ensures-ok, Ensures-found, Ensures-if, Ensures-guard, Ensures-passed, Ensures-bind, pure,
}
use aiya_cms.Prelude.Table.{get, put, key-get}
use aiya_cms.Prelude.Distinct.{Loaded, put-Loaded, select-Loaded}
use aiya_cms.Membership.Model.{
  SubscriptionStatus, active, cancelled, expired, terminated, pending_activation, is_active,
  is_cancelled, is_terminated, MembershipSubscription, MembershipCycle, MembershipStore,
  MembershipContext, MembershipEvent, activated, failed, subscription_id, emit, not_active,
  forbidden, subscription_not_found,
}
use aiya_cms.Membership.Commands.Prepare.{put_subscription}
use aiya_cms.Membership.Commands.Settle.{get_subscription}
use aiya_cms.Membership.Commands.Stop.{
  cancelled_row, cancel_active, cancel_subscription, terminated_row, terminate_current,
  terminate_subscription, has_ended, expired_row, expire_rows, expire_subscriptions,
}
use aiya_cms.Membership.Cycles.{Fits, IsConsistent}
use aiya_cms.Membership.Cycles.Rows.{status-IsConsistent}
use aiya_cms.Membership.Cycles.Settling.{outbox-IsConsistent}

-- A subscription that is entitled until it ends.
abbrev pub entitled : SubscriptionStatus → Bool
entitled status = is_active status || is_cancelled status

pub entitled-Fits :
    (from : SubscriptionStatus) (c : MembershipCycle)
    → entitled from ≡ true
    → Fits from c
    → (c.state ≡ activated) × (is_some c.points_entry_ref ≡ true)
entitled-Fits active c e f = f
entitled-Fits cancelled c e f = f
entitled-Fits expired c e f = f
entitled-Fits terminated c e f = f
entitled-Fits pending_activation c e f = cc
entitled-Fits failed c e f = cc

entitled_settled : (from : SubscriptionStatus) → entitled from ≡ true → from ≢ pending_activation
entitled_settled from e p = ground (arith, e, p)

has_ended-entitled :
    (now : ℕ) (r : MembershipSubscription) → has_ended now r ≡ true → entitled r.status ≡ true
has_ended-entitled now r e = ground (arith, e)

-- An entitled row is stopped.
stopped-IsConsistent :
    (s : MembershipStore) (r r' : MembershipSubscription) (o : List MembershipEvent)
    → IsConsistent s
    → get subscription_id r.id s.subscriptions ≡ some r
    → entitled r.status ≡ true
    → r'.id ≡ r.id
    → r'.cycle_id ≡ r.cycle_id
    → ((c : MembershipCycle)
        → (c.state ≡ activated) × (is_some c.points_entry_ref ≡ true)
        → Fits r'.status c)
    → IsConsistent (record s { subscriptions = put subscription_id r' s.subscriptions; outbox = o })
stopped-IsConsistent s r r' o h g e id current fits =
    outbox-IsConsistent _
      (status-IsConsistent s h r r' g id current (λ c f. fits c (entitled-Fits r.status c e f))
        (entitled_settled r.status e))
      o

own_row :
    (id : ℕ) (s : MembershipStore) (r : MembershipSubscription)
    → get subscription_id id s.subscriptions ≡ some r
    → get subscription_id r.id s.subscriptions ≡ some r
own_row id s r g =
    ap (λ j. get subscription_id j s.subscriptions) (key-get subscription_id id s.subscriptions r g)
    ∙ g

pub cancel-IsConsistent :
    (ctx : MembershipContext) (id : ℕ) (s : MembershipStore)
    → IsConsistent s
    → Ensures (λ _ s'. IsConsistent s') (cancel_subscription ctx id s)
unfolding cancel_subscription get_subscription cancel_active put_subscription emit
cancel-IsConsistent ctx id s h =
    Ensures-found (get subscription_id id s.subscriptions) subscription_not_found _ _ s λ r g.
      Ensures-if (is_cancelled r.status) (pure false) (cancel_active ctx r) _ s
        (λ e. Ensures-ok _ _ _ s refl h)
        (λ e. Ensures-passed (not (is_active r.status)) not_active _ _ s λ a.
          Ensures-ok _ _ _ _ refl (
            stopped-IsConsistent s r (cancelled_row ctx.now r) _ h (own_row id s r g)
              (ground (arith, a)) refl refl (λ c f. f)))

pub terminate-IsConsistent :
    (ctx : MembershipContext) (id : ℕ) (s : MembershipStore)
    → IsConsistent s
    → Ensures (λ _ s'. IsConsistent s') (terminate_subscription ctx id s)
unfolding terminate_subscription get_subscription terminate_current put_subscription emit
terminate-IsConsistent ctx id s h = Ensures-guard (not ctx.may_manage) forbidden _ _ s (
    Ensures-found (get subscription_id id s.subscriptions) subscription_not_found _ _ s λ r g.
      Ensures-if (is_terminated r.status) (pure false) (terminate_current ctx r) _ s
        (λ e. Ensures-ok _ _ _ s refl h)
        (λ e.
          Ensures-passed (not (is_active r.status || is_cancelled r.status)) not_active _ _ s λ a.
            Ensures-ok _ _ _ _ refl (
              stopped-IsConsistent s r (terminated_row ctx.now r) _ h (own_row id s r g)
                (ground (arith, a)) refl refl (λ c f. f))))

select-Ended :
    (now : ℕ) (t : List MembershipSubscription)
    → All (λ r. has_ended now r ≡ true) (select (has_ended now) t)
select-Ended now [] = tt
select-Ended now (r ∷ t) = ground (arith, select-Ended now t)

expire_rows-IsConsistent :
    (ctx : MembershipContext) (rows : List MembershipSubscription) (s : MembershipStore)
    → IsConsistent s
    → Loaded subscription_id s.subscriptions rows
    → All (λ r. has_ended ctx.now r ≡ true) rows
    → Ensures (λ _ s'. IsConsistent s') (expire_rows ctx rows s)
unfolding expire_rows put_subscription emit
expire_rows-IsConsistent ctx [] s h l e = Ensures-ok _ _ _ s refl h
expire_rows-IsConsistent ctx (r ∷ rows) s h l e =
    expire_rows-IsConsistent ctx rows _
      (stopped-IsConsistent s r (expired_row ctx.now r) _ h l.0 (has_ended-entitled ctx.now r e.0)
        refl refl (λ c f. f))
      (put-Loaded subscription_id (expired_row ctx.now r) s.subscriptions rows l.1 l.2) e.1

pub expire-IsConsistent :
    (ctx : MembershipContext) (s : MembershipStore)
    → IsConsistent s
    → Ensures (λ _ s'. IsConsistent s') (expire_subscriptions ctx s)
unfolding expire_subscriptions
expire-IsConsistent ctx s h =
    Ensures-bind
      (expire_rows-IsConsistent ctx (select (has_ended ctx.now) s.subscriptions) s h
        (select-Loaded subscription_id (has_ended ctx.now) s.subscriptions h.distinct)
        (select-Ended ctx.now s.subscriptions))
      (λ a s' h'. Ensures-ok _ _ _ s' refl h')
