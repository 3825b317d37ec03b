-- ===== src/Membership/Cycles/Preparing.antt =====
-- `PrepareSubscriptionCycle` under the invariant.
use aiya_cms.Prelude.{◌≡◌, refl, not, Option, none, some, arith, first, any, is_some}
use aiya_cms.Prelude.Result.{
  Ensures, Ensures-ok, Ensures-err, Ensures-found, Ensures-if, Ensures-guard, Ensures-passed,
  Ensures-bind, Ensures-unless, pure, raise,
}
use aiya_cms.Prelude.Table.{get, get-append_new}
use aiya_cms.Prelude.Distinct.{first-get}
use aiya_cms.Membership.Model.{
  pending_activation, has_current, MembershipSubscription, MembershipCycle, MembershipStore,
  MembershipContext, MembershipLevelSpec, PrepareInput, subscription_id, emit, unknown_level,
  level_inactive, idempotency_conflict, subscription_version_conflict, cycle_overlap,
  renewal_not_allowed, subscription_exists,
}
use aiya_cms.Membership.Commands.Prepare.{
  put_subscription, insert_subscription, insert_cycle, is_keyed_cycle, is_subscriber, is_stale,
  has_level_key, level_of, differs, add_cycle, prepare_first, renewed_row, prepare_next,
  prepare_unless, prepare_for, prepare_cycle, require_level,
}
use aiya_cms.Membership.Cycles.{IsConsistent, ExceptFor}
use aiya_cms.Membership.Cycles.Adding.{added-IsConsistent, settled-ExceptFor, new-ExceptFor}

module _ (ctx : MembershipContext) (level : MembershipLevelSpec) (input : PrepareInput) where
  add_cycle-IsConsistent :
      (r old : MembershipSubscription) (s : MembershipStore)
      → ExceptFor r.id s
      → get subscription_id r.id s.subscriptions ≡ some old
      → r.status ≡ pending_activation
      → Ensures (λ _ s'. IsConsistent s') (add_cycle ctx level input r s)
  unfolding add_cycle insert_cycle put_subscription emit
  add_cycle-IsConsistent r old s x at_r pending =
      Ensures-unless (any (is_keyed_cycle r.id input.idempotency_key) s.cycles) idempotency_conflict
        tt _ _ _
        (Ensures-ok _ _ _ _ refl (
          added-IsConsistent s r (record r { cycle_id = some s.next_id }) _ old x at_r refl refl
            refl refl pending (rw pending refl) _))

  first-IsConsistent :
      (s : MembershipStore)
      → IsConsistent s
      → Ensures (λ _ s'. IsConsistent s') (prepare_first ctx level input s)
  unfolding prepare_first insert_subscription
  first-IsConsistent s h =
      Ensures-guard (is_some input.expected_version) subscription_version_conflict _ _ s (
        Ensures-unless (any (is_subscriber input.subject_type input.subject_id) s.subscriptions)
          subscription_exists tt _ _ _
          (add_cycle-IsConsistent _ _ _ (new-ExceptFor s h _ refl)
            (get-append_new subscription_id _ s.subscriptions
              (h.new_subscriptions s.next_id (omega arith)))
            refl))

  next-IsConsistent :
      (r : MembershipSubscription) (s : MembershipStore)
      → IsConsistent s
      → get subscription_id r.id s.subscriptions ≡ some r
      → Ensures (λ _ s'. IsConsistent s') (prepare_next ctx level input r s)
  unfolding prepare_next
  next-IsConsistent r s h at_r =
      Ensures-guard (is_stale input.expected_version r.version) subscription_version_conflict _ _ s
        (Ensures-passed (has_current r.status) cycle_overlap _ _ s λ e.
          Ensures-guard (not level.renewal_allowed) renewal_not_allowed _ _ s (
            add_cycle-IsConsistent (renewed_row ctx level input r) r s
              (settled-ExceptFor s h r at_r (λ p. ground (arith, e, p))) at_r refl))

  unless-IsConsistent :
      (r : MembershipSubscription) (o : Option MembershipCycle) (s : MembershipStore)
      → IsConsistent s
      → get subscription_id r.id s.subscriptions ≡ some r
      → Ensures (λ _ s'. IsConsistent s') (prepare_unless ctx level input r o s)
  unless-IsConsistent r (some c) s h at_r =
      Ensures-bind
        (Ensures-if (differs c input) (raise idempotency_conflict) (pure c)
          (λ _ s'. IsConsistent s') s (λ _. Ensures-err _ _ idempotency_conflict refl)
          (λ _. Ensures-ok _ _ _ s refl h))
        (λ a s' h'. Ensures-ok _ _ _ s' refl h')
  unless-IsConsistent r none s h at_r =
      Ensures-bind (next-IsConsistent r s h at_r) (λ a s' h'. Ensures-ok _ _ _ s' refl h')

  for-IsConsistent :
      (o : Option MembershipSubscription) (s : MembershipStore)
      → IsConsistent s
      → first (is_subscriber input.subject_type input.subject_id) s.subscriptions ≡ o
      → Ensures (λ _ s'. IsConsistent s') (prepare_for ctx level input o s)
  for-IsConsistent none s h e =
      Ensures-bind (first-IsConsistent s h) (λ a s' h'. Ensures-ok _ _ _ s' refl h')
  for-IsConsistent (some r) s h e =
      unless-IsConsistent r (first (is_keyed_cycle r.id input.idempotency_key) s.cycles) s h
        (first-get subscription_id _ s.subscriptions r h.distinct e)

pub prepare-IsConsistent :
    (ctx : MembershipContext) (input : PrepareInput) (s : MembershipStore)
    → IsConsistent s
    → Ensures (λ _ s'. IsConsistent s') (prepare_cycle ctx input s)
unfolding prepare_cycle require_level
prepare-IsConsistent ctx input s h =
    Ensures-found
      (level_of (first (has_level_key input.level_key) ctx.levels)
        (first (has_level_key input.level_key) s.level_rows))
      unknown_level _ _ s
      λ level _. Ensures-guard (not level.is_open) level_inactive _ _ s (
        for-IsConsistent ctx level input
          (first (is_subscriber input.subject_type input.subject_id) s.subscriptions) s h refl)
