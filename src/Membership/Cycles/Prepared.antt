-- ===== src/Membership/Cycles/Prepared.antt =====
-- `PrepareSubscriptionCycle` leaves settled cycles as they are, and every subscription in the table.
use aiya_cms.Prelude.{
  refl, Bool-cases, inl, inr, true, false, not, Option, none, some, [], ◌∷◌, ◌++◌, first, any,
  is_some,
}
use aiya_cms.Prelude.Result.{Ensures-ok, Ensures-err, Ensures-found, Ensures-passed}
use aiya_cms.Prelude.Table.{get-append_some}
use aiya_cms.Membership.Model.{
  MembershipSubscription, MembershipCycle, MembershipContext, MembershipLevelSpec, PrepareInput,
  subscription_id, cycle_id, idempotency_conflict, subscription_exists,
  subscription_version_conflict, unknown_level, level_inactive, cycle_overlap, renewal_not_allowed,
  has_current,
}
use aiya_cms.Membership.Commands.Prepare.{
  insert_subscription, insert_cycle, fresh_id, is_keyed_cycle, is_subscriber, add_cycle,
  prepare_first, prepare_next, prepare_unless, prepare_for, prepare_cycle, require_level, differs,
  is_stale, has_level_key, level_of,
}
use aiya_cms.Membership.Cycles.Lasting.{
  Lasting-same, Lasts, Lasts-bind, Lasts-pure, Lasts-gets, Lasts-raise, Lasts-if, Lasts-guard,
  emit-Lasts, put_subscription-Lasts,
}

insert_subscription-Lasts : (x : MembershipSubscription) → Lasts (insert_subscription x)
unfolding insert_subscription
insert_subscription-Lasts x s =
    elim (Bool-cases (any (is_subscriber x.subject_type x.subject_id) s.subscriptions)) [
      | inl e ↦ Ensures-err _ _ subscription_exists (rw (e, insert_subscription) refl)
      | inr e ↦
          Ensures-ok _ _ tt (record s { subscriptions = s.subscriptions ++ x ∷ [] })
            (rw (e, insert_subscription) refl)
            record {
              settled = λ i c g n. g;
              there = λ i r g. (r, get-append_some subscription_id i s.subscriptions (x ∷ []) r g);
            }
    ]

insert_cycle-Lasts : (x : MembershipCycle) → Lasts (insert_cycle x)
unfolding insert_cycle
insert_cycle-Lasts x s =
    elim (Bool-cases (any (is_keyed_cycle x.subscription_id x.idempotency_key) s.cycles)) [
      | inl e ↦ Ensures-err _ _ idempotency_conflict (rw (e, insert_cycle) refl)
      | inr e ↦
          Ensures-ok _ _ tt (record s { cycles = s.cycles ++ x ∷ [] }) (rw (e, insert_cycle) refl)
            record {
              settled = λ i c g n. get-append_some cycle_id i s.cycles (x ∷ []) c g;
              there = λ i r g. (r, g);
            }
    ]

fresh_id-Lasts : Lasts fresh_id
fresh_id-Lasts s = Ensures-ok _ _ s.next_id _ refl (Lasting-same s _ refl refl)

module _ (ctx : MembershipContext) (level : MembershipLevelSpec) (input : PrepareInput) where
  add_cycle-Lasts : (r : MembershipSubscription) → Lasts (add_cycle ctx level input r)
  unfolding add_cycle
  add_cycle-Lasts r = Lasts-bind _ _ fresh_id-Lasts λ id. Lasts-bind _ _ (insert_cycle-Lasts _) λ _.
      Lasts-bind _ _ (put_subscription-Lasts _)
        λ _. Lasts-bind _ _ (emit-Lasts _ _ _) λ _. Lasts-pure _

  prepare_first-Lasts : Lasts (prepare_first ctx level input)
  unfolding prepare_first
  prepare_first-Lasts =
      Lasts-guard (is_some input.expected_version) subscription_version_conflict _ (
        Lasts-bind _ _ fresh_id-Lasts
          λ id. Lasts-bind _ _ (insert_subscription-Lasts _) λ _. add_cycle-Lasts _)

  prepare_next-Lasts : (r : MembershipSubscription) → Lasts (prepare_next ctx level input r)
  unfolding prepare_next
  prepare_next-Lasts r =
      Lasts-guard (is_stale input.expected_version r.version) subscription_version_conflict _ (
        Lasts-guard (has_current r.status) cycle_overlap _
          (Lasts-guard (not level.renewal_allowed) renewal_not_allowed _ (add_cycle-Lasts _)))

  prepare_unless-Lasts :
      (r : MembershipSubscription) (o : Option MembershipCycle)
      → Lasts (prepare_unless ctx level input r o)
  prepare_unless-Lasts r (some c) =
      Lasts-bind _ _
        (Lasts-if (differs c input) _ _ (Lasts-raise idempotency_conflict) (Lasts-pure c))
        λ d. Lasts-pure (d, false)
  prepare_unless-Lasts r none = Lasts-bind _ _ (prepare_next-Lasts r) λ d. Lasts-pure (d, true)

  prepare_for-Lasts : (o : Option MembershipSubscription) → Lasts (prepare_for ctx level input o)
  prepare_for-Lasts none = Lasts-bind _ _ prepare_first-Lasts λ c. Lasts-pure (c, true)
  prepare_for-Lasts (some r) =
      Lasts-bind _ _ (Lasts-gets (λ s. first (is_keyed_cycle r.id input.idempotency_key) s.cycles))
        λ o. prepare_unless-Lasts r o

pub prepare_cycle-Lasts :
    (ctx : MembershipContext) (input : PrepareInput) → Lasts (prepare_cycle ctx input)
unfolding prepare_cycle require_level
prepare_cycle-Lasts ctx input s =
    Ensures-found
      (level_of (first (has_level_key input.level_key) ctx.levels)
        (first (has_level_key input.level_key) s.level_rows))
      unknown_level _ _ s
      λ level _. Ensures-passed (not level.is_open) level_inactive _ _ s λ _.
        prepare_for-Lasts ctx level input
          (first (is_subscriber input.subject_type input.subject_id) s.subscriptions) s
