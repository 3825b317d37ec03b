-- ===== src/Membership/Cycles/Lasted.antt =====
-- Every membership command leaves settled cycles as they are, and every subscription in the table.
use aiya_cms.Prelude.{
  ℕ, ◌≡◌, ◌∙◌, refl, sym, ap, subst, String, Bool, true, false, not, ◌||◌, Option, none, some, List,
  [], ◌∷◌, select, ◌==◌, str_eq, eq_option,
}
use aiya_cms.Prelude.Result.{
  Result, ok, err, Ensures, Ensures-err, Ensures-bind, Ensures-map, Ensures-passed,
}
use aiya_cms.Prelude.Table.{get, key-get}
use aiya_cms.Membership.Model.{
  MembershipError, Membership, MembershipSubscription, MembershipCycle, MembershipStore,
  MembershipContext, CycleState, prepared, activated, failed_cycle, subscription_id, cycle_id,
  cycle_not_found, subscription_not_found, points_grant_already_attached, cycle_not_prepared,
  subscription_cycle_mismatch, cycle_failure_already_recorded, is_pending, is_cancelled, is_active,
  is_terminated, not_active, forbidden,
}
use aiya_cms.Membership.Commands.Settle.{
  get_cycle, get_subscription, attached, is_current, activate, attach_points_grant, failed_row,
  fail_subscription, fail_cycle, mark_cycle_failed,
}
use aiya_cms.Membership.Commands.Stop.{
  cancel_active, cancel_subscription, terminate_current, terminate_subscription, has_ended,
  expire_rows, expire_subscriptions,
}
use aiya_cms.Membership.Service.{
  MembershipCall, prepare_call, attach_call, fail_call, cancel_call, terminate_call, expire_call,
  committed, handle, in_unit_of_work, serve,
}
use aiya_cms.Membership.Cycles.Outcome.{attach_rows, fail_rows}
use aiya_cms.Membership.Cycles.Lasting.{
  Lasting, Lasting-same, Lasting-trans, Lasts, Lasts-bind, Lasts-pure, Lasts-gets, Lasts-raise,
  Lasts-found, Lasts-if, Lasts-guard, emit-Lasts, put_subscription-Lasts, put_cycle-Lasting,
}
use aiya_cms.Membership.Cycles.Prepared.{prepare_cycle-Lasts}

-- A call on a cycle that was found under its id.
module _ (s : MembershipStore) (c : MembershipCycle) (at_c : get cycle_id c.id s.cycles ≡ some c)
    (p : c.state ≡ prepared) where
  activate-Lasting :
      (r : MembershipSubscription) (entry : ℕ) (key : String)
      → Ensures (λ _ s'. Lasting s s') (activate c r entry key s)
  unfolding activate
  activate-Lasting r entry key =
      Ensures-passed (not (is_current c r) || not (is_pending r.status)) subscription_cycle_mismatch
        _ _ s
        λ _. Ensures-bind (put_cycle-Lasting (attached entry key c) c s at_c p) λ _ s1 l.
          Ensures-map _ _ _ (λ _ s2 m. Lasting-trans s s1 s2 l m)
            ((Lasts-bind _ _ (put_subscription-Lasts _)
                λ _. Lasts-bind _ _ (emit-Lasts _ _ _) λ _. Lasts-pure (attached entry key c, true))
              s1)

  fail_cycle-Lasting :
      (r : MembershipSubscription) (code : String)
      → Ensures (λ _ s'. Lasting s s') (fail_cycle c r code s)
  unfolding fail_cycle fail_subscription
  fail_cycle-Lasting r code =
      Ensures-bind (put_cycle-Lasting (failed_row code c) c s at_c p) λ _ s1 l.
        Ensures-map _ _ _ (λ _ s2 m. Lasting-trans s s1 s2 l m)
          ((Lasts-bind _ _
              (Lasts-if (is_current c r) _ _ (put_subscription-Lasts _) (Lasts-pure tt))
              λ _. Lasts-bind _ _ (emit-Lasts _ _ _) λ _. Lasts-pure (failed_row code c, true))
            s1)

own_cycle :
    (id : ℕ) (c : MembershipCycle) (s : MembershipStore)
    → get cycle_id id s.cycles ≡ some c
    → get cycle_id c.id s.cycles ≡ some c
own_cycle id c s g = ap (λ j. get cycle_id j s.cycles) (key-get cycle_id id s.cycles c g) ∙ g

attach-Lasts : (id entry : ℕ) (key : String) → Lasts (attach_points_grant id entry key)
unfolding attach_points_grant get_cycle get_subscription
attach-Lasts id entry key s = by_cycle (get cycle_id id s.cycles) refl
  where
    by_state :
        (c : MembershipCycle) (r : MembershipSubscription) (v : CycleState)
        → get cycle_id id s.cycles ≡ some c
        → get subscription_id c.subscription_id s.subscriptions ≡ some r
        → c.state ≡ v
        → Ensures (λ _ s'. Lasting s s') (attach_points_grant id entry key s)
    by_state c r prepared g h p =
        subst (λ x. Ensures (λ _ s'. Lasting s s') x) (sym (attach_rows s c r id entry key g h p))
          (activate-Lasting s c (own_cycle id c s g) p r entry key)
    by_state c r activated g h p =
        rw (g, h, p)
          (Lasts-if (eq_option ◌==◌ c.points_entry_ref (some entry)) _ _ (Lasts-pure (c, false))
            (Lasts-raise points_grant_already_attached) s)
    by_state c r failed_cycle g h p = rw (g, h, p) (Lasts-raise cycle_not_prepared s)

    by_row :
        (c : MembershipCycle) (o : Option MembershipSubscription)
        → get cycle_id id s.cycles ≡ some c
        → get subscription_id c.subscription_id s.subscriptions ≡ o
        → Ensures (λ _ s'. Lasting s s') (attach_points_grant id entry key s)
    by_row c none g h = rw (g, h) (Ensures-err _ _ subscription_not_found refl)
    by_row c (some r) g h = by_state c r c.state g h refl

    by_cycle :
        (o : Option MembershipCycle)
        → get cycle_id id s.cycles ≡ o
        → Ensures (λ _ s'. Lasting s s') (attach_points_grant id entry key s)
    by_cycle none g = rw g (Ensures-err _ _ cycle_not_found refl)
    by_cycle (some c) g = by_row c (get subscription_id c.subscription_id s.subscriptions) g refl

fail-Lasts : (id : ℕ) (code : String) → Lasts (mark_cycle_failed id code)
unfolding mark_cycle_failed get_cycle get_subscription
fail-Lasts id code s = by_cycle (get cycle_id id s.cycles) refl
  where
    by_state :
        (c : MembershipCycle) (r : MembershipSubscription) (v : CycleState)
        → get cycle_id id s.cycles ≡ some c
        → get subscription_id c.subscription_id s.subscriptions ≡ some r
        → c.state ≡ v
        → Ensures (λ _ s'. Lasting s s') (mark_cycle_failed id code s)
    by_state c r prepared g h p =
        subst (λ x. Ensures (λ _ s'. Lasting s s') x) (sym (fail_rows s c r id code g h p))
          (fail_cycle-Lasting s c (own_cycle id c s g) p r code)
    by_state c r failed_cycle g h p =
        rw (g, h, p)
          (Lasts-if (eq_option str_eq c.failure_code (some code)) _ _ (Lasts-pure (c, false))
            (Lasts-raise cycle_failure_already_recorded) s)
    by_state c r activated g h p = rw (g, h, p) (Lasts-raise cycle_not_prepared s)

    by_row :
        (c : MembershipCycle) (o : Option MembershipSubscription)
        → get cycle_id id s.cycles ≡ some c
        → get subscription_id c.subscription_id s.subscriptions ≡ o
        → Ensures (λ _ s'. Lasting s s') (mark_cycle_failed id code s)
    by_row c none g h = rw (g, h) (Ensures-err _ _ subscription_not_found refl)
    by_row c (some r) g h = by_state c r c.state g h refl

    by_cycle :
        (o : Option MembershipCycle)
        → get cycle_id id s.cycles ≡ o
        → Ensures (λ _ s'. Lasting s s') (mark_cycle_failed id code s)
    by_cycle none g = rw g (Ensures-err _ _ cycle_not_found refl)
    by_cycle (some c) g = by_row c (get subscription_id c.subscription_id s.subscriptions) g refl

get_subscription-Lasts : (id : ℕ) → Lasts (get_subscription id)
unfolding get_subscription
get_subscription-Lasts id =
    Lasts-bind _ _ (Lasts-gets (λ s. get subscription_id id s.subscriptions))
      λ o. Lasts-found o subscription_not_found

cancel-Lasts : (ctx : MembershipContext) (id : ℕ) → Lasts (cancel_subscription ctx id)
unfolding cancel_subscription cancel_active
cancel-Lasts ctx id = Lasts-bind _ _ (get_subscription-Lasts id) λ r.
    Lasts-if (is_cancelled r.status) _ _ (Lasts-pure false) (
      Lasts-guard (not (is_active r.status)) not_active _ (
        Lasts-bind _ _ (put_subscription-Lasts _)
          λ _. Lasts-bind _ _ (emit-Lasts _ _ _) λ _. Lasts-pure true))

terminate-Lasts : (ctx : MembershipContext) (id : ℕ) → Lasts (terminate_subscription ctx id)
unfolding terminate_subscription terminate_current
terminate-Lasts ctx id = Lasts-guard (not ctx.may_manage) forbidden _ (
    Lasts-bind _ _ (get_subscription-Lasts id) λ r.
      Lasts-if (is_terminated r.status) _ _ (Lasts-pure false) (
        Lasts-guard (not (is_active r.status || is_cancelled r.status)) not_active _ (
          Lasts-bind _ _ (put_subscription-Lasts _)
            λ _. Lasts-bind _ _ (emit-Lasts _ _ _) λ _. Lasts-pure true)))

expire_rows-Lasts :
    (ctx : MembershipContext) (rows : List MembershipSubscription) → Lasts (expire_rows ctx rows)
unfolding expire_rows
expire_rows-Lasts ctx [] = Lasts-pure tt
expire_rows-Lasts ctx (r ∷ rows) =
    Lasts-bind _ _ (put_subscription-Lasts _)
      λ _. Lasts-bind _ _ (emit-Lasts _ _ _) λ _. expire_rows-Lasts ctx rows

committed-Lasts : (m : Membership (MembershipCycle × Bool)) → Lasts m → Lasts (committed m)
committed-Lasts m l = Lasts-bind m _ l λ r. Lasts-pure r.1

handle-Lasts : (ctx : MembershipContext) (call : MembershipCall) → Lasts (handle ctx call)
unfolding handle expire_subscriptions
handle-Lasts ctx (prepare_call input) = committed-Lasts _ (prepare_cycle-Lasts ctx input)
handle-Lasts ctx (attach_call cycle entry key) = committed-Lasts _ (attach-Lasts cycle entry key)
handle-Lasts ctx (fail_call cycle code) = committed-Lasts _ (fail-Lasts cycle code)
handle-Lasts ctx (cancel_call id) = cancel-Lasts ctx id
handle-Lasts ctx (terminate_call id) = terminate-Lasts ctx id
handle-Lasts ctx expire_call =
    Lasts-bind _ _ (Lasts-gets (λ s. select (has_ended ctx.now) s.subscriptions))
      λ rows. Lasts-bind _ _ (expire_rows-Lasts ctx rows) λ _. Lasts-pure true

unit_of_work-Lasting :
    (m : Membership Bool) (s : MembershipStore) → Lasts m → Lasting s (in_unit_of_work m s)
unfolding in_unit_of_work
unit_of_work-Lasting m s l = by_result (m s) refl
  where
    by_result :
        (r : Result MembershipError (Bool × MembershipStore))
        → m s ≡ r
        → Lasting s (in_unit_of_work m s)
    by_result (ok (true, s')) e = rw (e, in_unit_of_work) ((l s).holds true s' e)
    by_result (ok (false, s')) e = rw (e, in_unit_of_work) (Lasting-same s s refl refl)
    by_result (err x) e = rw (e, in_unit_of_work) (Lasting-same s s refl refl)

-- Whatever is served, settled cycles stay as they are and subscriptions stay in the table.
pub serve-Lasting :
    (calls : List (MembershipContext × MembershipCall)) (s : MembershipStore)
    → Lasting s (serve calls s)
unfolding serve
serve-Lasting [] s = Lasting-same s s refl refl
serve-Lasting ((ctx, call) ∷ rest) s =
    let s1 = in_unit_of_work (handle ctx call) s in
    Lasting-trans s s1 (serve rest s1)
      (unit_of_work-Lasting (handle ctx call) s (handle-Lasts ctx call)) (serve-Lasting rest s1)
