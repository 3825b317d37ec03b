-- ===== src/Membership/Cycles/History.antt =====
-- Every sequence of commands keeps the invariant, from the empty tables on.
use aiya_cms.Prelude.{ℕ, ◌≡◌, refl, Bool, true, false, some, List, [], ◌∷◌, is_some, ◌||◌}
use aiya_cms.Prelude.Result.{Result, ok, err, Ensures, Ensures-ok, Ensures-bind}
use aiya_cms.Prelude.Table.{get}
use aiya_cms.Membership.Model.{
  MembershipError, MembershipSubscription, MembershipCycle, MembershipStore, MembershipContext,
  MembershipLevelSpec, Membership, activated, subscription_id, cycle_id, is_active, is_cancelled,
}
use aiya_cms.Membership.Service.{
  MembershipCall, prepare_call, attach_call, fail_call, cancel_call, terminate_call, expire_call,
  handle, in_unit_of_work, serve,
}
use aiya_cms.Membership.Cycles.{IsConsistent}
use aiya_cms.Membership.Cycles.Preparing.{prepare-IsConsistent}
use aiya_cms.Membership.Cycles.Outcome.{attach-IsConsistent, fail-IsConsistent}
use aiya_cms.Membership.Cycles.Stopping.{
  entitled-Fits, cancel-IsConsistent, terminate-IsConsistent, expire-IsConsistent,
}

-- Before the first call: no subscriptions and no cycles.
abbrev pub no_subscriptions : List MembershipLevelSpec → MembershipStore
no_subscriptions levels = record {
  level_rows = levels;
  subscriptions = [];
  cycles = [];
  outbox = [];
  next_id = 0;
}

pub no_subscriptions-IsConsistent :
    (levels : List MembershipLevelSpec) → IsConsistent (no_subscriptions levels)
unfolding get
no_subscriptions-IsConsistent levels = record {
  distinct = tt;
  new_subscriptions = λ i l. refl;
  new_cycles = λ i l. refl;
  current = λ i r h. cc h;
  awaited = λ i c h p. cc h;
}

handle-IsConsistent :
    (ctx : MembershipContext) (call : MembershipCall) (s : MembershipStore)
    → IsConsistent s
    → Ensures (λ _ s'. IsConsistent s') (handle ctx call s)
unfolding handle
handle-IsConsistent ctx (prepare_call input) s h =
    Ensures-bind (prepare-IsConsistent ctx input s h) (λ a s' h'. Ensures-ok _ _ _ s' refl h')
handle-IsConsistent ctx (attach_call cycle entry key) s h =
    Ensures-bind (attach-IsConsistent s h cycle entry key) (λ a s' h'. Ensures-ok _ _ _ s' refl h')
handle-IsConsistent ctx (fail_call cycle code) s h =
    Ensures-bind (fail-IsConsistent s h cycle code) (λ a s' h'. Ensures-ok _ _ _ s' refl h')
handle-IsConsistent ctx (cancel_call id) s h = cancel-IsConsistent ctx id s h
handle-IsConsistent ctx (terminate_call id) s h = terminate-IsConsistent ctx id s h
handle-IsConsistent ctx expire_call s h = expire-IsConsistent ctx s h

unit_of_work-IsConsistent :
    (m : Membership Bool) (s : MembershipStore)
    → IsConsistent s
    → Ensures (λ _ s'. IsConsistent s') (m s)
    → IsConsistent (in_unit_of_work m s)
unfolding in_unit_of_work
unit_of_work-IsConsistent m s h k = by_result (m s) refl
  where
    by_result :
        (r : Result MembershipError (Bool × MembershipStore))
        → m s ≡ r
        → IsConsistent (in_unit_of_work m s)
    by_result (ok (true, s')) e = rw (e, in_unit_of_work) (k.holds true s' e)
    by_result (ok (false, s')) e = rw (e, in_unit_of_work) h
    by_result (err x) e = rw (e, in_unit_of_work) h

-- Whatever calls are served, a consistent store stays consistent: a subscription's current cycle
-- exists, is its own and fits its status (prepared while it awaits activation, activated with a
-- points entry once it is active, cancelled, expired or terminated, failed when it failed), and
-- every prepared cycle has its own subscription awaiting it.
pub serve-IsConsistent :
    (calls : List (MembershipContext × MembershipCall)) (s : MembershipStore)
    → IsConsistent s
    → IsConsistent (serve calls s)
unfolding serve
serve-IsConsistent [] s h = h
serve-IsConsistent ((ctx, call) ∷ rest) s h =
    serve-IsConsistent rest (in_unit_of_work (handle ctx call) s)
      (unit_of_work-IsConsistent (handle ctx call) s h (handle-IsConsistent ctx call s h))

-- The current cycle of a subscription is there, is its own, is activated and carries a points entry.
abbrev pub IsGranted : MembershipStore → MembershipSubscription → Type 0
IsGranted s r =
    (c : MembershipCycle) × (r.cycle_id ≡ some c.id)
    × (get cycle_id c.id s.cycles ≡ some c)
    × (c.subscription_id ≡ r.id)
    × (c.state ≡ activated)
    × (is_some c.points_entry_ref ≡ true)

-- After any calls on empty tables, the current cycle of a subscription that is active or cancelled
-- is in the tables, is its own, is activated and carries a points entry: no entitlement without
-- its points.
pub entitled-IsGranted :
    (levels : List MembershipLevelSpec) (calls : List (MembershipContext × MembershipCall)) (i : ℕ)
    (r : MembershipSubscription)
    → get subscription_id i (serve calls (no_subscriptions levels)).subscriptions ≡ some r
    → (is_active r.status || is_cancelled r.status) ≡ true
    → IsGranted (serve calls (no_subscriptions levels)) r
entitled-IsGranted levels calls i r g e =
    let (c, id, found, own, fit) =
      (serve-IsConsistent calls (no_subscriptions levels)
          (no_subscriptions-IsConsistent levels)).current
        i r g in
    let (p, q) = entitled-Fits r.status c e fit in (c, id, found, own, p, q)
