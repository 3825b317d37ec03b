-- ===== src/Membership/Cycles/Rows.antt =====
-- A subscription that changes its status, and a prepared cycle that is settled, under the invariant.
use aiya_cms.Prelude.{ℕ, ◌≡◌, ◌≢◌, ◌∙◌, sym, ap, subst, Option, some, List, ℕ_discrete}
use aiya_cms.Prelude.Table.{get, put, get-put_self, get-put_ne, get-put-none}
use aiya_cms.Prelude.Distinct.{Distinct-put}
use aiya_cms.Membership.Model.{
  MembershipSubscription, MembershipCycle, MembershipStore, pending_activation, subscription_id,
}
use aiya_cms.Membership.Cycles.{Fits, Current, IsConsistent}

pub some-injective : {A : Type 0} {x y : A} → ◌≡◌ {A = Option A} (some x) (some y) → x ≡ y
some-injective p = cc p

-- The row that is found under an id after a row was put.
pub put_found :
    {A : Type 0} (key : A → ℕ) (i : ℕ) (r old q : A) (t : List A)
    → get key (key r) t ≡ some old
    → key r ≡ i
    → get key i (put key r t) ≡ some q
    → r ≡ q
put_found key i r old q t h e g =
    some-injective (sym (get-put_self key r old t h) ∙ ap (λ j. get key j (put key r t)) e ∙ g)

module _ (s : MembershipStore) (h : IsConsistent s) where
  -- The status of a row changes, and its cycle fits as before.
  pub status-IsConsistent :
      (r r' : MembershipSubscription)
      → get subscription_id r.id s.subscriptions ≡ some r
      → r'.id ≡ r.id
      → r'.cycle_id ≡ r.cycle_id
      → ((c : MembershipCycle) → Fits r.status c → Fits r'.status c)
      → r.status ≢ pending_activation
      → IsConsistent (record s { subscriptions = put subscription_id r' s.subscriptions })
  status-IsConsistent r r' g e ec fits settled =
      let old = ap (λ j. get subscription_id j s.subscriptions) e ∙ g in
      record {
        distinct = Distinct-put subscription_id r' s.subscriptions h.distinct;
        new_subscriptions =
            λ i l. get-put-none subscription_id i r' s.subscriptions (h.new_subscriptions i l);
        new_cycles = h.new_cycles;
        current = λ i q f. elim (ℕ_discrete r'.id i) [
          | yes p ↦
              let (c, id, found, own, fit) = h.current r.id r g in
              subst (Current s.cycles) (put_found subscription_id i r' r q s.subscriptions old p f)
                (c, ec ∙ id, found, own ∙ sym e, fits c fit)
          | no ne ↦ h.current i q (sym (get-put_ne subscription_id i r' s.subscriptions ne) ∙ f)
        ];
        awaited = λ i c f p.
            let (q, found, id, wait) = h.awaited i c f p in
            elim (ℕ_discrete r'.id c.subscription_id) [
              | yes p ↦ absurd (
                  settled (
                    ap (λ (x : MembershipSubscription). x.status)
                      (some-injective (
                        sym g
                        ∙ ap (λ j. get subscription_id j s.subscriptions) (sym e ∙ p)
                        ∙ found))
                    ∙ wait))
              | no ne ↦ (
                q,
                get-put_ne subscription_id c.subscription_id r' s.subscriptions ne ∙ found,
                id,
                wait,
              )
            ];
      }
