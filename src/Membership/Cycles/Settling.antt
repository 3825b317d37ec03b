-- ===== src/Membership/Cycles/Settling.antt =====
-- `AttachPointsGrant` and `MarkCycleFailed` under the invariant: a prepared cycle is settled together
-- with the subscription that waits for it.
use aiya_cms.Prelude.{ℕ, ◌≡◌, ◌≢◌, ◌∙◌, sym, ap, subst, some, List, ℕ_discrete}
use aiya_cms.Prelude.Table.{get, put, get-put_self, get-put_ne, get-put-none, key-get}
use aiya_cms.Prelude.Distinct.{Distinct-put}
use aiya_cms.Membership.Model.{
  MembershipSubscription, MembershipCycle, MembershipStore, prepared, subscription_id, cycle_id,
  MembershipEvent,
}
use aiya_cms.Membership.Cycles.{Fits, Current, IsConsistent}
use aiya_cms.Membership.Cycles.Rows.{some-injective, put_found}

module _ (s : MembershipStore) (h : IsConsistent s) where
  pub outbox-IsConsistent : (o : List MembershipEvent) → IsConsistent (record s { outbox = o })
  outbox-IsConsistent o = record {
    distinct = h.distinct;
    new_subscriptions = h.new_subscriptions;
    new_cycles = h.new_cycles;
    current = h.current;
    awaited = h.awaited;
  }

  -- A cycle and the subscription whose current cycle it is change together.
  module _ (c c' : MembershipCycle) (r r' : MembershipSubscription)
      (at_c : get cycle_id c.id s.cycles ≡ some c) (same_c : c'.id ≡ c.id)
      (same_owner : c'.subscription_id ≡ c.subscription_id) (settled : c'.state ≢ prepared)
      (at_r : get subscription_id r.id s.subscriptions ≡ some r) (owner : r.id ≡ c.subscription_id)
      (of_c : r.cycle_id ≡ some c.id) (same_r : r'.id ≡ r.id)
      (same_current : r'.cycle_id ≡ r.cycle_id) (fit : Fits r'.status c') where
    at_c' : get cycle_id c'.id s.cycles ≡ some c
    at_c' = ap (λ j. get cycle_id j s.cycles) same_c ∙ at_c

    at_r' : get subscription_id r'.id s.subscriptions ≡ some r
    at_r' = ap (λ j. get subscription_id j s.subscriptions) same_r ∙ at_r

    own-Current : Current (put cycle_id c' s.cycles) r'
    own-Current = (
      c',
      same_current ∙ of_c ∙ ap some (sym same_c),
      get-put_self cycle_id c' c s.cycles at_c',
      same_owner ∙ sym owner ∙ sym same_r,
      fit,
    )

    -- Another subscription has another current cycle.
    other_cycle :
        (i : ℕ) (q : MembershipSubscription) (d : MembershipCycle)
        → r'.id ≢ i
        → get subscription_id i s.subscriptions ≡ some q
        → get cycle_id d.id s.cycles ≡ some d
        → d.subscription_id ≡ q.id
        → c'.id ≢ d.id
    other_cycle i q d ne at_q at_d own p =
        let same : c ≡ d =
          some-injective (sym at_c' ∙ ap (λ j. get cycle_id j s.cycles) p ∙ at_d) in
        ne (
          same_r
          ∙ owner
          ∙ ap (λ (x : MembershipCycle). x.subscription_id) same
          ∙ own
          ∙ key-get subscription_id i s.subscriptions q at_q)

    -- Another prepared cycle has another subscription.
    other_subscription :
        (i : ℕ) (q : MembershipSubscription) (d : MembershipCycle)
        → c'.id ≢ i
        → get cycle_id i s.cycles ≡ some d
        → get subscription_id d.subscription_id s.subscriptions ≡ some q
        → q.cycle_id ≡ some d.id
        → r'.id ≢ d.subscription_id
    other_subscription i q d ne at_d at_q id p =
        let same : r ≡ q =
          some-injective (sym at_r' ∙ ap (λ j. get subscription_id j s.subscriptions) p ∙ at_q) in
        ne (
          same_c
          ∙ some-injective (sym of_c ∙ ap (λ (x : MembershipSubscription). x.cycle_id) same ∙ id)
          ∙ key-get cycle_id i s.cycles d at_d)

    pub settled-IsConsistent : IsConsistent (record s {
      cycles = put cycle_id c' s.cycles;
      subscriptions = put subscription_id r' s.subscriptions;
    })
    settled-IsConsistent = record {
      distinct = Distinct-put subscription_id r' s.subscriptions h.distinct;
      new_subscriptions =
          λ i l. get-put-none subscription_id i r' s.subscriptions (h.new_subscriptions i l);
      new_cycles = λ i l. get-put-none cycle_id i c' s.cycles (h.new_cycles i l);
      current = λ i q f. elim (ℕ_discrete r'.id i) [
        | yes p ↦
            subst (Current (put cycle_id c' s.cycles))
              (put_found subscription_id i r' r q s.subscriptions at_r' p f) own-Current
        | no ne ↦
            let at_q = sym (get-put_ne subscription_id i r' s.subscriptions ne) ∙ f in
            let (d, id, at_d, own, fit_d) = h.current i q at_q in
            (
              d,
              id,
              get-put_ne cycle_id d.id c' s.cycles (other_cycle i q d ne at_q at_d own) ∙ at_d,
              own,
              fit_d,
            )
      ];
      awaited = λ i d f wait. elim (ℕ_discrete c'.id i) [
        | yes p ↦ absurd (
            settled (
              ap (λ (x : MembershipCycle). x.state) (put_found cycle_id i c' c d s.cycles at_c' p f)
              ∙ wait))
        | no ne ↦
            let at_d = sym (get-put_ne cycle_id i c' s.cycles ne) ∙ f in
            let (q, at_q, id, pending) = h.awaited i d at_d wait in
            (
              q,
              get-put_ne subscription_id d.subscription_id r' s.subscriptions
                    (other_subscription i q d ne at_d at_q id)
                  ∙ at_q,
              id,
              pending,
            )
      ];
    }
