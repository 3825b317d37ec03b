-- ===== src/Membership/Cycles/Adding.antt =====
-- A new subscription and a new cycle under the invariant.
use aiya_cms.Prelude.{
  ◌⊎◌, inl, inr, ℕ, ◌+◌, ◌≡◌, ◌≢◌, ◌∙◌, refl, sym, ap, subst, Option, none, some, List, [], ◌∷◌,
  ◌++◌, arith, ℕ_discrete,
}
use aiya_cms.Prelude.Table.{
  get, put, get-put_self, get-put_ne, get-put-none, get-append_some, get-append_last,
  get-append_new, get-append_ne,
}
use aiya_cms.Prelude.Distinct.{Distinct-put, Distinct-append}
use aiya_cms.Membership.Model.{
  pending_activation, MembershipSubscription, MembershipCycle, MembershipStore, MembershipEvent,
  subscription_id, cycle_id,
}
use aiya_cms.Membership.Cycles.{Fits, Current, Awaited, IsConsistent, ExceptFor}
use aiya_cms.Membership.Cycles.Rows.{some-injective, put_found}

-- A row that appears in a table under the id of the new row is the new row; any other was there.
appended :
    {A : Type 0} (key : A → ℕ) (i : ℕ) (t : List A) (x d : A)
    → get key (key x) t ≡ none
    → get key i (t ++ x ∷ []) ≡ some d
    → ((key x ≡ i) × (x ≡ d)) ⊎ ((key x ≢ i) × (get key i t ≡ some d))
appended {A = A} key i t x d h g = by_key (ℕ_discrete (key x) i)
  where
    by_key : Dec (key x ≡ i) → ((key x ≡ i) × (x ≡ d)) ⊎ ((key x ≢ i) × (get key i t ≡ some d))
    by_key (yes p) = inl (p, (get-append_last key i t x d (ap (λ j. get key j t) (sym p) ∙ h) g).0)
    by_key (no ne) = inr (ne, by_old (get key i t) refl)
      where
        by_old : (o : Option A) → get key i t ≡ o → get key i t ≡ some d
        by_old none e = cc (get-append_ne key i t x e ne, g)
        by_old (some y) e = e ∙ sym (get-append_some key i t (x ∷ []) y e) ∙ g

-- A new cycle becomes the current one of a subscription that was without.
module _ (s : MembershipStore) (r r' : MembershipSubscription) (c : MembershipCycle)
    (old : MembershipSubscription) (x : ExceptFor r.id s)
    (at_r : get subscription_id r.id s.subscriptions ≡ some old) (new_id : c.id ≡ s.next_id)
    (owner : c.subscription_id ≡ r.id) (same_r : r'.id ≡ r.id) (of_c : r'.cycle_id ≡ some c.id)
    (pending : r'.status ≡ pending_activation) (fit : Fits r'.status c) where
  new_cycle : get cycle_id c.id s.cycles ≡ none
  new_cycle = x.new_cycles c.id (omega (arith, new_id))

  at_r' : get subscription_id r'.id s.subscriptions ≡ some old
  at_r' = ap (λ j. get subscription_id j s.subscriptions) same_r ∙ at_r

  pub added-IsConsistent :
      (o : List MembershipEvent)
      → IsConsistent (record s {
        next_id = s.next_id + 1;
        cycles = s.cycles ++ c ∷ [];
        subscriptions = put subscription_id r' s.subscriptions;
        outbox = o;
      })
  added-IsConsistent o = record {
    distinct = Distinct-put subscription_id r' s.subscriptions x.distinct;
    new_subscriptions = λ i l.
        get-put-none subscription_id i r' s.subscriptions
          (x.new_subscriptions i (omega (arith, l)));
    new_cycles = λ i l.
        get-append_ne cycle_id i s.cycles c (x.new_cycles i (omega (arith, l)))
          (λ p. omega (arith, l, p, new_id));
    current = λ i q f. elim (ℕ_discrete r'.id i) [
      | yes p ↦
          subst (Current (s.cycles ++ c ∷ []))
            (put_found subscription_id i r' old q s.subscriptions at_r' p f)
            (c, of_c, get-append_new cycle_id c s.cycles new_cycle, owner ∙ sym same_r, fit)
      | no ne ↦
          let (d, id, found, own, fit_d) =
            x.current i q (λ p. ne (same_r ∙ p))
              (sym (get-put_ne subscription_id i r' s.subscriptions ne) ∙ f) in
          (d, id, get-append_some cycle_id d.id s.cycles (c ∷ []) d found, own, fit_d)
    ];
    awaited = λ i d f wait. elim (appended cycle_id i s.cycles c d new_cycle f) [
      | inl (p, e) ↦ subst (Awaited (put subscription_id r' s.subscriptions)) e (
        r',
        ap (λ j. get subscription_id j (put subscription_id r' s.subscriptions))
              (owner ∙ sym same_r)
            ∙ get-put_self subscription_id r' old s.subscriptions at_r',
        of_c,
        pending,
      )
      | inr (ne, g) ↦
          let (away, (q, found, id, pend)) = x.awaited i d g wait in
          (
            q,
            get-put_ne subscription_id d.subscription_id r' s.subscriptions
                  (λ p. away (sym same_r ∙ p))
                ∙ found,
            id,
            pend,
          )
    ];
  }

-- A subscription whose row is about to get a new current cycle.
module _ (s : MembershipStore) (h : IsConsistent s) where
  pub settled-ExceptFor :
      (r : MembershipSubscription)
      → get subscription_id r.id s.subscriptions ≡ some r
      → r.status ≢ pending_activation
      → ExceptFor r.id s
  settled-ExceptFor r at_r settled = record {
    distinct = h.distinct;
    new_subscriptions = h.new_subscriptions;
    new_cycles = h.new_cycles;
    current = λ i q ne f. h.current i q f;
    awaited = λ i d g wait.
        let (q, found, id, pend) = h.awaited i d g wait in
        (
          (λ p. settled (
              ap (λ (y : MembershipSubscription). y.status)
                (some-injective
                  (sym at_r ∙ ap (λ j. get subscription_id j s.subscriptions) p ∙ found))
              ∙ pend)),
          (q, found, id, pend),
        );
  }

  pub new-ExceptFor :
      (r : MembershipSubscription)
      → r.id ≡ s.next_id
      → ExceptFor r.id
          (record s { next_id = s.next_id + 1; subscriptions = s.subscriptions ++ r ∷ [] })
  new-ExceptFor r e =
      let fresh = h.new_subscriptions r.id (omega (arith, e)) in
      record {
        distinct = Distinct-append subscription_id s.subscriptions r fresh h.distinct;
        new_subscriptions = λ i l.
            get-append_ne subscription_id i s.subscriptions r
              (h.new_subscriptions i (omega (arith, l))) (λ p. omega (arith, l, p, e));
        new_cycles = λ i l. h.new_cycles i (omega (arith, l));
        current = λ i q ne f. elim (appended subscription_id i s.subscriptions r q fresh f) [
          | inl (p, _) ↦ absurd (ne p)
          | inr (_, g) ↦ h.current i q g
        ];
        awaited = λ i d g wait.
            let (q, found, id, pend) = h.awaited i d g wait in
            (
              (λ p. cc (ap (λ j. get subscription_id j s.subscriptions) p, fresh, found)),
              (
                q,
                get-append_some subscription_id d.subscription_id s.subscriptions (r ∷ []) q found,
                id,
                pend,
              ),
            );
      }
