-- ===== src/Membership/Cycles/Lasting.antt =====
-- What no membership command undoes: a cycle that is settled stays as it is, and a subscription
-- stays in the table.
use aiya_cms.Prelude.{
  ℕ, ◌≡◌, ◌≢◌, ◌∙◌, refl, sym, ap, Bool, true, false, Option, none, some, List, ℕ_discrete,
  if◌then◌else◌,
}
use aiya_cms.Prelude.Result.{
  pure, raise, gets, raise_if, or_raise, Ensures, Ensures-ok, Ensures-err, Ensures-bind,
  Ensures-map, ◌>>=◌,
}
use aiya_cms.Prelude.Table.{get, put, get-put_self, get-put_ne}
use aiya_cms.Membership.Model.{
  MembershipError, Membership, MembershipSubscription, MembershipCycle, MembershipStore, EventKey,
  CycleState, prepared, subscription_id, cycle_id, emit,
}
use aiya_cms.Membership.Commands.Prepare.{put_subscription}
use aiya_cms.Membership.Commands.Settle.{put_cycle}

pub record Lasting (s s' : MembershipStore) : Type 0 where
  pub settled :
      (i : ℕ) (c : MembershipCycle)
      → get cycle_id i s.cycles ≡ some c
      → c.state ≢ prepared
      → get cycle_id i s'.cycles ≡ some c
  pub there :
      (i : ℕ) (r : MembershipSubscription)
      → get subscription_id i s.subscriptions ≡ some r
      → (q : MembershipSubscription) × (get subscription_id i s'.subscriptions ≡ some q)

pub Lasting-same :
    (s s' : MembershipStore)
    → s'.cycles ≡ s.cycles
    → s'.subscriptions ≡ s.subscriptions
    → Lasting s s'
Lasting-same s s' e f = record {
  settled = λ i c g n. ap (get cycle_id i) e ∙ g;
  there = λ i r g. (r, ap (get subscription_id i) f ∙ g);
}

pub Lasting-trans : (s s1 s2 : MembershipStore) → Lasting s s1 → Lasting s1 s2 → Lasting s s2
Lasting-trans s s1 s2 l m = record {
  settled = λ i c g n. m.settled i c (l.settled i c g n) n;
  there = λ i r g. let (q, f) = l.there i r g in m.there i q f;
}

abbrev pub Lasts : {A : Type 0} → Membership A → Type 0
Lasts {A} m = (s : MembershipStore) → Ensures {A = A} (λ _ s'. Lasting s s') (m s)

pub Lasts-bind :
    {A B : Type 0} (m : Membership A) (f : A → Membership B)
    → Lasts m
    → ((a : A) → Lasts (f a))
    → Lasts (m >>= f)
Lasts-bind m f p k s =
    Ensures-bind (p s) (λ a s1 h. Ensures-map _ _ _ (λ b s2 g. Lasting-trans s s1 s2 h g) (k a s1))

pub Lasts-pure : {A : Type 0} (a : A) → Lasts (pure a)
Lasts-pure a s = Ensures-ok _ _ a s refl (Lasting-same s s refl refl)

pub Lasts-gets : {A : Type 0} (f : MembershipStore → A) → Lasts (gets f)
Lasts-gets f s = Ensures-ok _ _ (f s) s refl (Lasting-same s s refl refl)

pub Lasts-raise : {A : Type 0} (x : MembershipError) → Lasts {A = A} (raise x)
Lasts-raise x s = Ensures-err _ _ x refl

pub Lasts-found : {A : Type 0} (o : Option A) (x : MembershipError) → Lasts (or_raise o x)
Lasts-found none x = Lasts-raise x
Lasts-found (some a) x = Lasts-pure a

pub Lasts-if :
    {A : Type 0} (c : Bool) (m n : Membership A) → Lasts m → Lasts n → Lasts (if c then m else n)
Lasts-if true m n p q = p
Lasts-if false m n p q = q

pub Lasts-guard :
    {B : Type 0} (c : Bool) (x : MembershipError) (f : Unit {0} → Membership B)
    → Lasts (f tt)
    → Lasts (raise_if c x >>= f)
Lasts-guard true x f p s = Ensures-err _ _ x refl
Lasts-guard false x f p s = p s

pub emit-Lasts : (e : EventKey) (i : ℕ) (c : Option ℕ) → Lasts (emit e i c)
unfolding emit
emit-Lasts e i c s = Ensures-ok _ _ tt _ refl (Lasting-same s _ refl refl)

put_there :
    (i : ℕ) (x r : MembershipSubscription) (t : List MembershipSubscription)
    → get subscription_id i t ≡ some r
    → (q : MembershipSubscription) × (get subscription_id i (put subscription_id x t) ≡ some q)
put_there i x r t g = elim (ℕ_discrete x.id i) [
  | yes p ↦ (
    x,
    ap (λ j. get subscription_id j (put subscription_id x t)) (sym p)
        ∙ get-put_self subscription_id x r t (ap (λ j. get subscription_id j t) p ∙ g),
  )
  | no ne ↦ (r, get-put_ne subscription_id i x t ne ∙ g)
]

pub put_subscription-Lasts : (x : MembershipSubscription) → Lasts (put_subscription x)
unfolding put_subscription
put_subscription-Lasts x s =
    Ensures-ok _ _ tt _ refl
      record { settled = λ i c g n. g; there = λ i r g. put_there i x r s.subscriptions g }

-- Only a prepared cycle is written again.
pub put_cycle-Lasting :
    (x c : MembershipCycle) (s : MembershipStore)
    → get cycle_id x.id s.cycles ≡ some c
    → c.state ≡ prepared
    → Ensures (λ _ s'. Lasting s s') (put_cycle x s)
unfolding put_cycle
put_cycle-Lasting x c s at_c p = Ensures-ok _ _ tt _ refl record {
  settled = λ i d g n. elim (ℕ_discrete x.id i) [
    | yes e ↦ absurd (n (same i d e g))
    | no ne ↦ get-put_ne cycle_id i x s.cycles ne ∙ g
  ];
  there = λ i r g. (r, g);
}
  where
    state_of : Option MembershipCycle → CycleState
    state_of none = prepared
    state_of (some y) = y.state

    same :
        (i : ℕ) (d : MembershipCycle)
        → x.id ≡ i
        → get cycle_id i s.cycles ≡ some d
        → d.state ≡ prepared
    same i d e g =
        let one : ◌≡◌ {A = Option MembershipCycle} (some d) (some c) =
          sym g ∙ ap (λ j. get cycle_id j s.cycles) (sym e) ∙ at_c in
        ap (λ (o : Option MembershipCycle). state_of o) one ∙ p
