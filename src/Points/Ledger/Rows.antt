-- ===== src/Points/Ledger/Rows.antt =====
-- New rows, and a rewritten table of buckets, under the invariant.
use aiya_cms.Prelude.{
  ℕ, suc, ◌+◌, ◌<◌, ◌≡◌, ◌≢◌, ◌∙◌, sym, ap, subst, refl, none, some, List, [], ◌∷◌, ◌++◌, arith,
  All, ℕ_discrete, Option-cases, inl, inr, ==_refl,
}
use aiya_cms.Prelude.Int.{ℤ, pos, ◌+ℤ◌, ◌-ℤ◌, pos_part, +ℤ_zero, zero-+ℤ, +ℤ_assoc, +ℤ_swap}
use aiya_cms.Prelude.Table.{get, get-append_some, get-append_none}
use aiya_cms.Points.Model.{
  PointsBalance, PointsBucket, PointsLedgerEntry, PointsDebitAllocation, Store,
}
use aiya_cms.Points.Buckets.{bucket_id, Allocations}
use aiya_cms.Points.Buckets.Loaded.{Keyed, Keyed-append, Keyed-mono}
use aiya_cms.Points.Buckets.Sums.{bucket_sum, RowOf, Belong, sum-append_empty}
use aiya_cms.Points.Accounts.{entry_id, allocation_rows}
use aiya_cms.Points.Ledger.{balance_at, ledger_sum, only, OwnedBy, Holds}
use aiya_cms.Points.Ledger.Steps.{only_ne, only_self, only_sum}

All-map {ℓ κ} :
    {A : Type 0} (P : A → Type ℓ) (Q : A → Type κ) (xs : List A)
    → ((x : A) → P x → Q x)
    → All P xs
    → All Q xs
All-map P Q [] f h = tt
All-map P Q (x ∷ xs) f h = (f x h.0, All-map P Q xs f h.1)

All-append {ℓ} :
    {A : Type 0} (P : A → Type ℓ) (xs ys : List A) → All P xs → All P ys → All P (xs ++ ys)
All-append P [] ys h k = k
All-append P (x ∷ xs) ys h k = (h.0, All-append P xs ys h.1 k)

-- The buckets are rewritten so that those of the account `a` hold what they should with the lag `u'`.
pub buckets-Holds :
    (a : ℕ) (o u u' : ℤ) (s : Store) (t : List PointsBucket)
    → Keyed s.next_id t
    → ((c i : ℕ) → RowOf c s.buckets i → RowOf c t i)
    → ((c : ℕ) → a ≢ c → bucket_sum c t ≡ bucket_sum c s.buckets)
    → bucket_sum a t ≡ pos_part (balance_at a s.balances -ℤ u')
    → Holds a o u s
    → Holds a o u' (record s { buckets = t })
buckets-Holds a o u u' s t d rows others self h = record {
  keyed = d;
  below = h.below;
  owned =
      All-map (OwnedBy s.next_id s.buckets s.entries) (OwnedBy s.next_id t s.entries) s.allocations
        (λ r p. (p.0, λ e q. rows e.account_id r.bucket_id (p.1 e q))) h.owned;
  matches = h.matches;
  covered = λ c. elim (ℕ_discrete a c) [
    | yes p ↦
        subst (λ x. bucket_sum x t ≡ pos_part (balance_at x s.balances -ℤ only a u' x)) p
          (rw (only_self a u') self)
    | no p ↦
        others c p
        ∙ h.covered c
        ∙ ap (λ x. pos_part (balance_at c s.balances -ℤ x))
            (only_ne a c u p ∙ sym (only_ne a c u' p))
  ];
}

RowOf-append : (c i : ℕ) (t u : List PointsBucket) → RowOf c t i → RowOf c (t ++ u) i
RowOf-append c i t u (cur, e, own) = (cur, get-append_some bucket_id i t u cur e, own)

-- A new and empty bucket.
pub new_bucket-Holds :
    (a : ℕ) (o u : ℤ) (s : Store) (b : PointsBucket)
    → b.id ≡ s.next_id
    → b.amount ≡ 0
    → Holds a o u s
    → Holds a o u (record s { buckets = s.buckets ++ b ∷ []; next_id = s.next_id + 1 })
new_bucket-Holds a o u s b e z h = record {
  keyed = Keyed-append s.next_id b s.buckets e h.keyed;
  below = All-map _ _ s.entries (λ x p. omega arith) h.below;
  owned =
      All-map (OwnedBy s.next_id s.buckets s.entries)
        (OwnedBy (s.next_id + 1) (s.buckets ++ b ∷ []) s.entries) s.allocations
        (λ r p. (
          omega (arith, p.0),
          λ x q. RowOf-append x.account_id r.bucket_id s.buckets (b ∷ []) (p.1 x q),
        ))
        h.owned;
  matches = h.matches;
  covered = λ c. sum-append_empty c b s.buckets z ∙ h.covered c;
}

balance_at-append :
    (c i v : ℕ) (t : List PointsBalance)
    → balance_at c (t ++ record { account_id = i; balance = pos 0; version = v } ∷ [])
      ≡ balance_at c t
unfolding get
balance_at-append c i v [] = ground arith
balance_at-append c i v (b ∷ t) = ground (arith, balance_at-append c i v t)

-- A new account's balance row, at 0, and its id.
pub new_balance-Holds :
    (a i v : ℕ) (o u : ℤ) (s : Store)
    → Holds a o u s
    → Holds a o u (record s {
      balances = s.balances ++ record { account_id = i; balance = pos 0; version = v } ∷ [];
    })
new_balance-Holds a i v o u s h = record {
  keyed = h.keyed;
  below = h.below;
  owned = h.owned;
  matches = λ c. balance_at-append c i v s.balances ∙ h.matches c;
  covered = λ c.
      h.covered c ∙ ap (λ x. pos_part (x -ℤ only a u c)) (sym (balance_at-append c i v s.balances));
}

pub new_id-Holds :
    (a : ℕ) (o u : ℤ) (s : Store)
    → Holds a o u s
    → Holds a o u (record s { next_id = s.next_id + 1 })
new_id-Holds a o u s h = record {
  keyed = Keyed-mono s.next_id (s.next_id + 1) s.buckets h.keyed (omega arith);
  below = All-map _ _ s.entries (λ x p. omega arith) h.below;
  owned =
      All-map (OwnedBy s.next_id s.buckets s.entries) (OwnedBy (s.next_id + 1) s.buckets s.entries)
        s.allocations (λ r p. (omega (arith, p.0), p.1)) h.owned;
  matches = h.matches;
  covered = h.covered;
}

ledger_sum-append :
    (c : ℕ) (t : List PointsLedgerEntry) (e : PointsLedgerEntry)
    → ledger_sum c (t ++ e ∷ []) ≡ ledger_sum c t +ℤ only e.account_id e.amount c
ledger_sum-append c [] e = ground (arith, +ℤ_zero (pos 0), +ℤ_zero e.amount, zero-+ℤ e.amount)
ledger_sum-append c (x ∷ t) e = ground (
  arith,
  ledger_sum-append c t e,
  +ℤ_assoc x.amount (ledger_sum c t) (only e.account_id e.amount c),
)

get-below :
    (i n : ℕ) (t : List PointsLedgerEntry)
    → All (λ (e : PointsLedgerEntry). e.id < n) t
    → n < suc i
    → get entry_id i t ≡ none
unfolding get
get-below i n [] h l = refl
get-below i n (e ∷ t) h l = ground (arith, get-below i n t h.1 l)

found_new :
    (e y : PointsLedgerEntry) (es : List PointsLedgerEntry)
    → get entry_id e.id es ≡ none
    → get entry_id e.id (es ++ e ∷ []) ≡ some y
    → y ≡ e
unfolding get
found_new e y es g q = ground (arith, get-append_none entry_id e.id es (e ∷ []) g, ==_refl e.id)

-- The allocations of the entry with the next id name buckets of its account.
new_owned :
    (n : ℕ) (e : PointsLedgerEntry) (t : List PointsBucket) (es : List PointsLedgerEntry)
    (out : Allocations)
    → e.id ≡ n
    → get entry_id n es ≡ none
    → Belong e.account_id t out
    → All (OwnedBy (n + 1) t (es ++ e ∷ [])) (allocation_rows e.id out)
new_owned n e t es [] i g b = tt
new_owned n e t es ((x, k) ∷ out) i g b = (
  (
    omega arith,
    λ y q.
        subst (λ (z : PointsLedgerEntry). RowOf z.account_id t x.id)
          (sym (found_new e y es (rw i g) q)) b.0,
  ),
  new_owned n e t es out i g b.1,
)

not_new :
    (n : ℕ) (e y : PointsLedgerEntry) (es : List PointsLedgerEntry) (i : ℕ)
    → e.id ≡ n
    → i < n
    → get entry_id i es ≡ none
    → get entry_id i (es ++ e ∷ []) ≡ some y
    → ⊥
unfolding get
not_new n e y es i h l g q = ground (arith, get-append_none entry_id i es (e ∷ []) g)

old_owned :
    (n : ℕ) (e : PointsLedgerEntry) (t : List PointsBucket) (es : List PointsLedgerEntry)
    (r : PointsDebitAllocation)
    → e.id ≡ n
    → OwnedBy n t es r
    → OwnedBy (n + 1) t (es ++ e ∷ []) r
old_owned n e t es r i (l, f) = (
  omega arith,
  λ y q. elim (Option-cases (get entry_id r.entry_id es)) [
    | inl no_entry ↦ absurd (not_new n e y es r.entry_id i l no_entry q)
    | inr (z, g) ↦
        let same : z ≡ y = ground (arith, get-append_some entry_id r.entry_id es (e ∷ []) z g) in
        subst (λ (x : PointsLedgerEntry). RowOf x.account_id t r.bucket_id) same (f z g)
  ],
)

-- A ledger entry of the account with its allocations: the ledger catches up by its amount.
pub entry-Holds :
    (a : ℕ) (o o' u : ℤ) (s : Store) (e : PointsLedgerEntry) (out : Allocations)
    → e.id ≡ s.next_id
    → e.account_id ≡ a
    → o ≡ o' +ℤ e.amount
    → Belong a s.buckets out
    → Holds a o u s
    → Holds a o' u (record s {
      next_id = s.next_id + 1;
      entries = s.entries ++ e ∷ [];
      allocations = s.allocations ++ allocation_rows e.id out;
    })
entry-Holds a o o' u s e out i own eo b h = record {
  keyed = Keyed-mono s.next_id (s.next_id + 1) s.buckets h.keyed (omega arith);
  below =
      All-append _ s.entries (e ∷ []) (All-map _ _ s.entries (λ x p. omega arith) h.below)
        (omega arith, tt);
  owned =
      All-append (OwnedBy (s.next_id + 1) s.buckets (s.entries ++ e ∷ [])) s.allocations
        (allocation_rows e.id out)
        (All-map (OwnedBy s.next_id s.buckets s.entries)
          (OwnedBy (s.next_id + 1) s.buckets (s.entries ++ e ∷ [])) s.allocations
          (λ r p. old_owned s.next_id e s.buckets s.entries r i p) h.owned)
        (new_owned s.next_id e s.buckets s.entries out i
          (get-below s.next_id s.next_id s.entries h.below (omega arith)) (rw own b));
  matches = λ c.
      h.matches c
      ∙ ap (λ x. ledger_sum c s.entries +ℤ x) (only_sum a c o' e.amount o eo)
      ∙ +ℤ_swap (ledger_sum c s.entries) (only a o' c) (only a e.amount c)
      ∙ ap (λ x. x +ℤ only a o' c)
          (ap (λ x. ledger_sum c s.entries +ℤ only x e.amount c) (sym own)
            ∙ sym (ledger_sum-append c s.entries e));
  covered = h.covered;
}
