-- ===== src/Points/Ledger/Moves.antt =====
-- The composite steps of the commands under the invariant: each keeps it, or moves the balance and
-- leaves the ledger behind by the amount that moved.
use aiya_cms.Prelude.{
  ℕ, ◌+◌, ◌≡◌, refl, min, true, Option, none, some, List, [], ◌∷◌, ◌++◌, arith, Bool-cases,
  Option-cases, inl, inr, first, any, String, first_sound, ==_refl,
}
use aiya_cms.Prelude.Int.{ℤ, pos, ◌-ℤ◌, pos_part, -ℤ_parts}
use aiya_cms.Prelude.Result.{Result, ok, err, Ensures, Ensures-ok, Ensures-err}
use aiya_cms.Prelude.Table.{get, put, get-append_none}
use aiya_cms.Points.Model.{
  Error, balance_missing, bucket_conflict, PointsBalance, PointsBucket, PointsAccount, Store,
  BucketType, AccountState, Payload, emit, eq_state,
}
use aiya_cms.Points.Buckets.{
  bucket_id, bucket_target, new_bucket, Allocations, is_target, if_expiring, clashes,
}
use aiya_cms.Points.Buckets.Loaded.{Keyed, get-first, get-above}
use aiya_cms.Points.Buckets.Sums.{bucket_sum, RowOf, Belong}
use aiya_cms.Points.Buckets.Consume.{Taken}
use aiya_cms.Points.Accounts.{account_id, balance_id, get_balance, put_account, on_buckets}
use aiya_cms.Points.Ledger.{balance_at, Holds, IsSound}
use aiya_cms.Points.Ledger.Rows.{new_bucket-Holds}

pub emit-Holds :
    (a c : ℕ) (o u : ℤ) (p : Payload) (s : Store)
    → Holds a o u s
    → Ensures (λ _ s'. Holds a o u s') (emit c p s)
unfolding emit
emit-Holds a c o u p s h = Ensures-ok _ _ tt _ refl (record {
  keyed = h.keyed;
  below = h.below;
  owned = h.owned;
  matches = h.matches;
  covered = h.covered;
})

-- The account's own row is no part of the invariant.
pub put_account-Holds :
    (a : ℕ) (o u : ℤ) (account : PointsAccount) (state : AccountState) (out : Allocations)
    (s : Store)
    → Holds a o u s
    → Belong a s.buckets out
    → Ensures
        (λ _ s'.
          Holds a o u s'
          × Belong a s'.buckets out
          × (s'.balances ≡ s.balances)
          × (s'.buckets ≡ s.buckets))
        (put_account account state s)
unfolding put_account
put_account-Holds a o u account state out s h b = elim (Bool-cases (eq_state account.state state)) [
  | inl e ↦ Ensures-ok _ _ tt s (rw (e, put_account) refl) (h, b, refl, refl)
  | inr e ↦
      Ensures-ok _ _ tt
        (record s {
          accounts =
              put account_id (record account { state = state; version = account.version + 1 })
                s.accounts;
        })
        (rw (e, put_account) refl)
        (
          record {
            keyed = h.keyed;
            below = h.below;
            owned = h.owned;
            matches = h.matches;
            covered = h.covered;
          },
          b,
          refl,
          refl,
        )
]

target_account :
    (account : ℕ) (type : BucketType) (identity : Option String) (expires : Option ℕ)
    (b : PointsBucket)
    → is_target account type identity expires b ≡ true
    → b.account_id ≡ account
target_account account type identity expires b h = ground arith

new_row :
    (n : ℕ) (b : PointsBucket) (t : List PointsBucket)
    → b.id ≡ n
    → Keyed n t
    → get bucket_id b.id (t ++ b ∷ []) ≡ some b
unfolding get
new_row n b t e k =
    ground (arith, get-append_none bucket_id b.id t (b ∷ []) (rw e (get-above n t k)), ==_refl b.id)

-- The bucket of a routing target is a row of the account, found or new.
pub bucket_target-Holds :
    (a : ℕ) (o u : ℤ) (now account : ℕ) (type : BucketType) (identity : Option String)
    (expires : Option ℕ) (s : Store)
    → Holds a o u s
    → Ensures
        (λ b s'. Holds a o u s' × RowOf account s'.buckets b.id × (s'.balances ≡ s.balances))
        (bucket_target now account type identity expires s)
unfolding bucket_target
bucket_target-Holds a o u now account type identity expires s h =
    elim (Option-cases (
      first (is_target account type (if_expiring type identity) (if_expiring type expires))
        s.buckets)) [
          | inr (b, e) ↦ Ensures-ok _ _ b s (rw (e, bucket_target) refl) (
            h,
            (
              b,
              get-first
                  (is_target account type (if_expiring type identity) (if_expiring type expires))
                  s.next_id s.buckets b h.keyed e,
              target_account account type (if_expiring type identity) (if_expiring type expires) b (
                  first_sound
                    (is_target account type (if_expiring type identity) (if_expiring type expires))
                    s.buckets b e),
            ),
            refl,
          )
          | inl e ↦
              let b = new_bucket s.next_id now account type identity expires in
              elim (Bool-cases (any (clashes b) s.buckets)) [
                | inl c ↦ Ensures-err _ _ bucket_conflict (rw (e, bucket_target) (rw c refl))
                | inr c ↦ Ensures-ok _ _ b _ (rw (e, bucket_target) (rw c refl)) (
                  new_bucket-Holds a o u s b refl refl h,
                  (b, new_row s.next_id b s.buckets refl h.keyed, refl),
                  refl,
                )
              ]
        ]

-- What the buckets hold after consumption fits the balance that follows.
pub fits_after_taking :
    (a k : ℕ) (s : Store) (t : List PointsBucket) (out : Allocations)
    → IsSound s
    → Taken s.next_id a (min k (bucket_sum a s.buckets)) s.buckets out t
    → bucket_sum a t ≡ pos_part (balance_at a s.balances -ℤ pos k)
fits_after_taking a k s t out h p =
    ground (arith, p.falls, h.covered a, -ℤ_parts (balance_at a s.balances) (pos k))

pub get_balance-ok :
    (a : ℕ) (row : PointsBalance) (s : Store)
    → get balance_id a s.balances ≡ some row
    → get_balance a s ≡ ok (row, s)
unfolding get_balance
get_balance-ok a row s e = rw (e, get_balance) refl

pub get_balance-err :
    (a : ℕ) (s : Store) → get balance_id a s.balances ≡ none → get_balance a s ≡ err balance_missing
unfolding get_balance
get_balance-err a s e = rw (e, get_balance) refl

pub on_buckets-ok :
    {A : Type 0} (f : List PointsBucket → Result Error (A × List PointsBucket)) (a : A)
    (t : List PointsBucket) (s : Store)
    → f s.buckets ≡ ok (a, t)
    → on_buckets f s ≡ ok (a, record s { buckets = t })
unfolding on_buckets
on_buckets-ok f a t s e = rw (e, on_buckets) refl

pub on_buckets-err :
    {A : Type 0} (f : List PointsBucket → Result Error (A × List PointsBucket)) (x : Error)
    (s : Store)
    → f s.buckets ≡ err x
    → on_buckets f s ≡ err x
unfolding on_buckets
on_buckets-err f x s e = rw (e, on_buckets) refl
