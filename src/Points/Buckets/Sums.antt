-- ===== src/Points/Buckets/Sums.antt =====
-- How much each account holds in its buckets, and what the single updates change of it.
use aiya_cms.Prelude.{
  ℕ, ◌+◌, ◌≡◌, ◌≢◌, ◌∙◌, ap, refl, Bool, true, some, List, [], ◌∷◌, ◌++◌, arith, ◌==◌,
  if◌then◌else◌, sum_by, inl, inr, Option-cases, ℕ_discrete, sym, sum_by-append, ==_refl,
}
use aiya_cms.Prelude.Result.{ok}
use aiya_cms.Prelude.Table.{get, put, get-put_self, get-put_ne, sum_by-put}
use aiya_cms.Points.Model.{PointsBucket}
use aiya_cms.Points.Buckets.{
  Allocations, bucket_id, insert_sorted, sort_buckets, get_buckets, update_bucket,
}

abbrev pub amount_of : PointsBucket → ℕ
amount_of b = b.amount

abbrev pub amount_in : ℕ → PointsBucket → ℕ
amount_in a b = if b.account_id == a then b.amount else 0

-- SUM(points_buckets.amount) over an account.
abbrev pub bucket_sum : ℕ → List PointsBucket → ℕ
bucket_sum a t = sum_by (amount_in a) t

sum-insert :
    (b : PointsBucket) (cs : List PointsBucket)
    → sum_by amount_of (insert_sorted b cs) ≡ b.amount + sum_by amount_of cs
unfolding insert_sorted
sum-insert b [] = refl
sum-insert b (c ∷ cs) = ground (arith, sum-insert b cs)

sum-sort : (rs : List PointsBucket) → sum_by amount_of (sort_buckets rs) ≡ sum_by amount_of rs
unfolding sort_buckets
sum-sort [] = refl
sum-sort (r ∷ rs) = omega (arith, sum-insert r (sort_buckets rs), sum-sort rs)

sum-get_buckets :
    (a : ℕ) (t : List PointsBucket) → sum_by amount_of (get_buckets a t) ≡ bucket_sum a t
unfolding get_buckets
sum-get_buckets a [] = refl
sum-get_buckets a (b ∷ t) = ground (arith, sum-get_buckets a t)

-- The loaded and sorted rows hold all that the account has.
pub sum-sorted :
    (a : ℕ) (t : List PointsBucket)
    → sum_by amount_of (sort_buckets (get_buckets a t)) ≡ bucket_sum a t
sum-sorted a t = sum-sort (get_buckets a t) ∙ sum-get_buckets a t

-- The row that an update of a loaded row writes.
abbrev pub updated : (ℕ → ℕ) → PointsBucket → PointsBucket
updated change r = record r { amount = change r.amount; version = r.version + 1 }

-- An update of a row that is as loaded goes through.
pub update_lem :
    (r : PointsBucket) (enough : ℕ → Bool) (change : ℕ → ℕ) (t : List PointsBucket)
    → get bucket_id r.id t ≡ some r
    → enough r.amount ≡ true
    → update_bucket r enough change t ≡ ok (put bucket_id (updated change r) t)
unfolding update_bucket
update_lem r enough change t h e = ground (arith, ==_refl r.version)

-- An update that went through found the row at its version and rewrote it.
pub update-eq-ok :
    (r : PointsBucket) (enough : ℕ → Bool) (change : ℕ → ℕ) (t t' : List PointsBucket)
    → update_bucket r enough change t ≡ ok t'
    → (cur : PointsBucket) × (get bucket_id r.id t ≡ some cur)
      × (cur.version ≡ r.version)
      × (t' ≡ put bucket_id (updated change cur) t)
unfolding update_bucket
update-eq-ok r enough change t t' h = elim (Option-cases (get bucket_id r.id t)) [
  | inl e ↦ absurd (ground arith)
  | inr (cur, e) ↦ (cur, e, ground arith, ground arith)
]

-- An update changes the sum of the row's own account by the change of the row, and no other.
pub sum-update_self :
    (a : ℕ) (change : ℕ → ℕ) (r : PointsBucket) (t : List PointsBucket)
    → r.account_id ≡ a
    → get bucket_id r.id t ≡ some r
    → bucket_sum a (put bucket_id (updated change r) t) + r.amount
      ≡ bucket_sum a t + change r.amount
sum-update_self a change r t e h =
    ground (arith, sum_by-put bucket_id (amount_in a) (updated change r) r t h)

pub sum-update_other :
    (a : ℕ) (change : ℕ → ℕ) (r : PointsBucket) (t : List PointsBucket)
    → get bucket_id r.id t ≡ some r
    → r.account_id ≢ a
    → bucket_sum a (put bucket_id (updated change r) t) ≡ bucket_sum a t
sum-update_other a change r t h e =
    ground (arith, sum_by-put bucket_id (amount_in a) (updated change r) r t h)

-- A new bucket is empty.
pub sum-append_empty :
    (a : ℕ) (b : PointsBucket) (t : List PointsBucket)
    → b.amount ≡ 0
    → bucket_sum a (t ++ b ∷ []) ≡ bucket_sum a t
sum-append_empty a b t e = ground (arith, sum_by-append (amount_in a) t (b ∷ []))

-- The table has a row with this id, and it is the account's.
abbrev pub RowOf : ℕ → List PointsBucket → ℕ → Type 0
RowOf a t i = (cur : PointsBucket) × (get bucket_id i t ≡ some cur) × (cur.account_id ≡ a)

pub RowOf-put :
    (c i : ℕ) (change : ℕ → ℕ) (cur : PointsBucket) (t : List PointsBucket)
    → get bucket_id cur.id t ≡ some cur
    → RowOf c t i
    → RowOf c (put bucket_id (updated change cur) t) i
RowOf-put c i change cur t h (q, e, own) = elim (ℕ_discrete cur.id i) [
  | yes p ↦ (
    updated change cur,
    ap (λ j. get bucket_id j (put bucket_id (updated change cur) t)) (sym p)
        ∙ get-put_self bucket_id (updated change cur) cur t h,
    ground (arith, ap (λ j. get bucket_id j t) p),
  )
  | no p ↦ (q, get-put_ne bucket_id i (updated change cur) t p ∙ e, own)
]

-- Every bucket that an allocation names is the account's.
abbrev pub Belong : ℕ → List PointsBucket → Allocations → Type 0
Belong a t [] = Unit
Belong a t ((b, n) ∷ ts) = RowOf a t b.id × Belong a t ts

-- What keeps the rows of the accounts keeps this.
pub Belong-step :
    (a : ℕ) (ts : Allocations) (t u : List PointsBucket)
    → ((c i : ℕ) → RowOf c t i → RowOf c u i)
    → Belong a t ts
    → Belong a u ts
Belong-step a [] t u g o = tt
Belong-step a ((b, c) ∷ ts) t u g o = (g a b.id o.0, Belong-step a ts t u g o.1)
