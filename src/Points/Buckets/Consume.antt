-- ===== src/Points/Buckets/Consume.antt =====
-- Consumption takes what was asked for as far as the account has it, and from no other account.
use aiya_cms.Prelude.{
  ℕ, zero, suc, ◌+◌, ◌-◌, ◌<◌, ◌≤◌, ◌≡◌, ◌≢◌, ◌⊎◌, inl, inr, ◌∙◌, sym, refl, min, Bool, true, false,
  some, List, [], ◌∷◌, arith, leb, sum_by, dec_le,
}
use aiya_cms.Prelude.Result.{ok, err}
use aiya_cms.Prelude.Table.{get, put}
use aiya_cms.Points.Model.{insufficient_balance, PointsBucket}
use aiya_cms.Points.Buckets.{
  bucket_id, sort_buckets, get_buckets, Allocations, consume_loop, consume_rows,
}
use aiya_cms.Points.Buckets.Loaded.{Loaded, Keyed, Keyed-put, put-Loaded, sorted-Loaded}
use aiya_cms.Points.Buckets.Sums.{
  amount_of, bucket_sum, sum-sorted, updated, update_lem, sum-update_self, sum-update_other, RowOf,
  RowOf-put, Belong,
}

abbrev pub allocated : Allocations → ℕ
allocated [] = 0
allocated ((b, n) ∷ rest) = n + allocated rest

-- What taking `k` from an account leaves of the table `t`.
pub record Taken (n account k : ℕ) (t : List PointsBucket) (out : Allocations)
    (t' : List PointsBucket) : Type 0 where
  pub keyed : Keyed n t'
  pub falls : bucket_sum account t' + k ≡ bucket_sum account t
  pub others : (a : ℕ) → account ≢ a → bucket_sum a t' ≡ bucket_sum a t
  pub drawn : Belong account t' out
  pub listed : allocated out ≡ k
  pub rows : (c i : ℕ) → RowOf c t i → RowOf c t' i

module _ (n a k : ℕ) (b : PointsBucket) (t t' : List PointsBucket) (out : Allocations) where
  Taken-cons :
      (rest : ℕ)
      → b.account_id ≡ a
      → get bucket_id b.id t ≡ some b
      → Taken n a
          (min (suc k - min b.amount (suc k)) rest)
          (put bucket_id (updated (λ x. x - min b.amount (suc k)) b) t)
          out
          t'
      → Taken n a (min (suc k) (b.amount + rest)) t ((b, min b.amount (suc k)) ∷ out) t'
  Taken-cons rest e h p =
      let change : ℕ → ℕ = λ x. x - min b.amount (suc k) in
      let self : bucket_sum a (put bucket_id (updated change b) t) + b.amount
          ≡ bucket_sum a t + change b.amount =
        sum-update_self a change b t e h in
      record {
        keyed = p.keyed;
        falls = omega (arith, p.falls);
        others = λ c ne. p.others c ne ∙ sum-update_other c change b t h (λ f. ne (sym e ∙ f));
        drawn = (p.rows a b.id (RowOf-put a b.id change b t h (b, h, e)), p.drawn);
        listed = omega (arith, p.listed);
        rows = λ c i r. p.rows c i (RowOf-put c i change b t h r);
      }

consume_loop_lem :
    (n a k : ℕ) (rows t : List PointsBucket)
    → Keyed n t
    → Loaded a t rows
    → (out : Allocations) × (t' : List PointsBucket) × (consume_loop k rows t ≡ ok (out, t'))
      × Taken n a (min k (sum_by amount_of rows)) t out t'
unfolding consume_loop
consume_loop_lem n a k [] t d l = (
  [],
  t,
  refl,
  record {
    keyed = d;
    falls = omega arith;
    others = λ b h. refl;
    listed = omega arith;
    drawn = tt;
    rows = λ c i r. r;
  },
)
consume_loop_lem n a zero (b ∷ bs) t d l = (
  [],
  t,
  refl,
  record {
    keyed = d;
    falls = omega arith;
    others = λ c h. refl;
    listed = omega arith;
    drawn = tt;
    rows = λ c i r. r;
  },
)
consume_loop_lem n a (suc k) (b ∷ bs) t d l =
    let taken = min b.amount (suc k) in
    let row = updated (λ x. x - taken) b in
    let t1 = put bucket_id row t in
    let (out, t', e, p) =
      consume_loop_lem n a (suc k - taken) bs t1 (Keyed-put n row t d)
        (put-Loaded a row t bs l.1 l.3) in
    (
      (b, taken) ∷ out,
      t',
      rw (update_lem b (λ x. leb taken x) (λ x. x - taken) t l.0 (ground arith)) (rw e refl),
      Taken-cons n a k b t t' out (sum_by amount_of bs) l.2 l.0 p,
    )

-- In a table with distinct ids, consumption goes through when it may go into debt or the account
-- has enough. It takes all that was asked for as far as there is any, and nothing from another
-- account; its allocations name buckets of this account and add up to what was taken.
pub consume_rows_lem :
    (n a k : ℕ) (allow_negative : Bool) (t : List PointsBucket)
    → Keyed n t
    → (k ≤ bucket_sum a t) ⊎ (allow_negative ≡ true)
    → (out : Allocations) × (t' : List PointsBucket) × (consume_rows a k allow_negative t
        ≡ ok (out, t'))
      × Taken n a (min k (bucket_sum a t)) t out t'
unfolding consume_rows
consume_rows_lem n a k allow_negative t d h =
    let rows = sort_buckets (get_buckets a t) in
    let (out, t', e, p) = consume_loop_lem n a k rows t d (sorted-Loaded a n t d) in
    (out, t', ground (arith, e, sum-sorted a t), rw (sum-sorted a t) at p)

pub consume_rows_refused :
    (a k : ℕ) (t : List PointsBucket)
    → bucket_sum a t < k
    → consume_rows a k false t ≡ err insufficient_balance
unfolding consume_rows
consume_rows_refused a k t h = ground (arith, sum-sorted a t)

-- Consumption is refused, or it takes what there is.
pub consume_rows_cases :
    (n a k : ℕ) (allow_negative : Bool) (t : List PointsBucket)
    → Keyed n t
    → (consume_rows a k allow_negative t ≡ err insufficient_balance)
      ⊎ ((out : Allocations) × (t' : List PointsBucket) × (consume_rows a k allow_negative t
            ≡ ok (out, t'))
          × Taken n a (min k (bucket_sum a t)) t out t')
consume_rows_cases n a k true t d = inr (consume_rows_lem n a k true t d (inr refl))
consume_rows_cases n a k false t d = elim (dec_le k (bucket_sum a t)) [
  | yes p ↦ inr (consume_rows_lem n a k false t d (inl p))
  | no p ↦ inl (consume_rows_refused a k t (omega arith))
]
