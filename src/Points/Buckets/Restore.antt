-- ===== src/Points/Buckets/Restore.antt =====
-- Restoration gives back to the targets and to no other account.
use aiya_cms.Prelude.{
  ℕ, zero, suc, ◌+◌, ◌-◌, ◌≤◌, ◌≡◌, ◌≢◌, ◌∙◌, sym, ap, subst, refl, min, true, some, List, [], ◌∷◌,
  arith,
}
use aiya_cms.Prelude.Result.{Result, ok, err}
use aiya_cms.Prelude.Table.{get, put, key-get}
use aiya_cms.Points.Model.{Error, PointsBucket}
use aiya_cms.Points.Buckets.{bucket_id, add_to_bucket, Allocations, with_table, restore_loop}
use aiya_cms.Points.Buckets.Loaded.{Keyed, Keyed-put}
use aiya_cms.Points.Buckets.Sums.{
  RowOf, RowOf-put, Belong, Belong-step, bucket_sum, updated, update-eq-ok, sum-update_self,
  sum-update_other,
}

-- What giving back leaves of the table: `given` went into buckets of the account.
pub record Given (n a given : ℕ) (t t' : List PointsBucket) : Type 0 where
  pub keyed : Keyed n t'
  pub rises : bucket_sum a t' ≡ bucket_sum a t + given
  pub others : (c : ℕ) → a ≢ c → bucket_sum c t' ≡ bucket_sum c t
  pub rows : (c i : ℕ) → RowOf c t i → RowOf c t' i

put-Given :
    (n a amount : ℕ) (cur : PointsBucket) (t t' : List PointsBucket)
    → Keyed n t
    → cur.account_id ≡ a
    → get bucket_id cur.id t ≡ some cur
    → t' ≡ put bucket_id (updated (λ x. x + amount) cur) t
    → Given n a amount t t'
put-Given n a amount cur t t' d own e q =
    let change : ℕ → ℕ = λ x. x + amount in
    subst (λ u. Given n a amount t u) (sym q)
      (record {
        keyed = Keyed-put n (updated change cur) t d;
        rises = omega (arith, sum-update_self a change cur t own e);
        others = λ c ne. sum-update_other c change cur t e (λ f. ne (sym own ∙ f));
        rows = λ c i r. RowOf-put c i change cur t e r;
      })

get_own :
    (i : ℕ) (t : List PointsBucket) (cur : PointsBucket)
    → get bucket_id i t ≡ some cur
    → get bucket_id cur.id t ≡ some cur
get_own i t cur e = ap (λ j. get bucket_id j t) (key-get bucket_id i t cur e) ∙ e

pub add-Given :
    (n a amount : ℕ) (b : PointsBucket) (t t' : List PointsBucket)
    → Keyed n t
    → RowOf a t b.id
    → add_to_bucket b amount t ≡ ok t'
    → Given n a amount t t'
unfolding add_to_bucket
add-Given n a amount b t t' d r h =
    let (cur, e, v, q) = update-eq-ok b (λ _. true) (λ x. x + amount) t t' h in
    put-Given n a amount cur t t' d (ground (arith, r.1, r.2)) (get_own b.id t cur e) q

same-Given :
    (n a k left : ℕ) (t t' : List PointsBucket)
    → Keyed n t
    → k ≡ left
    → t ≡ t'
    → Given n a (k - left) t t'
same-Given n a k left t t' d e f =
    subst (λ u. Given n a (k - left) t u) f
      (record { keyed = d; rises = omega arith; others = λ c h. refl; rows = λ c i r. r })

Given-trans :
    (n a i j : ℕ) (t u v : List PointsBucket)
    → Given n a i t u
    → Given n a j u v
    → Given n a (i + j) t v
Given-trans n a i j t u v p q = record {
  keyed = q.keyed;
  rises = omega (arith, p.rises, q.rises);
  others = λ c h. q.others c h ∙ p.others c h;
  rows = λ c x r. q.rows c x (p.rows c x r);
}

pub with_table-eq-ok :
    {A : Type 0} (r : Result Error (List PointsBucket)) (f : List PointsBucket → Result Error A)
    {x : A}
    → with_table r f ≡ ok x
    → (t : List PointsBucket) × (r ≡ ok t) × (f t ≡ ok x)
with_table-eq-ok (ok t) f h = (t, refl, h)
with_table-eq-ok (err e) f h = cc

-- What leaves the loop did not go into a target; the rest did.
pub restore_loop-Given :
    (n a k left : ℕ) (ts : Allocations) (t t' : List PointsBucket)
    → Keyed n t
    → Belong a t ts
    → restore_loop k ts t ≡ ok (left, t')
    → (left ≤ k) × Given n a (k - left) t t'
unfolding restore_loop
restore_loop-Given n a k left [] t t' d o h =
    (ground arith, same-Given n a k left t t' d (ground arith) (ground arith))
restore_loop-Given n a zero left ((b, c) ∷ ts) t t' d o h =
    (ground arith, same-Given n a zero left t t' d (ground arith) (ground arith))
restore_loop-Given n a (suc k) left ((b, c) ∷ ts) t t' d o h =
    let give = min c (suc k) in
    let (t1, e, h') =
      with_table-eq-ok (add_to_bucket b give t) (λ u. restore_loop (suc k - give) ts u) h in
    let g = add-Given n a give b t t1 d o.0 e in
    let (le, g') =
      restore_loop-Given n a (suc k - give) left ts t1 t' g.keyed (Belong-step a ts t t1 g.rows o.1)
        h' in
    (
      omega arith,
      subst (λ (m : ℕ). Given n a m t t') (omega arith)
          (Given-trans n a give (suc k - give - left) t t1 t' g g'),
    )
