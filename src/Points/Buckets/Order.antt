-- ===== src/Points/Buckets/Order.antt =====
-- The order in which a consumption draws from the buckets.
use aiya_cms.Prelude.{
  subst, not, ◌&&◌, ltb, ℕ, zero, suc, ◌-◌, ◌+◌, ◌≡◌, ◌∙◌, ◌<◌, ◌≤◌, ◌⊎◌, sym, refl, ap, Bool, true,
  false, Option, none, some, List, [], ◌∷◌, take, length, min, leb, arith, sum_by, Bool-cases, inl,
  inr, if◌then◌else◌,
}
use aiya_cms.Prelude.Result.{Result, ok, err, ok-injective}
use aiya_cms.Points.Buckets.Restore.{with_table-eq-ok}
use aiya_cms.Points.Model.{PointsBucket, Error, insufficient_balance}
use aiya_cms.Points.Buckets.{
  Allocations, expiry_le, key_le, insert_sorted, sort_buckets, update_bucket, then_consume,
  consume_loop, consume_rows, get_buckets,
}

key_le_total : (a b : PointsBucket) → key_le a b ≡ false → key_le b a ≡ true
unfolding key_le
key_le_total a b h = by_expiry a.expires_at a.created_at b.expires_at b.created_at h
  where
    by_expiry :
        (e : Option ℕ) (c : ℕ) (f : Option ℕ) (d : ℕ)
        → expiry_le e c f d ≡ false
        → expiry_le f d e c ≡ true
    by_expiry none c none d g = ground arith
    by_expiry none c (some f) d g = refl
    by_expiry (some e) c none d g = cc
    by_expiry (some e) c (some f) d g = ground arith

-- Of two buckets, by expiry and time of creation: the one that expires earlier goes first, then the
-- one that was created earlier, and one that never expires goes after all that do.
abbrev pub GoesBefore : Option ℕ → ℕ → Option ℕ → ℕ → Type 0
GoesBefore (some e) c (some f) d = (e < f) ⊎ ((e ≡ f) × (c ≤ d))
GoesBefore (some e) c none d = Unit
GoesBefore none c (some f) d = ⊥
GoesBefore none c none d = c ≤ d

abbrev pub Precedes : PointsBucket → PointsBucket → Type 0
Precedes a b = GoesBefore a.expires_at a.created_at b.expires_at b.created_at

abbrev pub IsSorted : List PointsBucket → Type 0
IsSorted [] = Unit
IsSorted (a ∷ []) = Unit
IsSorted (a ∷ b ∷ rs) = Precedes a b × IsSorted (b ∷ rs)

key_le-Precedes : (a b : PointsBucket) → key_le a b ≡ true → Precedes a b
unfolding key_le
key_le-Precedes a b h = by_expiry a.expires_at a.created_at b.expires_at b.created_at h
  where
    by_expiry :
        (e : Option ℕ) (c : ℕ) (f : Option ℕ) (d : ℕ)
        → expiry_le e c f d ≡ true
        → GoesBefore e c f d
    by_expiry none c none d g = ground (arith, g)
    by_expiry none c (some f) d g = cc g
    by_expiry (some e) c none d g = tt
    by_expiry (some e) c (some f) d g = ground (arith, g)

insert_under :
    (a b : PointsBucket) (rs : List PointsBucket)
    → Precedes a b
    → IsSorted (a ∷ rs)
    → IsSorted (insert_sorted b rs)
    → IsSorted (a ∷ insert_sorted b rs)
unfolding insert_sorted
insert_under a b [] h s i = (h, tt)
insert_under a b (c ∷ cs) h s i = elim (Bool-cases (key_le b c)) [
  | inl e ↦ rw e (h, rw e at i)
  | inr e ↦ rw e (s.0, rw e at i)
]

tail-IsSorted : (a : PointsBucket) (rs : List PointsBucket) → IsSorted (a ∷ rs) → IsSorted rs
tail-IsSorted a [] s = tt
tail-IsSorted a (b ∷ rs) s = s.1

insert_sorted-IsSorted :
    (b : PointsBucket) (rs : List PointsBucket) → IsSorted rs → IsSorted (insert_sorted b rs)
unfolding insert_sorted
insert_sorted-IsSorted b [] s = tt
insert_sorted-IsSorted b (c ∷ cs) s = elim (Bool-cases (key_le b c)) [
  | inl e ↦ rw e (key_le-Precedes b c e, s)
  | inr e ↦ rw e (
      insert_under c b cs (key_le-Precedes c b (key_le_total b c e)) s
        (insert_sorted-IsSorted b cs (tail-IsSorted c cs s)))
]

sum-insert_sorted :
    (f : PointsBucket → ℕ) (b : PointsBucket) (rs : List PointsBucket)
    → sum_by f (insert_sorted b rs) ≡ f b + sum_by f rs
unfolding insert_sorted
sum-insert_sorted f b [] = refl
sum-insert_sorted f b (c ∷ cs) = ground (arith, sum-insert_sorted f b cs)

-- Sorting puts the buckets in order of expiry, those without an expiry last, and equal ones in order
-- of creation; and it neither loses nor repeats a bucket, as every weight of the buckets has the
-- same sum before and after.
pub sort_buckets-IsSorted :
    (rs : List PointsBucket)
    → IsSorted (sort_buckets rs)
      × ((weight : PointsBucket → ℕ) → sum_by weight (sort_buckets rs) ≡ sum_by weight rs)
unfolding sort_buckets
sort_buckets-IsSorted [] = (tt, λ f. refl)
sort_buckets-IsSorted (r ∷ rs) =
    let (s, w) = sort_buckets-IsSorted rs in
    (
      insert_sorted-IsSorted r (sort_buckets rs) s,
      λ f. omega (arith, sum-insert_sorted f r (sort_buckets rs), w f),
    )

-- The buckets that allocations draw from.
abbrev pub drawn_from : Allocations → List PointsBucket
drawn_from [] = []
drawn_from ((b, k) ∷ out) = b ∷ drawn_from out

then_consume-eq-ok :
    (b : PointsBucket) (n : ℕ) (r : Result Error (Allocations × List PointsBucket))
    (out : Allocations) (t' : List PointsBucket)
    → then_consume b n r ≡ ok (out, t')
    → (rest : Allocations) × (r ≡ ok (rest, t')) × ((b, n) ∷ rest ≡ out)
then_consume-eq-ok b n (ok (rest, t)) out t' h =
    let both = ok-injective h in
    (rest, ap (λ u. ok (rest, u)) (ap (λ x. x.1) both), ap (λ x. x.0) both)
then_consume-eq-ok b n (err e) out t' h = cc

-- The loop's allocations draw from a prefix of the rows, in their order.
consume_loop-prefix :
    (k : ℕ) (rows t t' : List PointsBucket) (out : Allocations)
    → consume_loop k rows t ≡ ok (out, t')
    → drawn_from out ≡ take (length out) rows
unfolding consume_loop
consume_loop-prefix k [] t t' out h =
    subst (λ o. drawn_from o ≡ take (length o) []) (ap (λ x. x.0) (ok-injective h)) refl
consume_loop-prefix zero (b ∷ bs) t t' out h =
    subst (λ o. drawn_from o ≡ take (length o) (b ∷ bs)) (ap (λ x. x.0) (ok-injective h)) refl
consume_loop-prefix (suc k) (b ∷ bs) t t' out h =
    let taken = min b.amount (suc k) in
    let (t1, _, g) =
      with_table-eq-ok (update_bucket b (λ a. leb taken a) (λ a. a - taken) t)
        (λ u. then_consume b taken (consume_loop (suc k - taken) bs u)) h in
    let (rest, e, whole) =
      then_consume-eq-ok b taken (consume_loop (suc k - taken) bs t1) out t' g in
    subst (λ o. drawn_from o ≡ take (length o) (b ∷ bs)) whole
      (ap (λ u. b ∷ u) (consume_loop-prefix (suc k - taken) bs t1 t' rest e))

not_refused :
    {A : Type 0} (c : Bool) (x : Error) (r : Result Error A) {y : A}
    → (if c then err x else r) ≡ ok y
    → r ≡ ok y
not_refused true x r h = cc
not_refused false x r h = h

-- Every allocation but the last one empties its bucket.
abbrev pub EmptiesAllButLast : Allocations → Type 0
EmptiesAllButLast [] = Unit
EmptiesAllButLast ((b, k) ∷ []) = Unit
EmptiesAllButLast ((b, k) ∷ x ∷ out) = (k ≡ b.amount) × EmptiesAllButLast (x ∷ out)

nothing_to_take :
    (rows t t' : List PointsBucket) (out : Allocations)
    → consume_loop 0 rows t ≡ ok (out, t')
    → [] ≡ out
unfolding consume_loop
nothing_to_take [] t t' out h = ap (λ x. x.0) (ok-injective h)
nothing_to_take (b ∷ bs) t t' out h = ap (λ x. x.0) (ok-injective h)

-- More is drawn only when the first bucket does not have enough.
then_EmptiesAllButLast :
    (b : PointsBucket) (k : ℕ) (bs t t' : List PointsBucket) (rest : Allocations)
    → consume_loop (k - min b.amount k) bs t ≡ ok (rest, t')
    → EmptiesAllButLast rest
    → EmptiesAllButLast ((b, min b.amount k) ∷ rest)
then_EmptiesAllButLast b k bs t t' [] h p = tt
then_EmptiesAllButLast b k bs t t' (x ∷ rest) h p = (by_left (k - min b.amount k) refl, p)
  where
    by_left : (left : ℕ) → k - min b.amount k ≡ left → min b.amount k ≡ b.amount
    by_left zero e =
        let none_more : [] ≡ (x ∷ rest) =
          nothing_to_take bs t t' (x ∷ rest) (ap (λ m. consume_loop m bs t) (sym e) ∙ h) in
        absurd (cc none_more)
    by_left (suc left) e = ground (arith, e)

consume_loop-EmptiesAllButLast :
    (k : ℕ) (rows t t' : List PointsBucket) (out : Allocations)
    → consume_loop k rows t ≡ ok (out, t')
    → EmptiesAllButLast out
unfolding consume_loop
consume_loop-EmptiesAllButLast k [] t t' out h =
    subst EmptiesAllButLast (ap (λ x. x.0) (ok-injective h)) tt
consume_loop-EmptiesAllButLast zero (b ∷ bs) t t' out h =
    subst EmptiesAllButLast (ap (λ x. x.0) (ok-injective h)) tt
consume_loop-EmptiesAllButLast (suc k) (b ∷ bs) t t' out h =
    let taken = min b.amount (suc k) in
    let (t1, _, g) =
      with_table-eq-ok (update_bucket b (λ a. leb taken a) (λ a. a - taken) t)
        (λ u. then_consume b taken (consume_loop (suc k - taken) bs u)) h in
    let (rest, e, whole) =
      then_consume-eq-ok b taken (consume_loop (suc k - taken) bs t1) out t' g in
    subst EmptiesAllButLast whole (
      then_EmptiesAllButLast b (suc k) bs t1 t' rest e
        (consume_loop-EmptiesAllButLast (suc k - taken) bs t1 t' rest e))

-- A consumption that goes through draws from the first of the account's buckets in order of expiry,
-- skipping none of them, and goes on to the next bucket only when the one before is drawn empty.
pub consume_rows_order :
    (account k : ℕ) (allow_negative : Bool) (t t' : List PointsBucket) (out : Allocations)
    → consume_rows account k allow_negative t ≡ ok (out, t')
    → (drawn_from out ≡ take (length out) (sort_buckets (get_buckets account t)))
      × EmptiesAllButLast out
      × IsSorted (sort_buckets (get_buckets account t))
unfolding consume_rows
consume_rows_order account k allow_negative t t' out h =
    let rows = sort_buckets (get_buckets account t) in
    let went =
      not_refused (ltb (sum_by (λ (b : PointsBucket). b.amount) rows) k && not allow_negative)
        insufficient_balance (consume_loop k rows t) h in
    (
      consume_loop-prefix k rows t t' out went,
      consume_loop-EmptiesAllButLast k rows t t' out went,
      (sort_buckets-IsSorted (get_buckets account t)).0,
    )
