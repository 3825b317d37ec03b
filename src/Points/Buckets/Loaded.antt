-- ===== src/Points/Buckets/Loaded.antt =====
-- The rows that a transaction has loaded from the table of buckets, and the keys of the table.
use aiya_cms.Prelude.{
  ℕ, suc, ◌+◌, ◌<◌, ◌≡◌, ◌≢◌, refl, Bool, none, some, List, [], ◌∷◌, ◌++◌, arith, ◌==◌, ltb, ◌&&◌,
  ◌∙◌, select, first, Bool-cases, inl, inr, ==_refl,
}
use aiya_cms.Prelude.Table.{get, put, get-put_ne, get-put-none}
use aiya_cms.Points.Model.{PointsBucket}
use aiya_cms.Points.Buckets.{bucket_id, insert_sorted, sort_buckets, get_buckets}

-- The ids of a table are distinct and below `n`.
abbrev pub Keyed : ℕ → List PointsBucket → Type 0
Keyed n [] = Unit
Keyed n (b ∷ t) = (b.id < n) × (get bucket_id b.id t ≡ none) × Keyed n t

-- Distinct rows of one account, each as it stands in the table.
abbrev pub Loaded : ℕ → List PointsBucket → List PointsBucket → Type 0
Loaded account t [] = Unit
Loaded account t (r ∷ rs) =
    (get bucket_id r.id t ≡ some r)
    × (get bucket_id r.id rs ≡ none)
    × (r.account_id ≡ account)
    × Loaded account t rs

pub Keyed-mono : (n m : ℕ) (t : List PointsBucket) → Keyed n t → n < suc m → Keyed m t
Keyed-mono n m [] k h = tt
Keyed-mono n m (b ∷ t) k h = (omega arith, k.1, Keyed-mono n m t k.2 h)

pub get-above : (n : ℕ) (t : List PointsBucket) → Keyed n t → get bucket_id n t ≡ none
unfolding get
get-above n [] k = refl
get-above n (b ∷ t) k = ground (arith, get-above n t k.2)

pub Keyed-put :
    (n : ℕ) (r : PointsBucket) (t : List PointsBucket) → Keyed n t → Keyed n (put bucket_id r t)
unfolding put
Keyed-put n r [] k = tt
Keyed-put n r (q ∷ t) k = ground (arith, Keyed-put n r t k.2, get-put-none bucket_id q.id r t k.1)

get-append_other :
    (i : ℕ) (r : PointsBucket) (t : List PointsBucket)
    → get bucket_id i t ≡ none
    → r.id ≢ i
    → get bucket_id i (t ++ r ∷ []) ≡ none
unfolding get
get-append_other i r [] h e = ground arith
get-append_other i r (q ∷ t) h e = ground (arith, get-append_other i r t)

-- A row with the next id keeps the ids distinct.
pub Keyed-append :
    (n : ℕ) (r : PointsBucket) (t : List PointsBucket)
    → r.id ≡ n
    → Keyed n t
    → Keyed (n + 1) (t ++ r ∷ [])
unfolding get
Keyed-append n r [] e k = (omega arith, refl, tt)
Keyed-append n r (q ∷ t) e k =
    (omega arith, get-append_other q.id r t k.1 (omega arith), Keyed-append n r t e k.2)

Loaded-cons :
    (a : ℕ) (q : PointsBucket) (t rs : List PointsBucket)
    → get bucket_id q.id t ≡ none
    → Loaded a t rs
    → Loaded a (q ∷ t) rs
unfolding get
Loaded-cons a q t [] h l = tt
Loaded-cons a q t (r ∷ rs) h l = (ground arith, l.1, l.2, Loaded-cons a q t rs h l.3)

pub get-select-none :
    (p : PointsBucket → Bool) (i : ℕ) (t : List PointsBucket)
    → get bucket_id i t ≡ none
    → get bucket_id i (select p t) ≡ none
unfolding get
get-select-none p i [] h = refl
get-select-none p i (q ∷ t) h = ground (arith, get-select-none p i t)

select-Loaded : (a n : ℕ) (t : List PointsBucket) → Keyed n t → Loaded a t (get_buckets a t)
unfolding get_buckets get
select-Loaded a n [] k = tt
select-Loaded a n (b ∷ t) k = ground (
  arith,
  Loaded-cons a b t (get_buckets a t) k.1 (select-Loaded a n t k.2),
  get-select-none (λ (b : PointsBucket). (b.account_id == a) && ltb 0 b.amount) b.id t k.1,
)

get-insert_none :
    (i : ℕ) (b : PointsBucket) (cs : List PointsBucket)
    → get bucket_id i cs ≡ none
    → b.id ≢ i
    → get bucket_id i (insert_sorted b cs) ≡ none
unfolding insert_sorted get
get-insert_none i b [] h e = ground arith
get-insert_none i b (c ∷ cs) h e = ground (arith, get-insert_none i b cs)

get-sort_none :
    (i : ℕ) (rs : List PointsBucket)
    → get bucket_id i rs ≡ none
    → get bucket_id i (sort_buckets rs) ≡ none
unfolding sort_buckets get
get-sort_none i [] h = refl
get-sort_none i (r ∷ rs) h =
    ground (arith, get-sort_none i rs, get-insert_none i r (sort_buckets rs))

insert-Loaded :
    (a : ℕ) (b : PointsBucket) (t rs : List PointsBucket)
    → get bucket_id b.id t ≡ some b
    → get bucket_id b.id rs ≡ none
    → b.account_id ≡ a
    → Loaded a t rs
    → Loaded a t (insert_sorted b rs)
unfolding insert_sorted get
insert-Loaded a b t [] h f e l = (h, refl, e, tt)
insert-Loaded a b t (c ∷ cs) h f e l =
    ground (arith, insert-Loaded a b t cs h, get-insert_none c.id b cs l.1)

sort-Loaded : (a : ℕ) (t rs : List PointsBucket) → Loaded a t rs → Loaded a t (sort_buckets rs)
unfolding sort_buckets
sort-Loaded a t [] l = tt
sort-Loaded a t (r ∷ rs) l =
    insert-Loaded a r t (sort_buckets rs) l.0 (get-sort_none r.id rs l.1) l.2
      (sort-Loaded a t rs l.3)

-- What `_consume_buckets` has loaded and sorted.
pub sorted-Loaded :
    (a n : ℕ) (t : List PointsBucket) → Keyed n t → Loaded a t (sort_buckets (get_buckets a t))
sorted-Loaded a n t k = sort-Loaded a t (get_buckets a t) (select-Loaded a n t k)

-- An update of one row leaves the other loaded rows as they stand.
pub put-Loaded :
    (a : ℕ) (r : PointsBucket) (t rs : List PointsBucket)
    → get bucket_id r.id rs ≡ none
    → Loaded a t rs
    → Loaded a (put bucket_id r t) rs
unfolding get
put-Loaded a r t [] h l = tt
put-Loaded a r t (q ∷ rs) h l = (
  get-put_ne bucket_id q.id r t (ground arith) ∙ l.0,
  l.1,
  l.2,
  put-Loaded a r t rs (ground arith) l.3,
)

get-cons_some :
    (q b : PointsBucket) (t : List PointsBucket)
    → get bucket_id q.id t ≡ none
    → get bucket_id b.id t ≡ some b
    → get bucket_id b.id (q ∷ t) ≡ some b
unfolding get
get-cons_some q b t h g = ground arith

-- A row that a SELECT has found is the row with its id.
pub get-first :
    (p : PointsBucket → Bool) (n : ℕ) (t : List PointsBucket) (b : PointsBucket)
    → Keyed n t
    → first p t ≡ some b
    → get bucket_id b.id t ≡ some b
unfolding get
get-first p n [] b k h = cc
get-first p n (q ∷ t) b k h = elim (Bool-cases (p q)) [
  | inl e ↦ ground (arith, ==_refl q.id)
  | inr e ↦
      let rest : first p t ≡ some b = ground arith in
      get-cons_some q b t k.1 (get-first p n t b k.2 rest)
]
