-- ===== src/Points/Ledger/Due.antt =====
-- The rows that a sweep has loaded.
use aiya_cms.Prelude.{
  ℕ, ◌≡◌, ◌≢◌, ◌∙◌, refl, Bool, none, some, List, [], ◌∷◌, arith, select, ==_refl,
}
use aiya_cms.Prelude.Table.{get, put, get-put_ne}
use aiya_cms.Points.Model.{PointsBucket}
use aiya_cms.Points.Buckets.{bucket_id}
use aiya_cms.Points.Buckets.Loaded.{Keyed, get-select-none}
use aiya_cms.Points.Commands.{due_buckets}
use aiya_cms.Points.Commands.Expire.{is_due, insert_due, sort_due}

-- Distinct rows, each as it stands in the table.
abbrev pub Fresh : List PointsBucket → List PointsBucket → Type 0
Fresh t [] = Unit
Fresh t (r ∷ rs) = (get bucket_id r.id t ≡ some r) × (get bucket_id r.id rs ≡ none) × Fresh t rs

Fresh-cons :
    (q : PointsBucket) (t rs : List PointsBucket)
    → get bucket_id q.id t ≡ none
    → Fresh t rs
    → Fresh (q ∷ t) rs
unfolding get
Fresh-cons q t [] h l = tt
Fresh-cons q t (r ∷ rs) h l = (ground arith, l.1, Fresh-cons q t rs h l.2)

select-Fresh :
    (n : ℕ) (p : PointsBucket → Bool) (t : List PointsBucket) → Keyed n t → Fresh t (select p t)
unfolding get
select-Fresh n p [] k = tt
select-Fresh n p (b ∷ t) k = ground (
  arith,
  Fresh-cons b t (select p t) k.1 (select-Fresh n p t k.2),
  get-select-none p b.id t k.1,
  ==_refl b.id,
)

get-insert_none :
    (i : ℕ) (b : PointsBucket) (cs : List PointsBucket)
    → get bucket_id i cs ≡ none
    → b.id ≢ i
    → get bucket_id i (insert_due b cs) ≡ none
unfolding get
get-insert_none i b [] h e = ground arith
get-insert_none i b (c ∷ cs) h e = ground (arith, get-insert_none i b cs)

get-sort_none :
    (i : ℕ) (rs : List PointsBucket)
    → get bucket_id i rs ≡ none
    → get bucket_id i (sort_due rs) ≡ none
unfolding get
get-sort_none i [] h = refl
get-sort_none i (r ∷ rs) h = ground (arith, get-sort_none i rs, get-insert_none i r (sort_due rs))

insert-Fresh :
    (b : PointsBucket) (t rs : List PointsBucket)
    → get bucket_id b.id t ≡ some b
    → get bucket_id b.id rs ≡ none
    → Fresh t rs
    → Fresh t (insert_due b rs)
unfolding get
insert-Fresh b t [] h f l = (h, refl, tt)
insert-Fresh b t (c ∷ cs) h f l =
    ground (arith, insert-Fresh b t cs h, get-insert_none c.id b cs l.1)

sort-Fresh : (t rs : List PointsBucket) → Fresh t rs → Fresh t (sort_due rs)
sort-Fresh t [] l = tt
sort-Fresh t (r ∷ rs) l =
    insert-Fresh r t (sort_due rs) l.0 (get-sort_none r.id rs l.1) (sort-Fresh t rs l.2)

pub put-Fresh :
    (r : PointsBucket) (t rs : List PointsBucket)
    → get bucket_id r.id rs ≡ none
    → Fresh t rs
    → Fresh (put bucket_id r t) rs
unfolding get
put-Fresh r t [] h l = tt
put-Fresh r t (q ∷ rs) h l =
    (get-put_ne bucket_id q.id r t (ground arith) ∙ l.0, l.1, put-Fresh r t rs (ground arith) l.2)

-- The buckets of a table that are due, as the sweep loads them.
pub due-Fresh : (n now : ℕ) (t : List PointsBucket) → Keyed n t → Fresh t (due_buckets now t)
unfolding due_buckets
due-Fresh n now t k = sort-Fresh t _ (select-Fresh n (is_due now) t k)
