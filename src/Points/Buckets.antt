-- ===== src/Points/Buckets.antt =====
-- The bucket operations of inc/capabilities/points/commands.py: routing, consumption in order of
-- expiry, restoration. They read and write the table of buckets.
pub mod Loaded
pub mod Sums
pub mod Consume
pub mod Restore
pub mod Order
use aiya_cms.Prelude.{
  ℕ, zero, suc, ◌+◌, ◌-◌, String, min, ◌&&◌, ◌||◌, not, Bool, true, false, Option, none, some, List,
  [], ◌∷◌, ◌++◌, ◌==◌, ltb, leb, str_eq, eq_option, if◌then◌else◌, select, first, any, sum_by,
}
use aiya_cms.Prelude.Int.{ℤ, pos_part, neg_part}
use aiya_cms.Prelude.Result.{Result, ok, err, Tx, pure, raise, gets, modify, raise_if, ◌>>=◌, ◌>>◌}
use aiya_cms.Prelude.Table.{get, put}
use aiya_cms.Points.Model.{
  Error, bucket_conflict, insufficient_balance, BucketType, perpetual, expiring, eq_bucket_type,
  PointsBucket, Store, Points,
}

abbrev pub bucket_id : PointsBucket → ℕ
bucket_id b = b.id

-- The buckets of an account that hold something (`_get_buckets`).
unfoldable pub get_buckets : ℕ → List PointsBucket → List PointsBucket
get_buckets account t = select (λ b. (b.account_id == account) && ltb 0 b.amount) t

-- The sort key (expires_at is None, expires_at, created_at), compared as Python compares tuples:
-- `key_le a b` is `key a <= key b`.
abbrev pub expiry_le : Option ℕ → ℕ → Option ℕ → ℕ → Bool
expiry_le (some e) c (some f) d = if e == f then leb c d else ltb e f
expiry_le (some e) c none d = true
expiry_le none c (some f) d = false
expiry_le none c none d = leb c d

unfoldable pub key_le : PointsBucket → PointsBucket → Bool
key_le a b = expiry_le a.expires_at a.created_at b.expires_at b.created_at

-- `buckets.sort(key=...)` is stable: a row goes before the first that it is not above.
unfoldable pub insert_sorted : PointsBucket → List PointsBucket → List PointsBucket
insert_sorted b [] = b ∷ []
insert_sorted b (c ∷ cs) = if key_le b c then b ∷ c ∷ cs else c ∷ insert_sorted b cs

unfoldable pub sort_buckets : List PointsBucket → List PointsBucket
unfolding insert_sorted
sort_buckets [] = []
sort_buckets (b ∷ bs) = insert_sorted b (sort_buckets bs)

-- The conditional UPDATE of a loaded row: the row in the table must still have the loaded version
-- and pass `enough`; else no row is hit and the caller raises.
unfoldable pub update_bucket :
    PointsBucket → (ℕ → Bool) → (ℕ → ℕ) → List PointsBucket → Result Error (List PointsBucket)
update_bucket row enough change t = elim (get bucket_id row.id t) [
  | none ↦ err bucket_conflict
  | some cur ↦
      if (cur.version == row.version) && enough cur.amount
      then ok
          (put bucket_id (record cur { amount = change cur.amount; version = cur.version + 1 }) t)
      else err bucket_conflict
]

-- `_add_to_bucket` with an amount of 0 or more.
unfoldable pub add_to_bucket :
    PointsBucket → ℕ → List PointsBucket → Result Error (List PointsBucket)
add_to_bucket row amount t = update_bucket row (λ _. true) (λ a. a + amount) t

abbrev pub Allocations : Type 0
Allocations = List (PointsBucket × ℕ)

abbrev pub then_consume :
    PointsBucket
    → ℕ
    → Result Error (Allocations × List PointsBucket)
    → Result Error (Allocations × List PointsBucket)
then_consume b n (ok (rest, t)) = ok ((b, n) ∷ rest, t)
then_consume b n (err e) = err e

abbrev pub with_table :
    {A : Type 0}
    → Result Error (List PointsBucket)
    → (List PointsBucket → Result Error A)
    → Result Error A
with_table (ok t) f = f t
with_table (err e) f = err e

-- The loop of `_consume_buckets` over the sorted rows, `remaining` still to take.
unfoldable pub consume_loop :
    ℕ → List PointsBucket → List PointsBucket → Result Error (Allocations × List PointsBucket)
consume_loop remaining [] t = ok ([], t)
consume_loop zero (b ∷ bs) t = ok ([], t)
consume_loop (suc k) (b ∷ bs) t =
    let taken = min b.amount (suc k) in
    with_table (update_bucket b (λ a. leb taken a) (λ a. a - taken) t)
      λ t'. then_consume b taken (consume_loop (suc k - taken) bs t')

-- `_consume_buckets` as far as the buckets go.
unfoldable pub consume_rows :
    ℕ → ℕ → Bool → List PointsBucket → Result Error (Allocations × List PointsBucket)
consume_rows account amount allow_negative t =
    let rows = sort_buckets (get_buckets account t) in
    if ltb (sum_by (λ b. b.amount) rows) amount && not allow_negative
    then err insufficient_balance
    else consume_loop amount rows t

-- The loop of `_restore_buckets` and `_restore_into` over the targets; the amount that is left.
unfoldable pub restore_loop :
    ℕ → Allocations → List PointsBucket → Result Error (ℕ × List PointsBucket)
restore_loop remaining [] t = ok (remaining, t)
restore_loop zero ((b, capacity) ∷ ts) t = ok (0, t)
restore_loop (suc k) ((b, capacity) ∷ ts) t =
    let give = min capacity (suc k) in
    with_table (add_to_bucket b give t) λ t'. restore_loop (suc k - give) ts t'

-- The row that a routing target names (the SELECT of `_bucket_target`).
abbrev pub is_target : ℕ → BucketType → Option String → Option ℕ → PointsBucket → Bool
is_target account bucket_type identity expires_at b =
    (b.account_id == account)
    && eq_bucket_type b.bucket_type bucket_type
    && eq_option str_eq b.expiration_identity identity
    && eq_option ◌==◌ b.expires_at expires_at

-- Only an expiring bucket has an identity and an expiry.
abbrev pub if_expiring : {A : Type 0} → BucketType → Option A → Option A
if_expiring perpetual _ = none
if_expiring expiring a = a

-- The partial unique indexes: a perpetual bucket is alone in its account, an expiring one is alone
-- with its identity and expiry.
abbrev pub clashes : PointsBucket → PointsBucket → Bool
clashes new b =
    (b.account_id == new.account_id)
    && eq_bucket_type b.bucket_type new.bucket_type
    && (eq_bucket_type new.bucket_type perpetual
        || (eq_option str_eq b.expiration_identity new.expiration_identity
            && eq_option ◌==◌ b.expires_at new.expires_at))

unfoldable pub new_bucket : ℕ → ℕ → ℕ → BucketType → Option String → Option ℕ → PointsBucket
new_bucket id now account bucket_type identity expires_at = record {
  id = id;
  account_id = account;
  bucket_type = bucket_type;
  expiration_identity = if_expiring bucket_type identity;
  expires_at = if_expiring bucket_type expires_at;
  created_at = now;
  amount = 0;
  version = 1;
}

-- `_bucket_target`: the bucket for a routing target, made if there is none.
unfoldable pub bucket_target : ℕ → ℕ → BucketType → Option String → Option ℕ → Points PointsBucket
unfolding new_bucket
bucket_target now account bucket_type identity expires_at s =
    let identity' = if_expiring bucket_type identity in
    let expires' = if_expiring bucket_type expires_at in
    elim (first (is_target account bucket_type identity' expires') s.buckets) [
      | some existing ↦ ok (existing, s)
      | none ↦
          let b = new_bucket s.next_id now account bucket_type identity expires_at in
          if any (clashes b) s.buckets
          then err bucket_conflict
          else ok (b, record s { buckets = s.buckets ++ b ∷ []; next_id = s.next_id + 1 })
    ]
