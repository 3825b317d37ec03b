-- ===== src/Points/Retry/Frame.antt =====
-- The calls that leave the programs and the ledger as they are.
use aiya_cms.Prelude.{
  ap, ◌+◌, ℕ, ◌≡◌, ◌∙◌, refl, String, Bool, true, false, Option, none, some, List, [], ◌∷◌, ◌++◌,
  ltb, first, any, Bool-cases, Option-cases, inl, inr, if◌then◌else◌, ◌==◌,
}
use aiya_cms.Prelude.Int.{ℤ}
use aiya_cms.Prelude.Result.{
  Result, ok, err, pure, raise_if, Ensures, Ensures-ok, Ensures-err, Ensures-bind, Ensures-map,
  ◌>>=◌,
}
use aiya_cms.Prelude.Table.{get, put}
use aiya_cms.Points.Model.{
  Error, Points, Store, Payload, PointsAccount, PointsBalance, PointsBucket, PointsProgram,
  AccountState, BucketType, CommandContext, account_exists, balance_conflict, bucket_conflict,
  eq_state, emit, perpetual,
}
use aiya_cms.Points.Buckets.{
  Allocations, is_target, if_expiring, clashes, new_bucket, bucket_target,
}
use aiya_cms.Points.Accounts.{
  account_id, balance_id, is_subject, fresh_id, insert_account, insert_balance, open_account,
  ensure_account, get_balance, set_balance, put_account, sync_account_state, apply_balance,
  on_buckets, write_buckets, consume_buckets, add_allocations,
}
use aiya_cms.Points.Commands.Credit.{fill_bucket}
use aiya_cms.Points.Ledger.Entries.{Reads, or_raise-Reads}

-- The programs and the ledger are the same.
abbrev pub Frame : Store → Store → Type 0
Frame s s' = (s'.programs ≡ s.programs) × (s'.entries ≡ s.entries)

abbrev pub Frames : {A : Type 0} → Points A → Type 0
Frames {A} m = (s : Store) → Ensures {A = A} (λ _ s'. Frame s s') (m s)

pub Frames-bind :
    {A B : Type 0} (m : Points A) (f : A → Points B)
    → Frames m
    → ((a : A) → Frames (f a))
    → Frames (m >>= f)
Frames-bind m f p k s =
    Ensures-bind (p s) (λ a s1 h. Ensures-map _ _ _ (λ b s2 g. (g.0 ∙ h.0, g.1 ∙ h.1)) (k a s1))

pub Frames-pure : {A : Type 0} (a : A) → Frames (pure a)
Frames-pure a s = Ensures-ok _ _ a s refl (refl, refl)

pub Frames-Reads : {A : Type 0} (m : Points A) → Reads m → Frames m
Frames-Reads m r s =
    Ensures-map _ _ _
      (λ a s' e. (ap (λ (x : Store). x.programs) e, ap (λ (x : Store). x.entries) e)) (r s)

pub Frames-if :
    {A : Type 0} (c : Bool) (m n : Points A) → Frames m → Frames n → Frames (if c then m else n)
Frames-if true m n p q = p
Frames-if false m n p q = q

pub Frames-raise_if : (c : Bool) (x : Error) → Frames (raise_if c x)
Frames-raise_if true x s = Ensures-err _ _ x refl
Frames-raise_if false x s = Ensures-ok _ _ tt s refl (refl, refl)

pub emit-Frames : (a : ℕ) (p : Payload) → Frames (emit a p)
unfolding emit
emit-Frames a p s = Ensures-ok _ _ tt _ refl (refl, refl)

pub add_allocations-Frames : (e : ℕ) (out : Allocations) → Frames (add_allocations e out)
unfolding add_allocations
add_allocations-Frames e out s = Ensures-ok _ _ tt _ refl (refl, refl)

pub bucket_target-Frames :
    (now account : ℕ) (type : BucketType) (identity : Option String) (expires : Option ℕ)
    → Frames (bucket_target now account type identity expires)
unfolding bucket_target
bucket_target-Frames now account type identity expires s =
    elim (Option-cases (
      first (is_target account type (if_expiring type identity) (if_expiring type expires))
        s.buckets)) [
          | inr (b, e) ↦ Ensures-ok _ _ b s (rw (e, bucket_target) refl) (refl, refl)
          | inl e ↦
              let b = new_bucket s.next_id now account type identity expires in
              elim (Bool-cases (any (clashes b) s.buckets)) [
                | inl c ↦ Ensures-err _ _ bucket_conflict (rw (e, bucket_target) (rw c refl))
                | inr c ↦
                    Ensures-ok _ _ b
                      (record s { buckets = s.buckets ++ b ∷ []; next_id = s.next_id + 1 })
                      (rw (e, bucket_target) (rw c refl)) (refl, refl)
              ]
        ]

insert_account-Frames : (account : PointsAccount) → Frames (insert_account account)
unfolding insert_account
insert_account-Frames account s =
    elim (Bool-cases
      (any (is_subject account.program_id account.subject_type account.subject_id) s.accounts)) [
        | inl e ↦ Ensures-err _ _ account_exists (rw (e, insert_account) refl)
        | inr e ↦
            Ensures-ok _ _ tt (record s { accounts = s.accounts ++ account ∷ [] })
              (rw (e, insert_account) refl) (refl, refl)
      ]

insert_balance-Frames : (account : ℕ) → Frames (insert_balance account)
unfolding insert_balance
insert_balance-Frames account s = Ensures-ok _ _ tt _ refl (refl, refl)

pub fresh_id-Frames : Frames fresh_id
fresh_id-Frames s = Ensures-ok _ _ s.next_id _ refl (refl, refl)

open_account-Frames :
    (ctx : CommandContext) (program : PointsProgram) (type id : String)
    (found : Option PointsAccount)
    → Frames (open_account ctx program type id found)
unfolding open_account
open_account-Frames ctx program type id (some account) =
    Frames-bind _ _ (bucket_target-Frames ctx.now account.id perpetual none none)
      (λ _. Frames-pure account)
open_account-Frames ctx program type id none = Frames-bind _ _ fresh_id-Frames (λ i.
    Frames-bind _ _ (insert_account-Frames _) (λ _. Frames-bind _ _ (insert_balance-Frames i) (λ _.
      Frames-bind _ _ (bucket_target-Frames ctx.now i perpetual none none)
        (λ _. Frames-bind _ _ (emit-Frames i _) (λ _. Frames-pure _)))))

pub ensure_account-Frames :
    (ctx : CommandContext) (program : PointsProgram) (type id : String)
    → Frames (ensure_account ctx program type id)
unfolding ensure_account
ensure_account-Frames ctx program type id s = open_account-Frames ctx program type id _ s

pub get_balance-Frames : (a : ℕ) → Frames (get_balance a)
unfolding get_balance
get_balance-Frames a = Frames-Reads _ (λ s. or_raise-Reads _ _ s)

pub set_balance-Frames : (row : PointsBalance) (new : ℤ) → Frames (set_balance row new)
unfolding set_balance
set_balance-Frames row new s = elim (Option-cases (get balance_id row.account_id s.balances)) [
  | inl e ↦ Ensures-err _ _ balance_conflict (rw (e, set_balance) refl)
  | inr (cur, e) ↦ elim (Bool-cases (cur.version == row.version)) [
    | inl c ↦
        Ensures-ok _ _ tt
          (record s {
            balances =
                put balance_id (record cur { balance = new; version = cur.version + 1 }) s.balances;
          })
          (rw (e, set_balance) (rw c refl)) (refl, refl)
    | inr c ↦ Ensures-err _ _ balance_conflict (rw (e, set_balance) (rw c refl))
  ]
]

pub put_account-Frames :
    (account : PointsAccount) (state : AccountState) → Frames (put_account account state)
unfolding put_account
put_account-Frames account state s = elim (Bool-cases (eq_state account.state state)) [
  | inl e ↦ Ensures-ok _ _ tt s (rw (e, put_account) refl) (refl, refl)
  | inr e ↦
      Ensures-ok _ _ tt
        (record s {
          accounts =
              put account_id (record account { state = state; version = account.version + 1 })
                s.accounts;
        })
        (rw (e, put_account) refl) (refl, refl)
]

pub on_buckets-Frames :
    {A : Type 0} (f : List PointsBucket → Result Error (A × List PointsBucket))
    → Frames (on_buckets f)
unfolding on_buckets
on_buckets-Frames {A} f s = by_result (f s.buckets) refl
  where
    by_result :
        (r : Result Error (A × List PointsBucket))
        → f s.buckets ≡ r
        → Ensures (λ _ s'. Frame s s') (on_buckets f s)
    by_result (ok (a, t)) e =
        Ensures-ok _ _ a (record s { buckets = t }) (rw (e, on_buckets) refl) (refl, refl)
    by_result (err x) e = Ensures-err _ _ x (rw (e, on_buckets) refl)

pub write_buckets-Frames :
    (f : List PointsBucket → Result Error (List PointsBucket)) → Frames (write_buckets f)
unfolding write_buckets
write_buckets-Frames f s = by_result (f s.buckets) refl
  where
    by_result :
        (r : Result Error (List PointsBucket))
        → f s.buckets ≡ r
        → Ensures (λ _ s'. Frame s s') (write_buckets f s)
    by_result (ok t) e =
        Ensures-ok _ _ tt (record s { buckets = t }) (rw (e, write_buckets) refl) (refl, refl)
    by_result (err x) e = Ensures-err _ _ x (rw (e, write_buckets) refl)

pub consume_buckets-Frames :
    (account : PointsAccount) (k : ℕ) (allow : Bool) → Frames (consume_buckets account k allow)
unfolding consume_buckets sync_account_state
consume_buckets-Frames account k allow = Frames-bind _ _ (get_balance-Frames account.id) (λ row.
    Frames-bind _ _ (on_buckets-Frames _) (λ out.
      Frames-bind _ _ (set_balance-Frames row _)
        (λ _. Frames-bind _ _ (put_account-Frames account _) (λ _. Frames-pure _))))

pub apply_balance-Frames :
    (account : PointsAccount) (amount : ℤ) (allow : Bool)
    → Frames (apply_balance account amount allow)
unfolding apply_balance sync_account_state
apply_balance-Frames account amount allow = Frames-bind _ _ (get_balance-Frames account.id) (λ row.
    Frames-bind _ _ (Frames-raise_if _ _) (λ _.
      Frames-bind _ _ (set_balance-Frames row _)
        (λ _. Frames-bind _ _ (put_account-Frames account _) (λ _. Frames-pure _))))

pub fill_bucket-Frames : (bucket : PointsBucket) (k : ℕ) → Frames (fill_bucket bucket k)
unfolding fill_bucket
fill_bucket-Frames bucket k = Frames-if (ltb 0 k) _ _ (write_buckets-Frames _) (Frames-pure tt)
