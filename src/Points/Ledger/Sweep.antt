-- ===== src/Points/Ledger/Sweep.antt =====
-- `expire_buckets` under the invariant.
use aiya_cms.Prelude.{
  ◌⊎◌, ℕ, ◌+◌, ◌≡◌, ◌∙◌, sym, refl, ap, subst, true, Option, none, some, List, [], ◌∷◌, ◌++◌, arith,
  Option-cases, inl, inr,
}
use aiya_cms.Prelude.Int.{ℤ, pos, neg, ◌-ℤ◌, pos_part, plus-neg, minus-neg, zero-+ℤ}
use aiya_cms.Prelude.Result.{
  Result, ok, Ensures, Ensures-ok, Ensures-bind, Ensures-step, Ensures-stop, ◌>>◌,
}
use aiya_cms.Prelude.Table.{get, put, key-get}
use aiya_cms.Points.Model.{
  Error, Payload, emit, expiration_conflict, balance_missing, PointsProgram, PointsAccount,
  PointsBucket, Store, CommandContext, Points,
}
use aiya_cms.Points.Buckets.{bucket_id, update_bucket}
use aiya_cms.Points.Buckets.Loaded.{Keyed-put}
use aiya_cms.Points.Buckets.Sums.{updated, update_lem, sum-update_self, sum-update_other, RowOf-put}
use aiya_cms.Points.Accounts.{
  account_id, balance_id, synced_state, sync_account_state, write_buckets,
}
use aiya_cms.Points.Commands.{expire_bucket, expire_loop, expire_buckets}
use aiya_cms.Points.Commands.Expire.{expire_if, expire_one}
use aiya_cms.Points.Ledger.{balance_at, Holds, IsSound}
use aiya_cms.Points.Ledger.Steps.{Holds-IsSound, IsSound-Holds, only_self}
use aiya_cms.Points.Ledger.Rows.{buckets-Holds}
use aiya_cms.Points.Ledger.Moves.{get_balance-ok, get_balance-err}
use aiya_cms.Points.Ledger.Balances.{rebalance-Holds}
use aiya_cms.Points.Ledger.Entries.{booked-Holds}
use aiya_cms.Points.Ledger.Commands.{KeepsBooks}
use aiya_cms.Points.Ledger.Due.{Fresh, put-Fresh, due-Fresh}

write_buckets-ok :
    (f : List PointsBucket → Result Error (List PointsBucket)) (t : List PointsBucket) (s : Store)
    → f s.buckets ≡ ok t
    → write_buckets f s ≡ ok (tt, record s { buckets = t })
unfolding write_buckets
write_buckets-ok f t s e = rw (e, write_buckets) refl

abbrev emptied : PointsBucket → PointsBucket
emptied b = updated (λ _. 0) b

-- A bucket that is emptied by `k` takes the lag of `k` away.
drained : (x : ℤ) (k y : ℕ) → pos_part (x -ℤ neg (pos k)) ≡ y + k → y ≡ pos_part (x -ℤ pos 0)
unfolding ◌-ℤ◌
drained x k y h = ground arith

module _ (b : PointsBucket) (a : ℕ) (s : Store) (h : Holds a (pos 0) (neg (pos b.amount)) s)
    (e : get bucket_id b.id s.buckets ≡ some b) (own : b.account_id ≡ a) where
  empty_bucket-Holds :
      Holds a (pos 0) (pos 0) (record s { buckets = put bucket_id (emptied b) s.buckets })
  empty_bucket-Holds =
      buckets-Holds a (pos 0) (neg (pos b.amount)) (pos 0) s (put bucket_id (emptied b) s.buckets)
        (Keyed-put s.next_id (emptied b) s.buckets h.keyed)
        (λ c i r. RowOf-put c i (λ _. 0) b s.buckets e r)
        (λ c ne. sum-update_other c (λ _. 0) b s.buckets e (λ p. ne (sym own ∙ p)))
        (drained (balance_at a s.balances) b.amount _ (
          sym (
            h.covered a
            ∙ ap (λ x. pos_part (balance_at a s.balances -ℤ x)) (only_self a (neg (pos b.amount))))
          ∙ sym (omega (arith, sum-update_self a (λ _. 0) b s.buckets own e))))
        h

-- The UPDATE that empties a bucket, before the rest.
emptied-Holds :
    {B : Type 0} (b : PointsBucket) (a : ℕ) (s : Store) (Q : B → Store → Type 0) (rest : Points B)
    → Holds a (pos 0) (neg (pos b.amount)) s
    → get bucket_id b.id s.buckets ≡ some b
    → b.account_id ≡ a
    → ((s' : Store)
        → Holds a (pos 0) (pos 0) s'
        → s'.buckets ≡ put bucket_id (emptied b) s.buckets
        → Ensures Q (rest s'))
    → Ensures Q ((write_buckets (update_bucket b (λ _. true) (λ _. 0)) >> rest) s)
emptied-Holds b a s Q rest h e own k =
    Ensures-step _ tt (record s { buckets = put bucket_id (emptied b) s.buckets })
      (write_buckets-ok (update_bucket b (λ _. true) (λ _. 0)) _ s
        (update_lem b (λ _. true) (λ _. 0) s.buckets e refl))
      (k _ (empty_bucket-Holds b a s h e own) refl)

emit_after :
    (a : ℕ) (p : Payload) (s : Store)
    → Holds a (pos 0) (pos 0) s
    → Ensures (λ _ s'. Holds a (pos 0) (pos 0) s' × (s'.buckets ≡ s.buckets)) (emit a p s)
unfolding emit
emit_after a p s h = Ensures-ok _ _ tt _ refl (
  record {
    keyed = h.keyed;
    below = h.below;
    owned = h.owned;
    matches = h.matches;
    covered = h.covered;
  },
  refl,
)

-- One bucket of a sweep: the books stay in order, and the table changes in that row alone.
expire_bucket-Holds :
    (ctx : CommandContext) (b : PointsBucket) (account : PointsAccount) (program : PointsProgram)
    (s : Store)
    → get bucket_id b.id s.buckets ≡ some b
    → b.account_id ≡ account.id
    → IsSound s
    → Ensures
        (λ _ s'. IsSound s' × (s'.buckets ≡ put bucket_id (emptied b) s.buckets))
        (expire_bucket ctx b account program s)
unfolding expire_bucket sync_account_state
expire_bucket-Holds ctx b account program s e own h =
    let a = account.id in
    let k = b.amount in
    booked-Holds a (pos 0) (pos k) (pos 0) s _ ((b, k) ∷ []) expiration_conflict _ _ refl refl
      (plus-neg k) ((b, e, own), tt) (IsSound-Holds a s h)
      (λ s1 h1 e1. elim (Option-cases (get balance_id a s1.balances)) [
        | inl no_row ↦ Ensures-stop _ balance_missing (get_balance-err a s1 no_row)
        | inr (row, f) ↦ Ensures-step _ row s1 (get_balance-ok a row s1 f) (
            rebalance-Holds account row (neg (pos k)) (pos k) (pos 0) (pos 0) (neg (pos k))
              (row.balance -ℤ pos k) (synced_state account.state (row.balance -ℤ pos k)) [] s1 _ _ f
              (minus-neg row.balance k) (plus-neg k) (sym (zero-+ℤ (neg (pos k)))) h1 tt
              (λ s2 h2 _ _ e2.
                let same = e2 ∙ e1 in
                emptied-Holds b a s2 _ _ h2 (ap (get bucket_id b.id) same ∙ e) own (λ s3 h3 e3.
                  Ensures-bind (emit_after a _ s3 h3) (λ _ s4 p.
                    Ensures-ok _ _ _ s4 refl
                      (Holds-IsSound a s4 p.0, p.1 ∙ e3 ∙ ap (put bucket_id (emptied b)) same)))))
      ])

expire_if-Holds :
    (ctx : CommandContext) (b : PointsBucket) (account : Option PointsAccount)
    (program : Option PointsProgram) (s : Store)
    → get bucket_id b.id s.buckets ≡ some b
    → ((x : PointsAccount) → account ≡ some x → b.account_id ≡ x.id)
    → IsSound s
    → Ensures
        (λ _ s'.
          IsSound s'
          × ((s'.buckets ≡ s.buckets) ⊎ (s'.buckets ≡ put bucket_id (emptied b) s.buckets)))
        (expire_if ctx b account program s)
expire_if-Holds ctx b (some account) (some program) s e own h =
    Ensures-bind (expire_bucket-Holds ctx b account program s e (own account refl) h)
      (λ x s' p. Ensures-ok _ _ (x ∷ []) s' refl (p.0, inr p.1))
expire_if-Holds ctx b (some account) none s e own h = Ensures-ok _ _ [] s refl (h, inl refl)
expire_if-Holds ctx b none program s e own h = Ensures-ok _ _ [] s refl (h, inl refl)

rest-Fresh :
    (b : PointsBucket) (t t' bs : List PointsBucket)
    → Fresh t (b ∷ bs)
    → (t' ≡ t) ⊎ (t' ≡ put bucket_id (emptied b) t)
    → Fresh t' bs
rest-Fresh b t t' bs f (inl e) = subst (λ x. Fresh x bs) (sym e) f.2
rest-Fresh b t t' bs f (inr e) =
    subst (λ x. Fresh x bs) (sym e) (put-Fresh (emptied b) t bs f.1 f.2)

expire_loop-Holds :
    (ctx : CommandContext) (bs : List PointsBucket) (s : Store)
    → Fresh s.buckets bs
    → IsSound s
    → Ensures (λ _ s'. IsSound s') (expire_loop ctx bs s)
unfolding expire_loop expire_one
expire_loop-Holds ctx [] s f h = Ensures-ok _ _ [] s refl h
expire_loop-Holds ctx (b ∷ bs) s f h =
    Ensures-bind
      (expire_if-Holds ctx b (get account_id b.account_id s.accounts) _ s f.0
        (λ x q. sym (key-get account_id b.account_id s.accounts x q)) h)
      (λ made s1 p.
        Ensures-bind (expire_loop-Holds ctx bs s1 (rest-Fresh b s.buckets s1.buckets bs f p.1) p.0)
          (λ rest s2 q. Ensures-ok _ _ (made ++ rest) s2 refl q))

-- A sweep keeps the books in order, whichever buckets are due.
pub expire_buckets-KeepsBooks : (ctx : CommandContext) → KeepsBooks (expire_buckets ctx)
unfolding expire_buckets
expire_buckets-KeepsBooks ctx s h =
    expire_loop-Holds ctx _ s (due-Fresh s.next_id ctx.now s.buckets h.keyed) h
