-- ===== src/Points/Ledger/Restores.antt =====
-- Restoration, opening and the ledger entry under the invariant.
use aiya_cms.Prelude.{
  ℕ, ◌+◌, ◌-◌, ◌≤◌, ◌≡◌, ◌∙◌, sym, ap, refl, min, none, some, List, [], arith, ltb, Option-cases,
  inl, inr,
}
use aiya_cms.Prelude.Int.{
  ℤ, pos, neg, ◌+ℤ◌, ◌-ℤ◌, pos_part, neg_part, zero-+ℤ, neg-plus, pos_part-minus_back, debt_first,
}
use aiya_cms.Prelude.Result.{
  Result, ok, err, Ensures, Ensures-ok, Ensures-err, Ensures-bind, Ensures-step, Ensures-stop,
  Ensures-if, Ensures-map,
}
use aiya_cms.Prelude.Table.{get}
use aiya_cms.Points.Model.{
  Error, balance_missing, PointsBalance, PointsBucket, PointsAccount, Store, CommandContext,
  perpetual,
}
use aiya_cms.Points.Buckets.{Allocations, restore_loop}
use aiya_cms.Points.Buckets.Sums.{bucket_sum, Belong}
use aiya_cms.Points.Buckets.Restore.{Given, restore_loop-Given}
use aiya_cms.Points.Accounts.{
  balance_id, synced_state, sync_account_state, on_buckets, give_fallback, restore_buckets,
}
use aiya_cms.Points.Ledger.{balance_at, Holds, IsSound}
use aiya_cms.Points.Ledger.Steps.{IsSound-Holds}
use aiya_cms.Points.Ledger.Rows.{buckets-Holds}
use aiya_cms.Points.Ledger.Moves.{
  bucket_target-Holds, get_balance-ok, get_balance-err, on_buckets-ok, on_buckets-err,
}
use aiya_cms.Points.Ledger.Balances.{rebalance-Holds, same_fill, pour-Holds}

-- What the loop left over goes to the perpetual bucket.
fallback-Holds :
    (ctx : CommandContext) (account : PointsAccount) (left : ℕ) (o u u' : ℤ) (s : Store)
    → pos_part (balance_at account.id s.balances -ℤ u) + left
      ≡ pos_part (balance_at account.id s.balances -ℤ u')
    → Holds account.id o u s
    → Ensures
        (λ _ s'. Holds account.id o u' s' × (s'.balances ≡ s.balances))
        (give_fallback ctx account left s)
unfolding give_fallback
fallback-Holds ctx account left o u u' s e h =
    Ensures-if (ltb 0 left) _ _ _ s
      (λ more.
        Ensures-bind (bucket_target-Holds account.id o u ctx.now account.id perpetual none none s h)
          (λ b s' p.
            Ensures-map _ _ _ (λ _ t q. (q.0, q.1 ∙ p.2))
              (pour-Holds account.id left o u u' b s' (rw p.2 e) p.1 p.0)))
      (λ nothing. Ensures-ok _ _ tt s refl (same_fill account.id o u u' s (ground arith) h, refl))

Given-Holds :
    (a k : ℕ) (s : Store) (t : List PointsBucket)
    → IsSound s
    → Given s.next_id a k s.buckets t
    → Holds a (pos 0) (balance_at a s.balances -ℤ pos (bucket_sum a t)) (record s { buckets = t })
Given-Holds a k s t h g =
    buckets-Holds a (pos 0) (pos 0) (balance_at a s.balances -ℤ pos (bucket_sum a t)) s t g.keyed
      g.rows g.others (sym (pos_part-minus_back (balance_at a s.balances) (bucket_sum a t)))
      (IsSound-Holds a s h)

-- What the targets and the perpetual bucket get together is the amount less the debt.
fits_after_giving :
    (a k left : ℕ) (row : PointsBalance) (s : Store) (t : List PointsBucket)
    → IsSound s
    → balance_at a s.balances ≡ row.balance
    → left ≤ k - min (neg_part row.balance) k
    → Given s.next_id a (k - min (neg_part row.balance) k - left) s.buckets t
    → pos_part (balance_at a s.balances -ℤ (balance_at a s.balances -ℤ pos (bucket_sum a t))) + left
      ≡ pos_part (balance_at a s.balances -ℤ neg (pos k))
fits_after_giving a k left row s t h e le g = ground (
  arith,
  pos_part-minus_back (balance_at a s.balances) (bucket_sum a t),
  g.rises,
  h.covered a,
  debt_first row.balance k,
)

-- Restoration moves the balance up by the amount, and the ledger lags behind.
pub restore_buckets-Holds :
    (ctx : CommandContext) (account : PointsAccount) (k : ℕ) (targets : Allocations) (s : Store)
    → IsSound s
    → Belong account.id s.buckets targets
    → Ensures
        (λ _ s'. Holds account.id (pos k) (pos 0) s')
        (restore_buckets ctx account k targets s)
unfolding restore_buckets sync_account_state
restore_buckets-Holds ctx account k targets s h b =
    elim (Option-cases (get balance_id account.id s.balances)) [
      | inl e ↦ Ensures-stop _ balance_missing (get_balance-err account.id s e)
      | inr (row, e) ↦ Ensures-step _ row s (get_balance-ok account.id row s e) (
          Ensures-bind
            (loop_result row e (restore_loop (k - min (neg_part row.balance) k) targets s.buckets)
              refl)
            (λ left s1 p.
              Ensures-bind (fallback-Holds ctx account left (pos 0) p.0 (neg (pos k)) s1 p.2 p.1)
                (λ _ s2 q.
                  rebalance-Holds account row (pos k) (pos 0) (pos k) (neg (pos k)) (pos 0)
                    (row.balance +ℤ pos k) (synced_state account.state (row.balance +ℤ pos k)) [] s2
                    _ _ (ap (get balance_id account.id) (q.1 ∙ p.3) ∙ e) refl
                    (sym (zero-+ℤ (pos k))) (neg-plus k) q.0 tt
                    (λ s3 x y z _. Ensures-ok _ _ (row.balance +ℤ pos k) s3 refl x))))
    ]
  where
    loop_result :
        (row : PointsBalance)
        → get balance_id account.id s.balances ≡ some row
        → (x : Result Error (ℕ × List PointsBucket))
        → restore_loop (k - min (neg_part row.balance) k) targets s.buckets ≡ x
        → Ensures
            (λ left s1.
              (u : ℤ) × Holds account.id (pos 0) u s1
              × (pos_part (balance_at account.id s1.balances -ℤ u) + left
                  ≡ pos_part (balance_at account.id s1.balances -ℤ neg (pos k)))
              × (s1.balances ≡ s.balances))
            (on_buckets (restore_loop (k - min (neg_part row.balance) k) targets) s)
    loop_result row e (err x) q = Ensures-err _ _ x (on_buckets-err _ x s q)
    loop_result row e (ok (left, t)) q =
        let (le, g) =
          restore_loop-Given s.next_id account.id (k - min (neg_part row.balance) k) left targets
            s.buckets t h.keyed b q in
        Ensures-ok _ _ left (record s { buckets = t }) (on_buckets-ok _ left t s q)
          (
            balance_at account.id s.balances -ℤ pos (bucket_sum account.id t),
            Given-Holds account.id _ s t h g,
            fits_after_giving account.id k left row s t h (rw e refl) le g,
            refl,
          )
