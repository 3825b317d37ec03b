-- ===== src/Points/Ledger/Balances.antt =====
-- A balance that moves with its buckets, and buckets that are filled, under the invariant.
use aiya_cms.Prelude.{
  ℕ, ◌+◌, ◌≡◌, ◌∙◌, sym, ap, subst, refl, min, Bool, not, ◌&&◌, some, List, arith, Option-cases,
  inl, inr,
}
use aiya_cms.Prelude.Int.{ℤ, pos, neg, ◌+ℤ◌, ◌-ℤ◌, pos_part, zero-+ℤ, minus-neg, plus-neg, ltb_ℤ}
use aiya_cms.Prelude.Result.{
  Result, ok, err, Ensures, Ensures-ok, Ensures-err, Ensures-bind, Ensures-step, Ensures-stop,
  Ensures-guard, ◌>>◌,
}
use aiya_cms.Prelude.Table.{get, put, key-get}
use aiya_cms.Points.Model.{
  Points, Error, balance_missing, insufficient_balance, PointsBalance, PointsBucket, PointsAccount,
  Store, AccountState,
}
use aiya_cms.Points.Buckets.{Allocations, consume_rows, add_to_bucket}
use aiya_cms.Points.Buckets.Sums.{bucket_sum, RowOf, Belong}
use aiya_cms.Points.Buckets.Consume.{Taken, consume_rows_cases}
use aiya_cms.Points.Buckets.Restore.{add-Given}
use aiya_cms.Points.Accounts.{
  balance_id, set_balance, put_account, synced_state, sync_account_state, apply_balance,
  write_buckets, consume_buckets,
}
use aiya_cms.Points.Ledger.{balance_at, Holds, IsSound}
use aiya_cms.Points.Ledger.Steps.{
  balance_at-put, IsSound-Holds, set_balance_lem, set_balance-Holds, only_self,
}
use aiya_cms.Points.Ledger.Rows.{buckets-Holds}
use aiya_cms.Points.Ledger.Moves.{
  fits_after_taking, get_balance-err, get_balance-ok, on_buckets-err, on_buckets-ok,
  put_account-Holds,
}

pub row_of :
    (a : ℕ) (row : PointsBalance) (s : Store)
    → get balance_id a s.balances ≡ some row
    → (row.account_id ≡ a) × (get balance_id row.account_id s.balances ≡ some row)
row_of a row s e =
    let i = key-get balance_id a s.balances row e in
    (i, ap (λ j. get balance_id j s.balances) i ∙ e)

set_at :
    (a : ℕ) (new : ℤ) (row : PointsBalance) (s : Store)
    → row.account_id ≡ a
    → get balance_id row.account_id s.balances ≡ some row
    → balance_at a
        (put balance_id (record row { balance = new; version = row.version + 1 }) s.balances)
      ≡ new
set_at a new row s i f = ground (
  arith,
  balance_at-put a (record row { balance = new; version = row.version + 1 }) row s.balances f,
)

-- Writing a loaded balance moved by `d`, then the account state that follows, then the rest.
pub rebalance-Holds :
    {B : Type 0} (account : PointsAccount) (row : PointsBalance) (d o o' u u' new : ℤ)
    (state : AccountState) (out : Allocations) (s : Store) (Q : B → Store → Type 0)
    (rest : Points B)
    → get balance_id account.id s.balances ≡ some row
    → new ≡ row.balance +ℤ d
    → o' ≡ o +ℤ d
    → u' ≡ u +ℤ d
    → Holds account.id o u s
    → Belong account.id s.buckets out
    → ((s' : Store)
        → Holds account.id o' u' s'
        → Belong account.id s'.buckets out
        → balance_at account.id s'.balances ≡ new
        → s'.buckets ≡ s.buckets
        → Ensures Q (rest s'))
    → Ensures Q ((set_balance row new >> (put_account account state >> rest)) s)
rebalance-Holds account row d o o' u u' new state out s Q rest e en eo eu h b k =
    let (i, f) = row_of account.id row s e in
    Ensures-step _ tt _ (set_balance_lem row new s f) (
      Ensures-bind
        (put_account-Holds account.id o' u' account state out _
          (subst
            (λ x. Holds account.id o' u' (record s {
              balances =
                  put balance_id (record row { balance = x; version = row.version + 1 }) s.balances;
            }))
            (sym en) (set_balance-Holds account.id d o o' u u' row s i f eo eu h))
          b)
        (λ _ s' p.
          k s' p.0 p.1 (ap (balance_at account.id) p.2 ∙ set_at account.id new row s i f) p.3))

-- The buckets of an account after consumption, the balance still to follow.
Taken-Holds :
    (a k : ℕ) (s : Store) (out : Allocations) (t : List PointsBucket)
    → IsSound s
    → Taken s.next_id a (min k (bucket_sum a s.buckets)) s.buckets out t
    → Holds a (pos 0) (pos k) (record s { buckets = t })
Taken-Holds a k s out t h p =
    buckets-Holds a (pos 0) (pos 0) (pos k) s t p.keyed p.rows p.others
      (fits_after_taking a k s t out h p) (IsSound-Holds a s h)

-- Consumption moves the balance down by the amount, and the ledger lags behind.
pub consume_buckets-Holds :
    (account : PointsAccount) (k : ℕ) (allow : Bool) (s : Store)
    → IsSound s
    → Ensures
        (λ r s'. Holds account.id (neg (pos k)) (pos 0) s' × Belong account.id s'.buckets r.1)
        (consume_buckets account k allow s)
unfolding consume_buckets sync_account_state
consume_buckets-Holds account k allow s h =
    elim (Option-cases (get balance_id account.id s.balances)) [
      | inl e ↦ Ensures-stop _ balance_missing (get_balance-err account.id s e)
      | inr (row, e) ↦
          Ensures-step _ row s (get_balance-ok account.id row s e)
            (elim (consume_rows_cases s.next_id account.id k allow s.buckets h.keyed) [
              | inl refused ↦
                  Ensures-stop _ insufficient_balance (
                    on_buckets-err (consume_rows account.id k allow) insufficient_balance s refused)
              | inr (out, t, taken, p) ↦
                  Ensures-step _ out _
                    (on_buckets-ok (consume_rows account.id k allow) out t s taken)
                    (rebalance-Holds account row (neg (pos k)) (pos 0) (neg (pos k)) (pos k) (pos 0)
                      (row.balance -ℤ pos k) (synced_state account.state (row.balance -ℤ pos k)) out
                      (record s { buckets = t }) _ _ e (minus-neg row.balance k)
                      (sym (zero-+ℤ (neg (pos k)))) (plus-neg k)
                      (Taken-Holds account.id k s out t h p) p.drawn
                      (λ s' x y _ _. Ensures-ok _ _ (row.balance -ℤ pos k, out) s' refl (x, y)))
            ])
    ]

-- A balance that moves by `amount` leaves both the ledger and the buckets behind.
pub apply_balance-Holds :
    (account : PointsAccount) (amount : ℤ) (allow : Bool) (out : Allocations) (s : Store)
    → IsSound s
    → Belong account.id s.buckets out
    → Ensures
        (λ new s'.
          Holds account.id amount amount s'
          × Belong account.id s'.buckets out
          × (balance_at account.id s'.balances ≡ new))
        (apply_balance account amount allow s)
unfolding apply_balance sync_account_state
apply_balance-Holds account amount allow out s h b =
    elim (Option-cases (get balance_id account.id s.balances)) [
      | inl e ↦ Ensures-stop _ balance_missing (get_balance-err account.id s e)
      | inr (row, e) ↦ Ensures-step _ row s (get_balance-ok account.id row s e) (
          Ensures-guard (not allow && ltb_ℤ (row.balance +ℤ amount) (pos 0)) insufficient_balance _
            _ s
            (rebalance-Holds account row amount (pos 0) amount (pos 0) amount
              (row.balance +ℤ amount) (synced_state account.state (row.balance +ℤ amount)) out s _ _
              e refl (sym (zero-+ℤ amount)) (sym (zero-+ℤ amount)) (IsSound-Holds account.id s h) b
              (λ s' x y z _. Ensures-ok _ _ (row.balance +ℤ amount) s' refl (x, y, z))))
    ]

pub same_fill :
    (a : ℕ) (o u u' : ℤ) (s : Store)
    → pos_part (balance_at a s.balances -ℤ u) ≡ pos_part (balance_at a s.balances -ℤ u')
    → Holds a o u s
    → Holds a o u' s
same_fill a o u u' s e h =
    buckets-Holds a o u u' s s.buckets h.keyed (λ c i r. r) (λ c ne. refl)
      (h.covered a ∙ ap (λ x. pos_part (balance_at a s.balances -ℤ x)) (only_self a u) ∙ e) h

-- An amount that enters a bucket of the account makes up for the lag.
pub pour-Holds :
    (a amount : ℕ) (o u u' : ℤ) (bucket : PointsBucket) (s : Store)
    → pos_part (balance_at a s.balances -ℤ u) + amount ≡ pos_part (balance_at a s.balances -ℤ u')
    → RowOf a s.buckets bucket.id
    → Holds a o u s
    → Ensures
        (λ _ s'. Holds a o u' s' × (s'.balances ≡ s.balances))
        (write_buckets (add_to_bucket bucket amount) s)
unfolding write_buckets
pour-Holds a amount o u u' bucket s e r h = pour_result (add_to_bucket bucket amount s.buckets) refl
  where
    pour_result :
        (x : Result Error (List PointsBucket))
        → add_to_bucket bucket amount s.buckets ≡ x
        → Ensures
            (λ _ s'. Holds a o u' s' × (s'.balances ≡ s.balances))
            (write_buckets (add_to_bucket bucket amount) s)
    pour_result (err x) q = Ensures-err _ _ x (rw (q, write_buckets) refl)
    pour_result (ok t) q =
        let g = add-Given s.next_id a amount bucket s.buckets t h.keyed r q in
        Ensures-ok _ _ tt (record s { buckets = t }) (rw (q, write_buckets) refl)
          (
            buckets-Holds a o u u' s t g.keyed g.rows g.others
                (g.rises
                  ∙ ap (λ x. x + amount)
                      (h.covered a
                        ∙ ap (λ x. pos_part (balance_at a s.balances -ℤ x)) (only_self a u))
                  ∙ e)
                h,
            refl,
          )
