-- ===== src/Points/Ledger/Overdraft.antt =====
-- When `consume_buckets` goes through, and what it takes.
use aiya_cms.Prelude.{
  ℕ, ◌+◌, ◌<◌, ◌≤◌, ◌≡◌, ◌∙◌, ◌⊎◌, refl, ap, false, some, arith, inl, inr, dec_le, Bool-cases,
}
use aiya_cms.Prelude.Int.{pos, ◌-ℤ◌, pos_part}
use aiya_cms.Prelude.Result.{ok, err}
use aiya_cms.Prelude.Table.{get, put}
use aiya_cms.Points.Model.{
  insufficient_balance, AccountState, PointsAccount, PointsBalance, Store, eq_state,
}
use aiya_cms.Points.Buckets.{Allocations, consume_rows}
use aiya_cms.Points.Buckets.Sums.{bucket_sum}
use aiya_cms.Points.Buckets.Consume.{allocated, consume_rows_lem, consume_rows_refused}
use aiya_cms.Points.Accounts.{
  account_id, balance_id, put_account, synced_state, sync_account_state, consume_buckets,
}
use aiya_cms.Points.Ledger.{balance_or_zero, IsSound}
use aiya_cms.Points.Ledger.Steps.{set_balance_lem}
use aiya_cms.Points.Ledger.Moves.{get_balance-ok, on_buckets-ok, on_buckets-err}
use aiya_cms.Points.Ledger.Balances.{row_of}

put_account-ok :
    (account : PointsAccount) (state : AccountState) (s : Store)
    → (s' : Store) × (put_account account state s ≡ ok (tt, s'))
unfolding put_account
put_account-ok account state s = elim (Bool-cases (eq_state account.state state)) [
  | inl e ↦ (s, rw (e, put_account) refl)
  | inr e ↦ (
    record s {
      accounts =
          put account_id (record account { state = state; version = account.version + 1 })
            s.accounts;
    },
    rw (e, put_account) refl,
  )
]

holdings :
    (a : ℕ) (row : PointsBalance) (s : Store)
    → IsSound s
    → get balance_id a s.balances ≡ some row
    → bucket_sum a s.buckets ≡ pos_part row.balance
holdings a row s h e = h.covered a ∙ ap (λ o. pos_part (balance_or_zero o)) e

-- With books in order and the account's balance row there, a consumption that must not go into
-- debt goes through exactly when the balance covers it. Then it returns the balance less the amount,
-- and allocations that add up to the amount. If not, it is refused.
pub consume_buckets_lem :
    (account : PointsAccount) (k : ℕ) (row : PointsBalance) (s : Store)
    → IsSound s
    → get balance_id account.id s.balances ≡ some row
    → ((k ≤ pos_part row.balance)
        × ((out : Allocations) × (s' : Store) × (consume_buckets account k false s
              ≡ ok ((row.balance -ℤ pos k, out), s'))
            × (allocated out ≡ k)))
      ⊎ ((pos_part row.balance < k)
          × (consume_buckets account k false s ≡ err insufficient_balance))
unfolding consume_buckets sync_account_state
consume_buckets_lem account k row s h e =
    let a = account.id in
    let full = holdings a row s h e in
    elim (dec_le k (pos_part row.balance)) [
      | no p ↦ inr (
        omega arith,
        rw (get_balance-ok a row s e) (
            rw
              (on_buckets-err (consume_rows a k false) insufficient_balance s
                (consume_rows_refused a k s.buckets (omega arith)))
              refl),
      )
      | yes p ↦
          let (out, t, taken, q) =
            consume_rows_lem s.next_id a k false s.buckets h.keyed (inl (omega arith)) in
          let (i, f) = row_of a row s e in
          let s1 : Store = record s { buckets = t } in
          let new = row.balance -ℤ pos k in
          let s2 : Store = record s1 {
            balances =
                put balance_id (record row { balance = new; version = row.version + 1 }) s.balances;
          } in
          let (s3, g) = put_account-ok account (synced_state account.state new) s2 in
          inl (
            p,
            (
              out,
              s3,
              rw (get_balance-ok a row s e) (
                  rw (on_buckets-ok (consume_rows a k false) out t s taken)
                    (rw (set_balance_lem row new s1 f) (rw g refl))),
              omega (arith, q.listed),
            ),
          )
    ]
