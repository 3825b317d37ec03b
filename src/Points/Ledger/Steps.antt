-- ===== src/Points/Ledger/Steps.antt =====
-- What the single steps of a transaction do to the tables that the invariant speaks of.
use aiya_cms.Prelude.{
  ℕ, ◌+◌, ◌≡◌, ◌≢◌, ◌∙◌, sym, ap, refl, some, List, arith, ◌==◌, if◌then◌else◌, ℕ_discrete, ==_refl,
}
use aiya_cms.Prelude.Int.{ℤ, pos, ◌+ℤ◌, ◌-ℤ◌, pos_part, +ℤ_zero, -ℤ_zero, +ℤ_shift, -ℤ_shift}
use aiya_cms.Prelude.Result.{ok}
use aiya_cms.Prelude.Table.{get, put, get-put_self, get-put_ne}
use aiya_cms.Points.Model.{PointsBalance, Store}
use aiya_cms.Points.Accounts.{balance_id, set_balance}
use aiya_cms.Points.Ledger.{balance_at, ledger_sum, only, Holds, IsSound}

pub only_self : (a : ℕ) (d : ℤ) → only a d a ≡ d
only_self a d = rw (==_refl a) refl

pub only_ne : (a c : ℕ) (d : ℤ) → a ≢ c → only a d c ≡ pos 0
only_ne a c d h = ground arith

only_zero : (a c : ℕ) → only a (pos 0) c ≡ pos 0
only_zero a c = ground arith

plus_none : (x : ℤ) (a c : ℕ) → x +ℤ only a (pos 0) c ≡ x
plus_none x a c = rw (only_zero a c) (+ℤ_zero x)

minus_none : (x : ℤ) (a c : ℕ) → x -ℤ only a (pos 0) c ≡ x
minus_none x a c = rw (only_zero a c) (-ℤ_zero x)

pub Holds-IsSound : (a : ℕ) (s : Store) → Holds a (pos 0) (pos 0) s → IsSound s
Holds-IsSound a s h = record {
  keyed = h.keyed;
  below = h.below;
  owned = h.owned;
  matches = λ c. h.matches c ∙ plus_none (ledger_sum c s.entries) a c;
  covered = λ c. h.covered c ∙ ap pos_part (minus_none (balance_at c s.balances) a c);
}

pub IsSound-Holds : (a : ℕ) (s : Store) → IsSound s → Holds a (pos 0) (pos 0) s
IsSound-Holds a s h = record {
  keyed = h.keyed;
  below = h.below;
  owned = h.owned;
  matches = λ c. h.matches c ∙ sym (plus_none (ledger_sum c s.entries) a c);
  covered = λ c. h.covered c ∙ ap pos_part (sym (minus_none (balance_at c s.balances) a c));
}

pub balance_at-put :
    (c : ℕ) (row cur : PointsBalance) (t : List PointsBalance)
    → get balance_id row.account_id t ≡ some cur
    → balance_at c (put balance_id row t)
      ≡ (if row.account_id == c then row.balance else balance_at c t)
balance_at-put c row cur t h = elim (ℕ_discrete row.account_id c) [
  | yes p ↦ ground (
    arith,
    get-put_self balance_id row cur t h,
    ap (λ i. get balance_id i (put balance_id row t)) p,
  )
  | no p ↦ ground (arith, get-put_ne balance_id c row t p)
]

-- A balance row that is as loaded takes its new value.
pub set_balance_lem :
    (row : PointsBalance) (new : ℤ) (s : Store)
    → get balance_id row.account_id s.balances ≡ some row
    → set_balance row new s
      ≡ ok (
        tt,
        record s {
          balances =
              put balance_id (record row { balance = new; version = row.version + 1 }) s.balances;
        },
      )
unfolding set_balance
set_balance_lem row new s h = ground (arith, ==_refl row.version)

pub only_sum : (a c : ℕ) (o d o' : ℤ) → o' ≡ o +ℤ d → only a o' c ≡ only a o c +ℤ only a d c
only_sum a c o d o' e = ground (arith, +ℤ_zero (pos 0))

module _ (a : ℕ) (d o o' u u' : ℤ) (row : PointsBalance) (s : Store) where
  abbrev rebalanced : List PointsBalance
  rebalanced =
      put balance_id (record row { balance = row.balance +ℤ d; version = row.version + 1 })
        s.balances

  balance_moves :
      (c : ℕ)
      → row.account_id ≡ a
      → get balance_id row.account_id s.balances ≡ some row
      → balance_at c rebalanced ≡ balance_at c s.balances +ℤ only a d c
  balance_moves c e h =
      balance_at-put c (record row { balance = row.balance +ℤ d; version = row.version + 1 }) row
        s.balances h
      ∙ ground (arith, ap (λ i. balance_at i s.balances) e, h, +ℤ_zero (balance_at c s.balances))

  -- A balance that moves by `d` takes the lag of the ledger and of the buckets along.
  pub set_balance-Holds :
      row.account_id ≡ a
      → get balance_id row.account_id s.balances ≡ some row
      → o' ≡ o +ℤ d
      → u' ≡ u +ℤ d
      → Holds a o u s
      → Holds a o' u' (record s { balances = rebalanced })
  set_balance-Holds e h eo eu i = record {
    keyed = i.keyed;
    below = i.below;
    owned = i.owned;
    matches = λ c.
        balance_moves c e h
        ∙ ap (λ x. x +ℤ only a d c) (i.matches c)
        ∙ +ℤ_shift (ledger_sum c s.entries) (only a o c) (only a d c) (only a o' c)
            (only_sum a c o d o' eo);
    covered = λ c.
        i.covered c
        ∙ ap pos_part (
            sym (
              ap (λ x. x -ℤ only a u' c) (balance_moves c e h)
              ∙ -ℤ_shift (balance_at c s.balances) (only a u c) (only a d c) (only a u' c)
                  (only_sum a c u d u' eu)));
  }
