-- ===== src/Points/Ledger/Entries.antt =====
-- Opening an account and making a ledger entry under the invariant; calls that only read.
use mathlib.Core.List.{append-nil}
use aiya_cms.Prelude.{
  ℕ, ◌+◌, ◌≡◌, sym, subst, refl, Bool, true, false, Option, none, some, [], ◌∷◌, ◌++◌, any, String,
  Bool-cases, inl, inr, not, ◌&&◌, leb,
}
use aiya_cms.Prelude.Int.{ℤ, pos, ◌+ℤ◌}
use aiya_cms.Prelude.Result.{
  ok, err, or_raise, raise_if, continue, Ensures, Ensures-ok, Ensures-err, Ensures-bind,
  Ensures-step, Ensures-stop, Ensures-if, Ensures-map, Ensures-guard, ◌>>◌,
}
use aiya_cms.Points.Model.{
  amount_mismatch, amount_out_of_range, cooldown, daily_limit, Error, Points, account_exists,
  program_inactive, PointsAccount, PointsProgram, PointsLedgerEntry, Store, CommandContext,
  PointBehaviorSpec, account_opened, perpetual, EntryType, is_active, eq_entry_type,
  idempotency_mismatch,
}
use aiya_cms.Points.Buckets.{Allocations}
use aiya_cms.Points.Buckets.Sums.{Belong}
use aiya_cms.Points.Limits.{validate_limits, require_behavior, misses_fixed, is_cooling, is_spent}
use aiya_cms.Points.Accounts.{
  is_subject, insert_account, insert_balance, open_account, ensure_account, insert_entry, has_key,
  add_allocations, require_program, active_program, replay,
}
use aiya_cms.Points.Ledger.{Holds, IsSound}
use aiya_cms.Points.Ledger.Steps.{Holds-IsSound, IsSound-Holds}
use aiya_cms.Points.Ledger.Rows.{new_balance-Holds, new_id-Holds, entry-Holds}
use aiya_cms.Points.Ledger.Moves.{emit-Holds, bucket_target-Holds}

-- A call that reads the store, or raises, and changes nothing.
abbrev pub Reads : {A : Type 0} → Points A → Type 0
Reads {A} m = (s : Store) → Ensures {A = A} (λ _ s'. s' ≡ s) (m s)

pub or_raise-Reads : {A : Type 0} (o : Option A) (x : Error) → Reads (or_raise o x)
or_raise-Reads none x s = Ensures-err _ _ x refl
or_raise-Reads (some a) x s = Ensures-ok _ _ a s refl refl

active_program-Reads : (o : Option PointsProgram) → Reads (active_program o)
active_program-Reads none s = Ensures-err _ _ program_inactive refl
active_program-Reads (some p) s =
    Ensures-if (is_active p.status) _ _ _ s (λ _. Ensures-ok _ _ p s refl refl)
      (λ _. Ensures-err _ _ program_inactive refl)

pub require_program-Reads : (key : String) → Reads (require_program key)
unfolding require_program
require_program-Reads key s = active_program-Reads _ s

pub require_behavior-Reads :
    (ctx : CommandContext) (key : String) → Reads (require_behavior ctx key)
unfolding require_behavior
require_behavior-Reads ctx key s = or_raise-Reads _ _ s

pub validate_limits-Reads :
    (ctx : CommandContext) (spec : PointBehaviorSpec) (account amount : ℕ)
    → Reads (validate_limits ctx spec account amount)
unfolding validate_limits
validate_limits-Reads ctx spec account amount s =
    Ensures-guard (misses_fixed spec.direction spec.fixed_amount amount) amount_mismatch _ _ s (
      Ensures-guard (not (leb spec.min_amount amount && leb amount spec.max_amount))
        amount_out_of_range _ _ s
        (Ensures-guard (is_cooling ctx spec account s.entries) cooldown _ _ s
          (last_guard (is_spent ctx spec account s.entries) daily_limit)))
  where
    last_guard : (c : Bool) (x : Error) → Ensures (λ _ s'. s' ≡ s) (raise_if c x s)
    last_guard true x = Ensures-err _ _ x refl
    last_guard false x = Ensures-ok _ _ tt s refl refl

pub replay-Reads : (type : EntryType) (e : PointsLedgerEntry) → Reads (replay type e)
unfolding replay
replay-Reads type e s =
    Ensures-if (eq_entry_type e.entry_type type) _ _ _ s (λ _. Ensures-ok _ _ e s refl refl)
      (λ _. Ensures-err _ _ idempotency_mismatch refl)

-- A read before the rest leaves the rest to start from the same store.
pub Ensures-read :
    {A B : Type 0} {m : Points A} {Q : B → Store → Type 0} (f : A → Points B) (s : Store)
    → Reads m
    → ((a : A) → Ensures Q (f a s))
    → Ensures Q (continue (m s) f)
Ensures-read {Q} f s r k =
    Ensures-bind (r s) (λ a s' e. subst (λ x. Ensures Q (f a x)) (sym e) (k a))

insert_account-Holds :
    (a : ℕ) (o u : ℤ) (account : PointsAccount) (s : Store)
    → Holds a o u s
    → Ensures (λ _ s'. Holds a o u s') (insert_account account s)
unfolding insert_account
insert_account-Holds a o u account s h =
    elim (Bool-cases
      (any (is_subject account.program_id account.subject_type account.subject_id) s.accounts)) [
        | inl e ↦ Ensures-err _ _ account_exists (rw (e, insert_account) refl)
        | inr e ↦
            Ensures-ok _ _ tt (record s { accounts = s.accounts ++ account ∷ [] })
              (rw (e, insert_account) refl)
              (record {
                keyed = h.keyed;
                below = h.below;
                owned = h.owned;
                matches = h.matches;
                covered = h.covered;
              })
      ]

insert_balance-Holds :
    (a i : ℕ) (o u : ℤ) (s : Store)
    → Holds a o u s
    → Ensures (λ _ s'. Holds a o u s') (insert_balance i s)
unfolding insert_balance
insert_balance-Holds a i o u s h = Ensures-ok _ _ tt _ refl (new_balance-Holds a i 1 o u s h)

open_account-Holds :
    (a : ℕ) (o u : ℤ) (ctx : CommandContext) (program : PointsProgram) (type id : String)
    (found : Option PointsAccount) (s : Store)
    → Holds a o u s
    → Ensures (λ _ s'. Holds a o u s') (open_account ctx program type id found s)
unfolding open_account
open_account-Holds a o u ctx program type id (some account) s h =
    Ensures-bind (bucket_target-Holds a o u ctx.now account.id perpetual none none s h)
      (λ b s' p. Ensures-ok _ _ account s' refl p.0)
open_account-Holds a o u ctx program type id none s h =
    Ensures-bind (insert_account-Holds a o u _ _ (new_id-Holds a o u s h)) (λ _ s1 h1.
      Ensures-bind (insert_balance-Holds a s.next_id o u s1 h1) (λ _ s2 h2.
        Ensures-bind (bucket_target-Holds a o u ctx.now s.next_id perpetual none none s2 h2)
          (λ b s3 p.
            Ensures-bind (emit-Holds a s.next_id o u account_opened s3 p.0)
              (λ _ s4 h4. Ensures-ok _ _ _ s4 refl h4))))

-- An account is found or opened, and the books stay in order.
pub ensure_account-IsSound :
    (ctx : CommandContext) (program : PointsProgram) (type id : String) (s : Store)
    → IsSound s
    → Ensures (λ _ s'. IsSound s') (ensure_account ctx program type id s)
unfolding ensure_account
ensure_account-IsSound ctx program type id s h =
    Ensures-map _ _ _ (λ _ s'. Holds-IsSound 0 s')
      (open_account-Holds 0 (pos 0) (pos 0) ctx program type id _ s (IsSound-Holds 0 s h))

pub insert_entry-err :
    (duplicate : Error) (e : PointsLedgerEntry) (s : Store)
    → any (has_key e.program_id e.idempotency_key) s.entries ≡ true
    → insert_entry duplicate e s ≡ err duplicate
unfolding insert_entry
insert_entry-err duplicate e s c = rw (c, insert_entry) refl

pub insert_entry-ok :
    (duplicate : Error) (e : PointsLedgerEntry) (s : Store)
    → any (has_key e.program_id e.idempotency_key) s.entries ≡ false
    → insert_entry duplicate e s ≡ ok (tt, record s { entries = s.entries ++ e ∷ [] })
unfolding insert_entry
insert_entry-ok duplicate e s c = rw (c, insert_entry) refl

-- A new entry with its allocations, before the rest: the ledger catches up by its amount.
pub booked-Holds :
    {B : Type 0} (a : ℕ) (o o' u : ℤ) (s : Store) (e : PointsLedgerEntry) (out : Allocations)
    (duplicate : Error) (Q : B → Store → Type 0) (rest : Points B)
    → e.id ≡ s.next_id
    → e.account_id ≡ a
    → o ≡ o' +ℤ e.amount
    → Belong a s.buckets out
    → Holds a o u s
    → ((s' : Store) → Holds a o' u s' → s'.buckets ≡ s.buckets → Ensures Q (rest s'))
    → Ensures Q (
        (insert_entry duplicate e >> (add_allocations e.id out >> rest))
          (record s { next_id = s.next_id + 1 }))
unfolding add_allocations
booked-Holds a o o' u s e out duplicate Q rest i own eo b h k =
    elim (Bool-cases (any (has_key e.program_id e.idempotency_key) s.entries)) [
      | inl c ↦
          Ensures-stop _ duplicate
            (insert_entry-err duplicate e (record s { next_id = s.next_id + 1 }) c)
      | inr c ↦
          Ensures-step _ tt (record s { next_id = s.next_id + 1; entries = s.entries ++ e ∷ [] })
            (insert_entry-ok duplicate e (record s { next_id = s.next_id + 1 }) c)
            (k _ (entry-Holds a o o' u s e out i own eo b h) refl)
    ]

-- The same without allocations.
pub booked_alone-Holds :
    {B : Type 0} (a : ℕ) (o o' u : ℤ) (s : Store) (e : PointsLedgerEntry) (duplicate : Error)
    (Q : B → Store → Type 0) (rest : Points B)
    → e.id ≡ s.next_id
    → e.account_id ≡ a
    → o ≡ o' +ℤ e.amount
    → Holds a o u s
    → ((s' : Store) → Holds a o' u s' → Ensures Q (rest s'))
    → Ensures Q ((insert_entry duplicate e >> rest) (record s { next_id = s.next_id + 1 }))
booked_alone-Holds a o o' u s e duplicate Q rest i own eo h k =
    elim (Bool-cases (any (has_key e.program_id e.idempotency_key) s.entries)) [
      | inl c ↦
          Ensures-stop _ duplicate
            (insert_entry-err duplicate e (record s { next_id = s.next_id + 1 }) c)
      | inr c ↦
          Ensures-step _ tt (record s { next_id = s.next_id + 1; entries = s.entries ++ e ∷ [] })
            (insert_entry-ok duplicate e (record s { next_id = s.next_id + 1 }) c)
            (k _ (
              subst
                (λ rows. Holds a o' u (record s {
                  next_id = s.next_id + 1;
                  entries = s.entries ++ e ∷ [];
                  allocations = rows;
                }))
                (append-nil s.allocations) (entry-Holds a o o' u s e [] i own eo tt h)))
    ]
