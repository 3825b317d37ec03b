-- ===== src/Points/Ledger/Corrections.antt =====
-- `reverse_entry` and `adjust_points` under the invariant.
use aiya_cms.Prelude.{
  ℕ, ◌+◌, ◌-◌, ◌≡◌, ◌∙◌, sym, subst, refl, ap, true, not, Option, none, some, List, [], ◌∷◌, arith,
  any, String, Bool-cases, inl, inr, ltb, ◌==◌, All,
}
use aiya_cms.Prelude.Int.{ℤ, pos, neg, ◌-ℤ◌, pos_part, neg_part, ltb_ℤ, zero-+ℤ, -ℤ_zero, -ℤ_parts}
use aiya_cms.Prelude.Result.{
  Ensures, Ensures-ok, Ensures-bind, Ensures-if, Ensures-map, Ensures-guard, Ensures-found,
}
use aiya_cms.Prelude.Table.{get, key-get}
use aiya_cms.Points.Model.{
  PointsAccount, PointsProgram, PointsBucket, PointsLedgerEntry, PointsDebitAllocation, Store,
  CommandContext, AdjustInput, entry_not_found, reversal_not_allowed, reversal_of_reversal,
  already_reversed, account_not_found, duplicate_reversal, reversal, eq_entry_type, perpetual,
  adjustment, duplicate_adjustment, forbidden, zero_amount,
}
use aiya_cms.Points.Buckets.{bucket_id}
use aiya_cms.Points.Buckets.Sums.{Belong}
use aiya_cms.Points.Limits.{contains}
use aiya_cms.Points.Accounts.{account_id, entry_id, program_id, entry_allocations, add_target}
use aiya_cms.Points.Commands.{
  undo, reverse_new, reverse_entry, adjust_balance, adjust_new, adjust_points,
}
use aiya_cms.Points.Commands.Reverse.{reverse_unless, allows, reverses}
use aiya_cms.Points.Commands.Adjust.{fill_perpetual, adjust_unless, is_zero, default_program_key}
use aiya_cms.Points.Ledger.{balance_at, Holds, IsSound, OwnedBy}
use aiya_cms.Points.Ledger.Steps.{Holds-IsSound}
use aiya_cms.Points.Ledger.Moves.{emit-Holds, bucket_target-Holds}
use aiya_cms.Points.Ledger.Balances.{
  consume_buckets-Holds, apply_balance-Holds, same_fill, pour-Holds,
}
use aiya_cms.Points.Ledger.Restores.{restore_buckets-Holds}
use aiya_cms.Points.Ledger.Entries.{
  require_program-Reads, replay-Reads, Ensures-read, ensure_account-IsSound, booked-Holds,
}
use aiya_cms.Points.Ledger.Commands.{KeepsBooks}

-- The allocations of an entry name buckets of its account.
entry_allocations-Belong :
    (n : ℕ) (e : PointsLedgerEntry) (t : List PointsBucket) (es : List PointsLedgerEntry)
    (rs : List PointsDebitAllocation)
    → get entry_id e.id es ≡ some e
    → All (OwnedBy n t es) rs
    → Belong e.account_id t (entry_allocations e.id t rs)
unfolding entry_allocations
entry_allocations-Belong n e t es [] g o = tt
entry_allocations-Belong n e t es (r ∷ rs) g o =
    let rest = entry_allocations-Belong n e t es rs g o.1 in
    elim (Bool-cases (r.entry_id == e.id)) [
      | inl same ↦
          let (b, q, own) =
            o.0.1 e
              (ap (λ i. get entry_id i es) (let p : r.entry_id ≡ e.id = ground arith in p) ∙ g) in
          rw (same, entry_allocations)
            (rw (q, add_target)
              (
                (b, ap (λ i. get bucket_id i t) (key-get bucket_id r.bucket_id t b q) ∙ q, own),
                rest,
              ))
      | inr other ↦ rw (other, entry_allocations) rest
    ]

undo-Holds :
    (ctx : CommandContext) (account : PointsAccount) (entry : PointsLedgerEntry) (s : Store)
    → account.id ≡ entry.account_id
    → get entry_id entry.id s.entries ≡ some entry
    → IsSound s
    → Ensures
        (λ r s'. Holds account.id (neg entry.amount) (pos 0) s' × Belong account.id s'.buckets r.1)
        (undo ctx account entry s)
unfolding undo
undo-Holds ctx account entry s i g h =
    Ensures-if (ltb_ℤ (pos 0) entry.amount) _ _ _ s
      (λ credited.
        let same : neg (pos (pos_part entry.amount)) ≡ neg entry.amount = ground arith in
        Ensures-map _ _ _ (λ r t q. (subst (λ x. Holds account.id x (pos 0) t) same q.0, q.1))
          (consume_buckets-Holds account (pos_part entry.amount) true s h))
      (λ debited.
        let same : pos (neg_part entry.amount) ≡ neg entry.amount = ground arith in
        Ensures-bind
          (restore_buckets-Holds ctx account (neg_part entry.amount)
            (entry_allocations entry.id s.buckets s.allocations) s h
            (subst (λ a. Belong a s.buckets (entry_allocations entry.id s.buckets s.allocations))
              (sym i)
              (entry_allocations-Belong s.next_id entry s.buckets s.entries s.allocations g
                h.owned)))
          (λ new t q.
            Ensures-ok _ _ (new, []) t refl (subst (λ x. Holds account.id x (pos 0) t) same q, tt)))

reverse_new-KeepsBooks :
    (ctx : CommandContext) (entry : PointsLedgerEntry) (key : String) (s : Store)
    → get entry_id entry.id s.entries ≡ some entry
    → IsSound s
    → Ensures (λ _ s'. IsSound s') (reverse_new ctx entry key s)
unfolding reverse_new
reverse_new-KeepsBooks ctx entry key s g h =
    Ensures-guard (any (reverses entry.id) s.entries) already_reversed _ _ s (
      Ensures-found (get account_id entry.account_id s.accounts) account_not_found _ _ s
        (λ account e.
          let i = key-get account_id entry.account_id s.accounts account e in
          Ensures-bind (undo-Holds ctx account entry s i g h) (λ r s1 p.
            booked-Holds account.id (neg entry.amount) (pos 0) (pos 0) s1 _ r.1 duplicate_reversal _
              _ refl (sym i) (sym (zero-+ℤ (neg entry.amount))) p.1 p.0
              (λ s2 q _.
                Ensures-bind (emit-Holds account.id account.id (pos 0) (pos 0) _ s2 q)
                  (λ _ s3 u. Ensures-ok _ _ _ s3 refl (Holds-IsSound account.id s3 u))))))

reverse_unless-KeepsBooks :
    (ctx : CommandContext) (entry : PointsLedgerEntry) (key : String)
    (existing : Option PointsLedgerEntry) (s : Store)
    → get entry_id entry.id s.entries ≡ some entry
    → IsSound s
    → Ensures (λ _ s'. IsSound s') (reverse_unless ctx entry key existing s)
reverse_unless-KeepsBooks ctx entry key (some e) s g h =
    Ensures-read _ s (replay-Reads reversal e) (λ row. Ensures-ok _ _ _ s refl h)
reverse_unless-KeepsBooks ctx entry key none s g h = reverse_new-KeepsBooks ctx entry key s g h

pub reverse_entry-KeepsBooks :
    (ctx : CommandContext) (id : ℕ) (key : String) → KeepsBooks (reverse_entry ctx id key)
unfolding reverse_entry
reverse_entry-KeepsBooks ctx id key s h =
    Ensures-found (get entry_id id s.entries) entry_not_found _ _ s (λ entry e.
      Ensures-guard (not (allows (get program_id entry.program_id s.programs))) reversal_not_allowed
        _ _ s
        (Ensures-guard (eq_entry_type entry.entry_type reversal) reversal_of_reversal _ _ s (
          reverse_unless-KeepsBooks ctx entry key _ s
            (ap (λ i. get entry_id i s.entries) (key-get entry_id id s.entries entry e) ∙ e) h)))

fill_perpetual-Holds :
    (ctx : CommandContext) (account : PointsAccount) (d new : ℤ) (s : Store)
    → ltb_ℤ (pos 0) d ≡ true
    → balance_at account.id s.balances ≡ new
    → Holds account.id d d s
    → Ensures
        (λ _ s'. Holds account.id d (pos 0) s')
        (fill_perpetual ctx account (pos_part new - pos_part (new -ℤ d)) s)
unfolding fill_perpetual
fill_perpetual-Holds ctx account d new s up e h =
    let delta = pos_part new - pos_part (new -ℤ d) in
    let level : pos_part (balance_at account.id s.balances -ℤ d) + delta
        ≡ pos_part (balance_at account.id s.balances -ℤ pos 0) =
      rw e (ground (arith, -ℤ_parts new d, -ℤ_zero new)) in
    Ensures-if (ltb 0 delta) _ _ _ s
      (λ _.
        Ensures-bind (bucket_target-Holds account.id d d ctx.now account.id perpetual none none s h)
          (λ b s1 p.
            Ensures-map _ _ _ (λ _ t q. q.0)
              (pour-Holds account.id delta d d (pos 0) b s1 (rw p.2 level) p.1 p.0)))
      (λ none_left. Ensures-ok _ _ tt s refl (same_fill account.id d d (pos 0) s (ground arith) h))

adjust_balance-Holds :
    (ctx : CommandContext) (account : PointsAccount) (amount : ℤ) (s : Store)
    → IsSound s
    → Ensures
        (λ r s'. Holds account.id amount (pos 0) s' × Belong account.id s'.buckets r.1)
        (adjust_balance ctx account amount s)
unfolding adjust_balance
adjust_balance-Holds ctx account amount s h =
    Ensures-if (ltb_ℤ (pos 0) amount) _ _ _ s
      (λ up. Ensures-bind (apply_balance-Holds account amount true [] s h tt) (λ new s1 p.
        Ensures-bind (fill_perpetual-Holds ctx account amount new s1 up p.2 p.0)
          (λ _ s2 q. Ensures-ok _ _ (new, []) s2 refl (q, tt))))
      (λ down.
        let same : neg (pos (neg_part amount)) ≡ amount = ground arith in
        Ensures-map _ _ _ (λ r t q. (subst (λ x. Holds account.id x (pos 0) t) same q.0, q.1))
          (consume_buckets-Holds account (neg_part amount) true s h))

adjust_new-KeepsBooks :
    (ctx : CommandContext) (program : PointsProgram) (account : PointsAccount) (input : AdjustInput)
    → KeepsBooks (adjust_new ctx program account input)
unfolding adjust_new
adjust_new-KeepsBooks ctx program account input s h =
    Ensures-bind (adjust_balance-Holds ctx account input.amount s h) (λ r s1 p.
      booked-Holds account.id input.amount (pos 0) (pos 0) s1 _ r.1 duplicate_adjustment _ _ refl
        refl (sym (zero-+ℤ input.amount)) p.1 p.0
        (λ s2 q _. Ensures-bind (emit-Holds account.id account.id (pos 0) (pos 0) _ s2 q) (λ _ s3 u.
          Ensures-bind (emit-Holds account.id account.id (pos 0) (pos 0) _ s3 u)
            (λ _ s4 v. Ensures-ok _ _ _ s4 refl (Holds-IsSound account.id s4 v)))))

adjust_unless-KeepsBooks :
    (ctx : CommandContext) (program : PointsProgram) (account : PointsAccount) (input : AdjustInput)
    (existing : Option PointsLedgerEntry)
    → KeepsBooks (adjust_unless ctx program account input existing)
adjust_unless-KeepsBooks ctx program account input (some e) s h =
    Ensures-read _ s (replay-Reads adjustment e) (λ row. Ensures-ok _ _ _ s refl h)
adjust_unless-KeepsBooks ctx program account input none s h =
    adjust_new-KeepsBooks ctx program account input s h

pub adjust_points-KeepsBooks :
    (ctx : CommandContext) (input : AdjustInput) → KeepsBooks (adjust_points ctx input)
unfolding adjust_points
adjust_points-KeepsBooks ctx input s h =
    Ensures-guard (not (contains ctx.permissions "points.adjust")) forbidden _ _ s (
      Ensures-guard (is_zero input.amount) zero_amount _ _ s (
        Ensures-read _ s (require_program-Reads (default_program_key input.program_key)) (λ program.
          Ensures-bind (ensure_account-IsSound ctx program input.subject_type input.subject_id s h)
            (λ account s1 h1. adjust_unless-KeepsBooks ctx program account input _ s1 h1))))
