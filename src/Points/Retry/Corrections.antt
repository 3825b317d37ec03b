-- ===== src/Points/Retry/Corrections.antt =====
-- `ReverseLedgerEntry` and `AdjustPoints` keep the programs, and what a key of the ledger finds.
use aiya_cms.Prelude.{ℕ, String, true, Option, none, some, [], ltb, not, any}
use aiya_cms.Prelude.Int.{ℤ, pos, neg_part, neg, ltb_ℤ}
use aiya_cms.Prelude.Table.{get}
use aiya_cms.Points.Model.{
  PointsProgram, PointsAccount, PointsLedgerEntry, CommandContext, AdjustInput, duplicate_reversal,
  entry_reversed, already_reversed, account_not_found, entry_not_found, reversal_not_allowed,
  reversal_of_reversal, reversal, eq_entry_type, forbidden, zero_amount,
}
use aiya_cms.Points.Limits.{contains}
use aiya_cms.Points.Buckets.{Allocations}
use aiya_cms.Points.Accounts.{
  find_idempotent, restore_buckets, give_fallback, sync_account_state, entry_allocations,
  account_id, entry_id, program_id,
}
use aiya_cms.Points.Commands.{
  undo, reverse_new, reverse_entry, adjust_balance, adjust_new, adjust_points,
}
use aiya_cms.Points.Commands.Reverse.{reverse_unless, reverses, allows}
use aiya_cms.Points.Commands.Adjust.{adjust_unless, default_program_key, is_zero, fill_perpetual}
use aiya_cms.Points.Ledger.Entries.{or_raise-Reads, require_program-Reads}
use aiya_cms.Points.Retry.Frame.{
  Frames, Frames-bind, Frames-pure, Frames-if, fresh_id-Frames, ensure_account-Frames,
  apply_balance-Frames, bucket_target-Frames, consume_buckets-Frames, emit-Frames,
  get_balance-Frames, set_balance-Frames, put_account-Frames, on_buckets-Frames,
  write_buckets-Frames,
}
use aiya_cms.Points.Retry.Grows.{Grows, gets-Frames, frame_first, allocated-Grows}
use aiya_cms.Points.Retry.Bookings.{
  read_first, test_first, announced-Frames, by_key-Frames, replayed-Grows,
}

give_fallback-Frames :
    (ctx : CommandContext) (account : PointsAccount) (left : ℕ)
    → Frames (give_fallback ctx account left)
unfolding give_fallback
give_fallback-Frames ctx account left =
    Frames-if (ltb 0 left) _ _
      (Frames-bind _ _ (bucket_target-Frames _ _ _ _ _) λ b. write_buckets-Frames _)
      (Frames-pure tt)

restore_buckets-Frames :
    (ctx : CommandContext) (account : PointsAccount) (amount : ℕ) (targets : Allocations)
    → Frames (restore_buckets ctx account amount targets)
unfolding restore_buckets sync_account_state
restore_buckets-Frames ctx account amount targets =
    Frames-bind _ _ (get_balance-Frames account.id) λ row.
      Frames-bind _ _ (on_buckets-Frames _) λ left.
        Frames-bind _ _ (give_fallback-Frames ctx account left) λ _.
          Frames-bind _ _ (set_balance-Frames row _)
            λ _. Frames-bind _ _ (put_account-Frames account _) λ _. Frames-pure _

undo-Frames :
    (ctx : CommandContext) (account : PointsAccount) (e : PointsLedgerEntry)
    → Frames (undo ctx account e)
unfolding undo
undo-Frames ctx account e =
    Frames-if (ltb_ℤ (pos 0) e.amount) _ _ (consume_buckets-Frames account _ true) (
      Frames-bind _ _ (gets-Frames (λ s. entry_allocations e.id s.buckets s.allocations)) λ targets.
        Frames-bind _ _ (restore_buckets-Frames ctx account (neg_part e.amount) targets)
          λ new. Frames-pure (new, []))

reverse_new-Grows :
    (ctx : CommandContext) (e : PointsLedgerEntry) (key : String) → Grows (reverse_new ctx e key)
unfolding reverse_new
reverse_new-Grows ctx e key =
    frame_first _ _ (gets-Frames (λ s. any (reverses e.id) s.entries)) λ already.
      test_first already already_reversed _ λ _.
        frame_first _ _ (gets-Frames (λ s. get account_id e.account_id s.accounts)) λ found.
          read_first _ _ (or_raise-Reads found account_not_found) λ account.
            frame_first _ _ (undo-Frames ctx account e) λ drawn.
              frame_first _ _ fresh_id-Frames λ id.
                let row : PointsLedgerEntry = record {
                  id = id;
                  program_id = e.program_id;
                  account_id = e.account_id;
                  amount = neg e.amount;
                  entry_type = reversal;
                  created_at = ctx.now;
                  behavior_key = e.behavior_key;
                  source_type = e.source_type;
                  source_id = e.source_id;
                  idempotency_key = key;
                  entry_metadata = none;
                  reversal_of = some e.id;
                } in
                allocated-Grows duplicate_reversal row id drawn.1 _ (
                  announced-Frames account.id (entry_reversed e.id id (neg e.amount) drawn.0)
                    (record { entry = row; committed = true }))

pub reverse_entry-Grows :
    (ctx : CommandContext) (id : ℕ) (key : String) → Grows (reverse_entry ctx id key)
unfolding reverse_entry
reverse_entry-Grows ctx id key =
    frame_first _ _ (gets-Frames (λ s. get entry_id id s.entries)) λ found.
      read_first _ _ (or_raise-Reads found entry_not_found) λ e.
        frame_first _ _ (gets-Frames (λ s. get program_id e.program_id s.programs)) λ program.
          test_first (not (allows program)) reversal_not_allowed _ λ _.
            test_first (eq_entry_type e.entry_type reversal) reversal_of_reversal _ λ _.
              frame_first _ _ (gets-Frames (λ s. find_idempotent e.program_id key s.entries))
                λ existing. unless e existing
  where
    unless :
        (e : PointsLedgerEntry) (found : Option PointsLedgerEntry)
        → Grows (reverse_unless ctx e key found)
    unless e (some x) = replayed-Grows _ x _
    unless e none = reverse_new-Grows ctx e key

fill_perpetual-Frames :
    (ctx : CommandContext) (account : PointsAccount) (delta : ℕ)
    → Frames (fill_perpetual ctx account delta)
unfolding fill_perpetual
fill_perpetual-Frames ctx account delta =
    Frames-if (ltb 0 delta) _ _
      (Frames-bind _ _ (bucket_target-Frames _ _ _ _ _) λ b. write_buckets-Frames _)
      (Frames-pure tt)

adjust_balance-Frames :
    (ctx : CommandContext) (account : PointsAccount) (amount : ℤ)
    → Frames (adjust_balance ctx account amount)
unfolding adjust_balance
adjust_balance-Frames ctx account amount =
    Frames-if (ltb_ℤ (pos 0) amount) _ _
      (Frames-bind _ _ (apply_balance-Frames account amount true)
        λ new. Frames-bind _ _ (fill_perpetual-Frames ctx account _) λ _. Frames-pure _)
      (consume_buckets-Frames account _ true)

pub adjust_points-Grows :
    (ctx : CommandContext) (input : AdjustInput) → Grows (adjust_points ctx input)
unfolding adjust_points adjust_new
adjust_points-Grows ctx input =
    test_first (not (contains ctx.permissions "points.adjust")) forbidden _ λ _.
      test_first (is_zero input.amount) zero_amount _ λ _.
        read_first _ _ (require_program-Reads (default_program_key input.program_key)) λ program.
          frame_first _ _ (ensure_account-Frames ctx program input.subject_type input.subject_id)
            λ account.
              frame_first _ _ (by_key-Frames program input.idempotency_key)
                λ found. unless program account found
  where
    unless :
        (program : PointsProgram) (account : PointsAccount) (found : Option PointsLedgerEntry)
        → Grows (adjust_unless ctx program account input found)
    unless program account (some e) = replayed-Grows _ e _
    unless program account none =
        frame_first _ _ (adjust_balance-Frames ctx account input.amount) λ drawn.
          frame_first _ _ fresh_id-Frames λ id.
            allocated-Grows _ _ _ _ _
              (Frames-bind _ _ (emit-Frames _ _) λ _. announced-Frames _ _ _)
