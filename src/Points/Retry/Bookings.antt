-- ===== src/Points/Retry/Bookings.antt =====
-- `CreditPoints` and `DebitPoints` keep the programs, and what a key of the ledger finds.
use aiya_cms.Prelude.{ℕ, String, Bool, true, false, Option, none, some, not, ◌||◌}
use aiya_cms.Prelude.Result.{pure, gets, raise_if, ◌>>=◌}
use aiya_cms.Points.Model.{
  Error, Points, PointsProgram, PointsLedgerEntry, PointBehaviorSpec, CommandContext,
  CreditDebitInput, EntryType, emit, Payload, behavior_direction, source_type_not_allowed,
  account_frozen, frozen, debt, eq_state, account_not_debitable,
}
use aiya_cms.Points.Limits.{is_credit, contains}
use aiya_cms.Points.Accounts.{Reply, find_idempotent, replay}
use aiya_cms.Points.Commands.{credit_new, credit_in_uow, debit_new, debit_points}
use aiya_cms.Points.Commands.Credit.{credit_unless}
use aiya_cms.Points.Commands.Debit.{debit_unless}
use aiya_cms.Points.Ledger.Entries.{
  Reads, require_program-Reads, require_behavior-Reads, validate_limits-Reads, replay-Reads,
}
use aiya_cms.Points.Retry.Frame.{
  Frames, Frames-bind, Frames-pure, Frames-Reads, Frames-raise_if, fresh_id-Frames,
  ensure_account-Frames, apply_balance-Frames, fill_bucket-Frames, bucket_target-Frames,
  consume_buckets-Frames, emit-Frames,
}
use aiya_cms.Points.Retry.Grows.{
  Grows, Grows-bind, Grows-Frames, gets-Frames, frame_first, pure-Grows, insert_entry-Grows,
  allocated-Grows,
}

pub read_first :
    {A B : Type 0} (m : Points A) (f : A → Points B)
    → Reads m
    → ((a : A) → Grows (f a))
    → Grows (m >>= f)
read_first m f r k = frame_first m f (Frames-Reads m r) k

pub test_first :
    {B : Type 0} (c : Bool) (x : Error) (f : Unit {0} → Points B)
    → ((u : Unit {0}) → Grows (f u))
    → Grows (raise_if c x >>= f)
test_first c x f k = frame_first (raise_if c x) f (Frames-raise_if c x) k

pub announced-Frames : (a : ℕ) (p : Payload) (r : Reply) → Frames (emit a p >>= λ _. pure r)
announced-Frames a p r = Frames-bind _ _ (emit-Frames a p) (λ _. Frames-pure r)

pub by_key-Frames :
    (program : PointsProgram) (key : String)
    → Frames (gets (λ s. find_idempotent program.id key s.entries))
by_key-Frames program key = gets-Frames (λ s. find_idempotent program.id key s.entries)

credit_new-Grows :
    (ctx : CommandContext) (spec : PointBehaviorSpec) (program : PointsProgram)
    (input : CreditDebitInput)
    → Grows (credit_new ctx spec program input)
unfolding credit_new
credit_new-Grows ctx spec program input =
    frame_first _ _ (ensure_account-Frames ctx program input.subject_type input.subject_id)
      λ account. test_first (eq_state account.state frozen) account_frozen _ λ _.
        read_first _ _ (validate_limits-Reads ctx spec account.id input.amount) λ _.
          frame_first _ _ (bucket_target-Frames _ _ _ _ _) λ bucket.
            frame_first _ _ (apply_balance-Frames account _ true) λ new.
              frame_first _ _ (fill_bucket-Frames bucket _) λ _.
                frame_first _ _ fresh_id-Frames λ id.
                  Grows-bind _ _ (insert_entry-Grows _ _)
                    λ _. frame_first _ _ (emit-Frames _ _) λ _. pure-Grows _

pub credit_in_uow-Grows :
    (ctx : CommandContext) (key : String) (input : CreditDebitInput)
    → Grows (credit_in_uow ctx key input)
unfolding credit_in_uow
credit_in_uow-Grows ctx key input = read_first _ _ (require_behavior-Reads ctx key) λ spec.
    test_first (not (is_credit spec.direction)) behavior_direction _ λ _.
      test_first (not (contains spec.allowed_source_types input.source_type))
        source_type_not_allowed _
        λ _. read_first _ _ (require_program-Reads spec.program_key) λ program.
          frame_first _ _ (by_key-Frames program input.idempotency_key)
            λ found. unless spec program found
  where
    unless :
        (spec : PointBehaviorSpec) (program : PointsProgram) (found : Option PointsLedgerEntry)
        → Grows (credit_unless ctx spec program input found)
    unless spec program (some e) = Grows-Frames _ (Frames-Reads _ (replay-Reads _ e))
    unless spec program none = credit_new-Grows ctx spec program input

debit_new-Grows :
    (ctx : CommandContext) (spec : PointBehaviorSpec) (program : PointsProgram)
    (input : CreditDebitInput)
    → Grows (debit_new ctx spec program input)
unfolding debit_new
debit_new-Grows ctx spec program input =
    frame_first _ _ (ensure_account-Frames ctx program input.subject_type input.subject_id)
      λ account.
        test_first (eq_state account.state frozen || eq_state account.state debt)
          account_not_debitable _
          λ _. read_first _ _ (validate_limits-Reads ctx spec account.id input.amount) λ _.
            frame_first _ _ (consume_buckets-Frames account input.amount false) λ drawn.
              frame_first _ _ fresh_id-Frames
                λ id. allocated-Grows _ _ _ _ _ (announced-Frames _ _ _)

pub replayed-Grows :
    (type : EntryType) (e : PointsLedgerEntry) (f : PointsLedgerEntry → Reply)
    → Grows (replay type e >>= λ x. pure (f x))
replayed-Grows type e f = read_first _ _ (replay-Reads type e) λ x. pure-Grows (f x)

pub debit_points-Grows :
    (ctx : CommandContext) (key : String) (input : CreditDebitInput)
    → Grows (debit_points ctx key input)
unfolding debit_points
debit_points-Grows ctx key input = read_first _ _ (require_behavior-Reads ctx key) λ spec.
    test_first (is_credit spec.direction) behavior_direction _ λ _.
      read_first _ _ (require_program-Reads spec.program_key) λ program.
        frame_first _ _ (by_key-Frames program input.idempotency_key)
          λ found. unless spec program found
  where
    unless :
        (spec : PointBehaviorSpec) (program : PointsProgram) (found : Option PointsLedgerEntry)
        → Grows (debit_unless ctx spec program input found)
    unless spec program (some e) = replayed-Grows _ e _
    unless spec program none = debit_new-Grows ctx spec program input
