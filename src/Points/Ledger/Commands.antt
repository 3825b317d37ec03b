-- ===== src/Points/Ledger/Commands.antt =====
-- `credit_points` and `debit_points` under the invariant.
use aiya_cms.Prelude.{
  ℕ, ◌+◌, ◌-◌, ◌≡◌, sym, subst, refl, true, false, not, ◌||◌, Option, none, some, [], ◌∷◌, arith,
  String, ltb,
}
use aiya_cms.Prelude.Int.{ℤ, pos, neg, ◌-ℤ◌, pos_part, zero-+ℤ, -ℤ_zero, -ℤ_parts}
use aiya_cms.Prelude.Result.{
  Ensures, Ensures-ok, Ensures-bind, Ensures-if, Ensures-map, Ensures-guard,
}
use aiya_cms.Points.Model.{
  Points, PointsProgram, PointsBucket, PointsLedgerEntry, Store, CommandContext, PointBehaviorSpec,
  CreditDebitInput, account_frozen, frozen, debt, eq_state, account_not_debitable, duplicate_credit,
  duplicate_debit, credit, debit, behavior_direction, source_type_not_allowed,
}
use aiya_cms.Points.Buckets.Sums.{RowOf}
use aiya_cms.Points.Limits.{is_credit, contains, credit_routing}
use aiya_cms.Points.Commands.{credit_new, credit_in_uow, credit_points, debit_new, debit_points}
use aiya_cms.Points.Commands.Credit.{fill_bucket, credit_unless}
use aiya_cms.Points.Commands.Debit.{debit_unless}
use aiya_cms.Points.Ledger.{balance_at, Holds, IsSound}
use aiya_cms.Points.Ledger.Steps.{Holds-IsSound, IsSound-Holds}
use aiya_cms.Points.Ledger.Moves.{emit-Holds, bucket_target-Holds}
use aiya_cms.Points.Ledger.Balances.{
  consume_buckets-Holds, apply_balance-Holds, same_fill, pour-Holds,
}
use aiya_cms.Points.Ledger.Entries.{
  require_program-Reads, require_behavior-Reads, validate_limits-Reads, replay-Reads, Ensures-read,
  ensure_account-IsSound, booked-Holds, booked_alone-Holds,
}

abbrev pub KeepsBooks : {A : Type 0} → Points A → Type 0
KeepsBooks {A} m = (s : Store) → IsSound s → Ensures {A = A} (λ _ s'. IsSound s') (m s)

-- The excess over the debt enters the bucket, and the buckets are level with the balance again.
fill_bucket-Holds :
    (a : ℕ) (k : ℕ) (new : ℤ) (bucket : PointsBucket) (s : Store)
    → balance_at a s.balances ≡ new
    → Holds a (pos k) (pos k) s
    → RowOf a s.buckets bucket.id
    → Ensures
        (λ _ s'. Holds a (pos k) (pos 0) s')
        (fill_bucket bucket (pos_part new - pos_part (new -ℤ pos k)) s)
unfolding fill_bucket
fill_bucket-Holds a k new bucket s e h r =
    let delta = pos_part new - pos_part (new -ℤ pos k) in
    let level : pos_part (balance_at a s.balances -ℤ pos k) + delta
        ≡ pos_part (balance_at a s.balances -ℤ pos 0) =
      rw e (ground (arith, -ℤ_parts new (pos k), -ℤ_zero new)) in
    Ensures-if (ltb 0 delta) _ _ _ s
      (λ _.
        Ensures-map _ _ _ (λ _ t q. q.0)
          (pour-Holds a delta (pos k) (pos k) (pos 0) bucket s level r h))
      (λ none_left.
        Ensures-ok _ _ tt s refl (same_fill a (pos k) (pos k) (pos 0) s (ground arith) h))

credit_new-KeepsBooks :
    (ctx : CommandContext) (spec : PointBehaviorSpec) (program : PointsProgram)
    (input : CreditDebitInput)
    → KeepsBooks (credit_new ctx spec program input)
unfolding credit_new
credit_new-KeepsBooks ctx spec program input s h =
    Ensures-bind (ensure_account-IsSound ctx program input.subject_type input.subject_id s h)
      (λ account s1 h1. Ensures-guard (eq_state account.state frozen) account_frozen _ _ s1 (
        Ensures-read _ s1 (validate_limits-Reads ctx spec account.id input.amount) (λ _.
          let routing = credit_routing spec ctx.now input.expires_at in
          Ensures-bind
            (bucket_target-Holds account.id (pos 0) (pos 0) ctx.now account.id routing.bucket_type
              routing.identity routing.expires_at s1 (IsSound-Holds account.id s1 h1))
            (λ bucket s2 p.
              Ensures-bind
                (apply_balance-Holds account (pos input.amount) true ((bucket, 0) ∷ []) s2
                  (Holds-IsSound account.id s2 p.0) (p.1, tt))
                (λ new s3 q.
                  Ensures-bind
                    (fill_bucket-Holds account.id input.amount new bucket s3 q.2 q.0 q.1.0)
                    (λ _ s4 r.
                      booked_alone-Holds account.id (pos input.amount) (pos 0) (pos 0) s4 _
                        duplicate_credit _ _ refl refl (sym (zero-+ℤ (pos input.amount))) r
                        (λ s5 t.
                          Ensures-bind (emit-Holds account.id account.id (pos 0) (pos 0) _ s5 t)
                            (λ _ s6 u.
                              Ensures-ok _ _ _ s6 refl (Holds-IsSound account.id s6 u)))))))))

credit_unless-KeepsBooks :
    (ctx : CommandContext) (spec : PointBehaviorSpec) (program : PointsProgram)
    (input : CreditDebitInput) (existing : Option PointsLedgerEntry)
    → KeepsBooks (credit_unless ctx spec program input existing)
credit_unless-KeepsBooks ctx spec program input (some e) s h =
    Ensures-map _ _ _ (λ _ t q. subst IsSound (sym q) h) (replay-Reads credit e s)
credit_unless-KeepsBooks ctx spec program input none s h =
    credit_new-KeepsBooks ctx spec program input s h

pub credit_in_uow-KeepsBooks :
    (ctx : CommandContext) (key : String) (input : CreditDebitInput)
    → KeepsBooks (credit_in_uow ctx key input)
unfolding credit_in_uow
credit_in_uow-KeepsBooks ctx key input s h =
    Ensures-read _ s (require_behavior-Reads ctx key) (λ spec.
      Ensures-guard (not (is_credit spec.direction)) behavior_direction _ _ s (
        Ensures-guard (not (contains spec.allowed_source_types input.source_type))
          source_type_not_allowed _ _ s
          (Ensures-read _ s (require_program-Reads spec.program_key)
            (λ program. credit_unless-KeepsBooks ctx spec program input _ s h))))

pub credit_points-KeepsBooks :
    (ctx : CommandContext) (key : String) (input : CreditDebitInput)
    → KeepsBooks (credit_points ctx key input)
unfolding credit_points
credit_points-KeepsBooks ctx key input s h =
    Ensures-bind (credit_in_uow-KeepsBooks ctx key input s h) (λ e t q. Ensures-ok _ _ _ t refl q)

debit_new-KeepsBooks :
    (ctx : CommandContext) (spec : PointBehaviorSpec) (program : PointsProgram)
    (input : CreditDebitInput)
    → KeepsBooks (debit_new ctx spec program input)
unfolding debit_new
debit_new-KeepsBooks ctx spec program input s h =
    Ensures-bind (ensure_account-IsSound ctx program input.subject_type input.subject_id s h)
      (λ account s1 h1.
        Ensures-guard (eq_state account.state frozen || eq_state account.state debt)
          account_not_debitable _ _ s1
          (Ensures-read _ s1 (validate_limits-Reads ctx spec account.id input.amount) (λ _.
            Ensures-bind (consume_buckets-Holds account input.amount false s1 h1) (λ r s2 p.
              booked-Holds account.id (neg (pos input.amount)) (pos 0) (pos 0) s2 _ r.1
                duplicate_debit _ _ refl refl (sym (zero-+ℤ (neg (pos input.amount)))) p.1 p.0
                (λ s3 q _.
                  Ensures-bind (emit-Holds account.id account.id (pos 0) (pos 0) _ s3 q)
                    (λ _ s4 u. Ensures-ok _ _ _ s4 refl (Holds-IsSound account.id s4 u)))))))

debit_unless-KeepsBooks :
    (ctx : CommandContext) (spec : PointBehaviorSpec) (program : PointsProgram)
    (input : CreditDebitInput) (existing : Option PointsLedgerEntry)
    → KeepsBooks (debit_unless ctx spec program input existing)
debit_unless-KeepsBooks ctx spec program input (some e) s h =
    Ensures-read _ s (replay-Reads debit e) (λ entry. Ensures-ok _ _ _ s refl h)
debit_unless-KeepsBooks ctx spec program input none s h =
    debit_new-KeepsBooks ctx spec program input s h

pub debit_points-KeepsBooks :
    (ctx : CommandContext) (key : String) (input : CreditDebitInput)
    → KeepsBooks (debit_points ctx key input)
unfolding debit_points
debit_points-KeepsBooks ctx key input s h =
    Ensures-read _ s (require_behavior-Reads ctx key) (λ spec.
      Ensures-guard (is_credit spec.direction) behavior_direction _ _ s (
        Ensures-read _ s (require_program-Reads spec.program_key)
          (λ program. debit_unless-KeepsBooks ctx spec program input _ s h)))
