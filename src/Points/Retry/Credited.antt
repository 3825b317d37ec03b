-- ===== src/Points/Retry/Credited.antt =====
-- `credit_in_uow`, sent again with the same input.
use aiya_cms.Prelude.{
  subst, ◌+◌, ap, ℕ, ◌≡◌, ◌∙◌, refl, sym, String, true, false, Option, none, some, List, not, ◌-◌,
  first, Bool-cases, inl, inr, str_eq,
}
use aiya_cms.Prelude.Int.{pos, pos_part, ◌-ℤ◌}
use aiya_cms.Prelude.Result.{
  ok, Ensures, Ensures-ok, Ensures-err, Ensures-bind, Ensures-map, Ensures-guard, Ensures-found,
  Ensures-passed, Ensures-known,
}
use aiya_cms.Points.Model.{
  Store, PointsProgram, PointsLedgerEntry, PointBehaviorSpec, CommandContext, CreditDebitInput,
  EntryType, debit, credit, eq_entry_type, eq_state, frozen, account_frozen, duplicate_credit,
  idempotency_mismatch, unknown_behavior, behavior_direction, source_type_not_allowed, adjustment,
  reversal, expiration,
}
use aiya_cms.Points.Limits.{require_behavior, is_credit, contains, credit_routing}
use aiya_cms.Points.Accounts.{replay, find_idempotent, require_program}
use aiya_cms.Points.Commands.{credit_new, credit_in_uow}
use aiya_cms.Points.Commands.Credit.{credit_unless}
use aiya_cms.Points.Ledger.Entries.{validate_limits-Reads, Ensures-read}
use aiya_cms.Points.Service.{Call, serve}
use aiya_cms.Points.Retry.Grows.{Grown}
use aiya_cms.Points.Retry.Kept.{serve-Grown}
use aiya_cms.Points.Retry.Frame.{
  ensure_account-Frames, apply_balance-Frames, fill_bucket-Frames, bucket_target-Frames,
  emit-Frames,
}
use aiya_cms.Points.Retry.Booked.{
  Books, insert_entry-Adds, Adds-after, Adds-before, Frame-trans, find_new, require_program_again,
  program_read,
}

credit_new-Books :
    (ctx : CommandContext) (spec : PointBehaviorSpec) (program : PointsProgram)
    (input : CreditDebitInput) (s : Store)
    → Ensures
        (λ e s'. Books program input.idempotency_key credit s e s')
        (credit_new ctx spec program input s)
unfolding credit_new
credit_new-Books ctx spec program input s =
    Ensures-bind (ensure_account-Frames ctx program input.subject_type input.subject_id s)
      (λ account s1 f1. Ensures-guard (eq_state account.state frozen) account_frozen _ _ s1 (
        Ensures-read _ s1 (validate_limits-Reads ctx spec account.id input.amount) (λ _.
          let routing = credit_routing spec ctx.now input.expires_at in
          Ensures-bind
            (bucket_target-Frames ctx.now account.id routing.bucket_type routing.identity
              routing.expires_at s1)
            (λ bucket s2 f2.
              Ensures-bind (apply_balance-Frames account (pos input.amount) true s2) (λ new s3 f3.
                Ensures-bind
                  (fill_bucket-Frames bucket (pos_part new - pos_part (new -ℤ pos input.amount)) s3)
                  (λ _ s4 f4.
                    Ensures-bind
                      (insert_entry-Adds duplicate_credit _
                        (record s4 { next_id = s4.next_id + 1 }))
                      (λ _ s5 g5. Ensures-bind (emit-Frames account.id _ s5) (λ _ s6 f6.
                        Ensures-ok _ _ _ s6 refl (
                          refl,
                          refl,
                          refl,
                          Adds-after _ s (record s4 { next_id = s4.next_id + 1 }) s6
                              (Frame-trans s s1 s4 f1
                                (Frame-trans s1 s2 s4 f2 (Frame-trans s2 s3 s4 f3 f4)))
                              (Adds-before _ (record s4 { next_id = s4.next_id + 1 }) s5 s6 g5 f6),
                        )))))))))

is_credit_entry :
    (e : PointsLedgerEntry) → eq_entry_type e.entry_type credit ≡ true → e.entry_type ≡ credit
is_credit_entry e t = by_type e.entry_type t
  where
    by_type : (x : EntryType) → eq_entry_type x credit ≡ true → x ≡ credit
    by_type debit h = cc
    by_type credit h = refl
    by_type adjustment h = cc
    by_type reversal h = cc
    by_type expiration h = cc

-- A credit whose key is in use by a credit answers with it.
credit_points-found :
    (ctx : CommandContext) (key : String) (input : CreditDebitInput) (spec : PointBehaviorSpec)
    (program : PointsProgram) (e : PointsLedgerEntry) (s : Store)
    → first (λ (b : PointBehaviorSpec). str_eq b.key key) ctx.behaviors ≡ some spec
    → not (is_credit spec.direction) ≡ false
    → not (contains spec.allowed_source_types input.source_type) ≡ false
    → require_program spec.program_key s ≡ ok (program, s)
    → find_idempotent program.id input.idempotency_key s.entries ≡ some e
    → e.entry_type ≡ credit
    → credit_in_uow ctx key input s ≡ ok (e, s)
unfolding credit_in_uow require_behavior replay
credit_points-found ctx key input spec program e s b c a p f t =
    rw b (rw c (rw a (rw p (rw f (rw t refl)))))

-- The credit sent again is answered with the entry, on every store that grew out of this one.
abbrev Settles : CommandContext → ℕ → String → CreditDebitInput → PointsLedgerEntry → Store → Type 0
Settles ctx later key input e s =
    (t : Store) → Grown s t → credit_in_uow (record ctx { now = later }) key input t ≡ ok (e, t)

credit_unless-Replayed :
    (ctx : CommandContext) (later : ℕ) (key : String) (input : CreditDebitInput)
    (spec : PointBehaviorSpec) (program : PointsProgram) (s : Store)
    (found : Option PointsLedgerEntry)
    → first (λ (b : PointBehaviorSpec). str_eq b.key key) ctx.behaviors ≡ some spec
    → not (is_credit spec.direction) ≡ false
    → not (contains spec.allowed_source_types input.source_type) ≡ false
    → require_program spec.program_key s ≡ ok (program, s)
    → find_idempotent program.id input.idempotency_key s.entries ≡ found
    → Ensures
        (λ e s'. Settles ctx later key input e s')
        (credit_unless ctx spec program input found s)
unfolding replay
credit_unless-Replayed ctx later key input spec program s none b c a p f =
    Ensures-map _ _ _
      (λ e s' q t g.
        credit_points-found (record ctx { now = later }) key input spec program e t b c a
          (require_program_again spec.program_key program s s t p (g.0 ∙ q.3.0))
          (g.1 program.id input.idempotency_key e (
            ap (find_idempotent program.id input.idempotency_key) q.3.1
            ∙ find_new program input.idempotency_key e s.entries f q.0 q.1))
          q.2)
      (credit_new-Books ctx spec program input s)
credit_unless-Replayed ctx later key input spec program s (some e) b c a p f =
    elim (Bool-cases (eq_entry_type e.entry_type credit)) [
      | inl t ↦ Ensures-ok _ _ e s (rw (t, replay) refl) (λ u g.
          credit_points-found (record ctx { now = later }) key input spec program e u b c a
            (require_program_again spec.program_key program s s u p g.0)
            (g.1 program.id input.idempotency_key e f) (is_credit_entry e t))
      | inr t ↦ Ensures-err _ _ idempotency_mismatch (rw (t, replay) refl)
    ]

credit_in_uow-Ensures :
    (ctx : CommandContext) (later : ℕ) (key : String) (input : CreditDebitInput) (s : Store)
    → Ensures (λ e s'. Settles ctx later key input e s') (credit_in_uow ctx key input s)
unfolding credit_in_uow require_behavior
credit_in_uow-Ensures ctx later key input s =
    Ensures-found (first (λ (b : PointBehaviorSpec). str_eq b.key key) ctx.behaviors)
      unknown_behavior _ _ s
      (λ spec b. Ensures-passed (not (is_credit spec.direction)) behavior_direction _ _ s (λ c.
        Ensures-passed (not (contains spec.allowed_source_types input.source_type))
          source_type_not_allowed _ _ s
          (λ a. Ensures-known (require_program spec.program_key s) _ _ (λ program s1 p.
            let same = program_read spec.program_key program s s1 p in
            subst
              (λ (x : Store).
                Ensures (λ e s'. Settles ctx later key input e s')
                  (credit_unless ctx spec program input
                    (find_idempotent program.id input.idempotency_key x.entries) x))
              (sym same)
              (credit_unless-Replayed ctx later key input spec program s _ b c a
                (p ∙ ap (λ (x : Store). ok (program, x)) same) refl)))))

-- A credit that went through, sent again with the same input at any later time and after whatever
-- other calls were served, answers with the same entry and leaves the store as it is.
pub credit_in_uow-Replayed :
    (ctx : CommandContext) (later : ℕ) (key : String) (input : CreditDebitInput)
    (e : PointsLedgerEntry) (s s' : Store) (calls : List (CommandContext × Call))
    → credit_in_uow ctx key input s ≡ ok (e, s')
    → credit_in_uow (record ctx { now = later }) key input (serve calls s') ≡ ok (e, serve calls s')
credit_in_uow-Replayed ctx later key input e s s' calls h =
    (credit_in_uow-Ensures ctx later key input s).holds e s' h (serve calls s')
      (serve-Grown calls s')
