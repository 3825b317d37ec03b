-- ===== src/Points/Retry/Debited.antt =====
-- `debit_points`, sent again with the same input.
use aiya_cms.Prelude.{
  subst, ◌+◌, ap, ℕ, ◌≡◌, ◌∙◌, refl, sym, String, true, false, Option, none, some, List, ◌||◌,
  first, Bool-cases, inl, inr, str_eq,
}
use aiya_cms.Prelude.Result.{
  ok, Ensures, Ensures-ok, Ensures-err, Ensures-bind, Ensures-map, Ensures-guard, Ensures-found,
  Ensures-passed, Ensures-known,
}
use aiya_cms.Points.Model.{
  Store, PointsProgram, PointsLedgerEntry, PointBehaviorSpec, CommandContext, CreditDebitInput,
  EntryType, debit, credit, eq_entry_type, eq_state, frozen, debt, account_not_debitable,
  duplicate_debit, idempotency_mismatch, unknown_behavior, behavior_direction, adjustment, reversal,
  expiration,
}
use aiya_cms.Points.Limits.{require_behavior, is_credit}
use aiya_cms.Points.Accounts.{Reply, replay, find_idempotent, require_program}
use aiya_cms.Points.Commands.{debit_new, debit_points}
use aiya_cms.Points.Commands.Debit.{debit_unless}
use aiya_cms.Points.Ledger.Entries.{validate_limits-Reads, Ensures-read}
use aiya_cms.Points.Service.{Call, serve}
use aiya_cms.Points.Retry.Grows.{Grown}
use aiya_cms.Points.Retry.Kept.{serve-Grown}
use aiya_cms.Points.Retry.Frame.{
  ensure_account-Frames, consume_buckets-Frames, add_allocations-Frames, emit-Frames,
}
use aiya_cms.Points.Retry.Booked.{
  Books, insert_entry-Adds, Adds-after, Adds-before, Frame-trans, find_new, require_program_again,
  program_read,
}

debit_new-Books :
    (ctx : CommandContext) (spec : PointBehaviorSpec) (program : PointsProgram)
    (input : CreditDebitInput) (s : Store)
    → Ensures
        (λ r s'. Books program input.idempotency_key debit s r.entry s')
        (debit_new ctx spec program input s)
unfolding debit_new
debit_new-Books ctx spec program input s =
    Ensures-bind (ensure_account-Frames ctx program input.subject_type input.subject_id s)
      (λ account s1 f1.
        Ensures-guard (eq_state account.state frozen || eq_state account.state debt)
          account_not_debitable _ _ s1
          (Ensures-read _ s1 (validate_limits-Reads ctx spec account.id input.amount) (λ _.
            Ensures-bind (consume_buckets-Frames account input.amount false s1) (λ r s2 f2.
              Ensures-bind
                (insert_entry-Adds duplicate_debit _ (record s2 { next_id = s2.next_id + 1 }))
                (λ _ s3 g3. Ensures-bind (add_allocations-Frames s2.next_id r.1 s3) (λ _ s4 f4.
                  Ensures-bind (emit-Frames account.id _ s4) (λ _ s5 f5. Ensures-ok _ _ _ s5 refl (
                    refl,
                    refl,
                    refl,
                    Adds-after _ s (record s2 { next_id = s2.next_id + 1 }) s5
                        (Frame-trans s s1 s2 f1 f2)
                        (Adds-before _ (record s2 { next_id = s2.next_id + 1 }) s3 s5 g3
                          (Frame-trans s3 s4 s5 f4 f5)),
                  ))))))))

is_debit : (e : PointsLedgerEntry) → eq_entry_type e.entry_type debit ≡ true → e.entry_type ≡ debit
is_debit e t = by_type e.entry_type t
  where
    by_type : (x : EntryType) → eq_entry_type x debit ≡ true → x ≡ debit
    by_type debit h = refl
    by_type credit h = cc
    by_type adjustment h = cc
    by_type reversal h = cc
    by_type expiration h = cc

-- A debit whose key is in use by a debit answers with it, and commits nothing.
debit_points-found :
    (ctx : CommandContext) (key : String) (input : CreditDebitInput) (spec : PointBehaviorSpec)
    (program : PointsProgram) (e : PointsLedgerEntry) (s : Store)
    → first (λ (b : PointBehaviorSpec). str_eq b.key key) ctx.behaviors ≡ some spec
    → is_credit spec.direction ≡ false
    → require_program spec.program_key s ≡ ok (program, s)
    → find_idempotent program.id input.idempotency_key s.entries ≡ some e
    → e.entry_type ≡ debit
    → debit_points ctx key input s ≡ ok (record { entry = e; committed = false }, s)
unfolding debit_points require_behavior replay
debit_points-found ctx key input spec program e s b c p f t = rw b (rw c (rw p (rw f (rw t refl))))

-- The debit sent again is answered with the entry, on every store that grew out of this one.
abbrev Settles : CommandContext → ℕ → String → CreditDebitInput → Reply → Store → Type 0
Settles ctx later key input r s =
    (t : Store)
    → Grown s t
    → debit_points (record ctx { now = later }) key input t
      ≡ ok (record { entry = r.entry; committed = false }, t)

debit_unless-Replayed :
    (ctx : CommandContext) (later : ℕ) (key : String) (input : CreditDebitInput)
    (spec : PointBehaviorSpec) (program : PointsProgram) (s : Store)
    (found : Option PointsLedgerEntry)
    → first (λ (b : PointBehaviorSpec). str_eq b.key key) ctx.behaviors ≡ some spec
    → is_credit spec.direction ≡ false
    → require_program spec.program_key s ≡ ok (program, s)
    → find_idempotent program.id input.idempotency_key s.entries ≡ found
    → Ensures
        (λ r s'. Settles ctx later key input r s')
        (debit_unless ctx spec program input found s)
unfolding replay
debit_unless-Replayed ctx later key input spec program s none b c p f =
    Ensures-map _ _ _
      (λ r s' q t g.
        debit_points-found (record ctx { now = later }) key input spec program r.entry t b c
          (require_program_again spec.program_key program s s t p (g.0 ∙ q.3.0))
          (g.1 program.id input.idempotency_key r.entry (
            ap (find_idempotent program.id input.idempotency_key) q.3.1
            ∙ find_new program input.idempotency_key r.entry s.entries f q.0 q.1))
          q.2)
      (debit_new-Books ctx spec program input s)
debit_unless-Replayed ctx later key input spec program s (some e) b c p f =
    elim (Bool-cases (eq_entry_type e.entry_type debit)) [
      | inl t ↦
          Ensures-ok _ _ (record { entry = e; committed = false }) s (rw (t, replay) refl)
            (λ u g.
              debit_points-found (record ctx { now = later }) key input spec program e u b c
                (require_program_again spec.program_key program s s u p g.0)
                (g.1 program.id input.idempotency_key e f) (is_debit e t))
      | inr t ↦ Ensures-err _ _ idempotency_mismatch (rw (t, replay) refl)
    ]

debit_points-Ensures :
    (ctx : CommandContext) (later : ℕ) (key : String) (input : CreditDebitInput) (s : Store)
    → Ensures (λ r s'. Settles ctx later key input r s') (debit_points ctx key input s)
unfolding debit_points require_behavior
debit_points-Ensures ctx later key input s =
    Ensures-found (first (λ (b : PointBehaviorSpec). str_eq b.key key) ctx.behaviors)
      unknown_behavior _ _ s
      (λ spec b. Ensures-passed (is_credit spec.direction) behavior_direction _ _ s (λ c.
        Ensures-known (require_program spec.program_key s) _ _ (λ program s1 p.
          let same = program_read spec.program_key program s s1 p in
          subst
            (λ (x : Store).
              Ensures (λ r s'. Settles ctx later key input r s')
                (debit_unless ctx spec program input
                  (find_idempotent program.id input.idempotency_key x.entries) x))
            (sym same)
            (debit_unless-Replayed ctx later key input spec program s _ b c
              (p ∙ ap (λ (x : Store). ok (program, x)) same) refl))))

-- A debit that went through, sent again with the same input at any later time and after whatever
-- other calls were served, answers with the same entry, commits nothing and leaves the store as it
-- is.
pub debit_points-Replayed :
    (ctx : CommandContext) (later : ℕ) (key : String) (input : CreditDebitInput) (r : Reply)
    (s s' : Store) (calls : List (CommandContext × Call))
    → debit_points ctx key input s ≡ ok (r, s')
    → debit_points (record ctx { now = later }) key input (serve calls s')
      ≡ ok (record { entry = r.entry; committed = false }, serve calls s')
debit_points-Replayed ctx later key input r s s' calls h =
    (debit_points-Ensures ctx later key input s).holds r s' h (serve calls s')
      (serve-Grown calls s')
