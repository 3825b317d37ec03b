-- ===== src/Points/Retry/Booked.antt =====
-- What a new entry does to the ledger, and how it is found again.
use aiya_cms.Prelude.{
  ap, ◌≡◌, ◌∙◌, refl, String, Option, none, some, List, [], ◌∷◌, ◌++◌, first, any, arith,
  Bool-cases, inl, inr, str_eq, ==_refl, eq_refl, first-append_none,
}
use aiya_cms.Prelude.Result.{ok, Ensures, Ensures-ok, Ensures-err}
use aiya_cms.Points.Model.{Error, Store, PointsProgram, PointsLedgerEntry, EntryType}
use aiya_cms.Points.Accounts.{
  find_idempotent, has_key, insert_entry, require_program, active_program,
}
use aiya_cms.Points.Ledger.Entries.{insert_entry-ok, insert_entry-err, require_program-Reads}
use aiya_cms.Points.Retry.Frame.{Frame}

-- The ledger has one more entry, and the programs are the same.
abbrev pub Adds : PointsLedgerEntry → Store → Store → Type 0
Adds e s s' = (s'.programs ≡ s.programs) × (s'.entries ≡ s.entries ++ e ∷ [])

-- A new entry of this program, key and type.
abbrev pub Books : PointsProgram → String → EntryType → Store → PointsLedgerEntry → Store → Type 0
Books program key type s e s' =
    (e.program_id ≡ program.id) × (e.idempotency_key ≡ key) × (e.entry_type ≡ type) × Adds e s s'

pub insert_entry-Adds :
    (duplicate : Error) (e : PointsLedgerEntry) (s : Store)
    → Ensures (λ _ s'. Adds e s s') (insert_entry duplicate e s)
insert_entry-Adds duplicate e s =
    elim (Bool-cases (any (has_key e.program_id e.idempotency_key) s.entries)) [
      | inl c ↦ Ensures-err _ _ duplicate (insert_entry-err duplicate e s c)
      | inr c ↦ Ensures-ok _ _ tt _ (insert_entry-ok duplicate e s c) (refl, refl)
    ]

pub Adds-after : (e : PointsLedgerEntry) (s s1 s2 : Store) → Frame s s1 → Adds e s1 s2 → Adds e s s2
Adds-after e s s1 s2 f g = (g.0 ∙ f.0, g.1 ∙ ap (λ es. es ++ e ∷ []) f.1)

pub Adds-before :
    (e : PointsLedgerEntry) (s s1 s2 : Store) → Adds e s s1 → Frame s1 s2 → Adds e s s2
Adds-before e s s1 s2 g f = (f.0 ∙ g.0, f.1 ∙ g.1)

pub Frame-trans : (s s1 s2 : Store) → Frame s s1 → Frame s1 s2 → Frame s s2
Frame-trans s s1 s2 f g = (g.0 ∙ f.0, g.1 ∙ f.1)

-- The new entry is the one that its key finds.
pub find_new :
    (program : PointsProgram) (key : String) (e : PointsLedgerEntry) (es : List PointsLedgerEntry)
    → find_idempotent program.id key es ≡ none
    → e.program_id ≡ program.id
    → e.idempotency_key ≡ key
    → find_idempotent program.id key (es ++ e ∷ []) ≡ some e
unfolding find_idempotent
find_new program key e es h p k =
    first-append_none (has_key program.id key) es (e ∷ []) h
    ∙ rw (p, k) (rw (==_refl program.id, eq_refl key) refl)

-- The same program is found while the programs are the same.
pub require_program_again :
    (key : String) (program : PointsProgram) (s s1 s' : Store)
    → require_program key s ≡ ok (program, s1)
    → s'.programs ≡ s.programs
    → require_program key s' ≡ ok (program, s')
unfolding require_program
require_program_again key program s s1 s' h e =
    ap (λ ps. active_program (first (λ (p : PointsProgram). str_eq p.program_key key) ps) s') e
    ∙ (by_found (first (λ (p : PointsProgram). str_eq p.program_key key) s.programs) h)
  where
    by_found :
        (o : Option PointsProgram)
        → active_program o s ≡ ok (program, s1)
        → active_program o s' ≡ ok (program, s')
    by_found none g = absurd (ground arith)
    by_found (some p) g = ground arith

pub program_read :
    (key : String) (program : PointsProgram) (s s1 : Store)
    → require_program key s ≡ ok (program, s1)
    → s1 ≡ s
program_read key program s s1 h = (require_program-Reads key s).holds program s1 h
