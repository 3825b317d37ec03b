-- ===== src/Kernel/Lease/Claims.antt =====
-- What claiming does to the rows of a leased table.
use aiya_cms.Prelude.{
  subst, ℕ, zero, suc, ◌≤◌, ◌≡◌, ◌∙◌, refl, sym, ap, String, Bool, true, false, none, some, List,
  [], ◌∷◌, arith, ◌==◌, ◌&&◌, map, take, select, All, Bool-cases, inl, inr, ==_refl, if◌then◌else◌,
}
use aiya_cms.Prelude.Table.{get}
use aiya_cms.Kernel.Lease.{
  claimed, LeasedRow, row_id, is_due, insert_by, sort_by, due_ids, has_id, leased, claim_rows,
  owned_rows, id_le, due_le,
}

module _ (owner : String) (expires now : ℕ) (ids : List ℕ) where
  abbrev step : LeasedRow → LeasedRow
  step r = if has_id ids r && is_due now r then leased owner expires r else r

  -- A row that is not due is as it was.
  pub claim_rows-keeps :
      (i : ℕ) (t : List LeasedRow) (r : LeasedRow)
      → get row_id i t ≡ some r
      → is_due now r ≡ false
      → get row_id i (claim_rows owner expires now ids t) ≡ some r
  unfolding get claim_rows
  claim_rows-keeps i [] r g h = cc
  claim_rows-keeps i (q ∷ t) r g h = ground (arith, claim_rows-keeps i t r)

-- No two rows have the same id.
abbrev pub Distinct : List LeasedRow → Type 0
Distinct [] = Unit
Distinct (r ∷ t) = (get row_id r.id t ≡ none) × Distinct t

-- A row as it stands in the table.
abbrev pub Stands : List LeasedRow → LeasedRow → Type 0
Stands t r = get row_id r.id t ≡ some r

All-weaken :
    (P Q : LeasedRow → Type 0) (t : List LeasedRow)
    → ((r : LeasedRow) → P r → Q r)
    → All P t
    → All Q t
All-weaken P Q [] f h = tt
All-weaken P Q (r ∷ t) f h = (f r h.0, All-weaken P Q t f h.1)

Stands-cons :
    (q r : LeasedRow) (t : List LeasedRow)
    → get row_id q.id t ≡ none
    → Stands t r
    → Stands (q ∷ t) r
unfolding get
Stands-cons q r t h s = ground arith

All-Stands : (t : List LeasedRow) → Distinct t → All (Stands t) t
unfolding get
All-Stands [] d = tt
All-Stands (q ∷ t) d = (
  rw (==_refl q.id) refl,
  All-weaken (Stands t) (Stands (q ∷ t)) t (λ r. Stands-cons q r t d.0) (All-Stands t d.1),
)

All-select :
    (P Q : LeasedRow → Type 0) (p : LeasedRow → Bool) (t : List LeasedRow)
    → ((r : LeasedRow) → p r ≡ true → P r → Q r)
    → All P t
    → All Q (select p t)
All-select P Q p [] f h = tt
All-select P Q p (r ∷ t) f h = elim (Bool-cases (p r)) [
  | inl e ↦ rw e (f r e h.0, All-select P Q p t f h.1)
  | inr e ↦ rw e (All-select P Q p t f h.1)
]

All-insert :
    (P : LeasedRow → Type 0) (le : LeasedRow → LeasedRow → Bool) (r : LeasedRow)
    (t : List LeasedRow)
    → P r
    → All P t
    → All P (insert_by le r t)
unfolding insert_by
All-insert P le r [] h k = (h, tt)
All-insert P le r (q ∷ t) h k = elim (Bool-cases (le r q)) [
  | inl e ↦ rw e (h, k)
  | inr e ↦ rw e (k.0, All-insert P le r t h k.1)
]

All-sort :
    (P : LeasedRow → Type 0) (le : LeasedRow → LeasedRow → Bool) (t : List LeasedRow)
    → All P t
    → All P (sort_by le t)
unfolding sort_by
All-sort P le [] h = tt
All-sort P le (r ∷ t) h = All-insert P le r (sort_by le t) h.0 (All-sort P le t h.1)

-- An id that is among those of rows that stand in the table and pass a test.
ids_pass :
    (p : LeasedRow → Bool) (n : ℕ) (t u : List LeasedRow) (r : LeasedRow)
    → All (λ q. Stands t q × (p q ≡ true)) u
    → Stands t r
    → has_id (map row_id (take n u)) r ≡ true
    → p r ≡ true
ids_pass p zero t u r h s e = cc
ids_pass p (suc n) t [] r h s e = cc
ids_pass p (suc n) t (q ∷ u) r h s e = elim (Bool-cases (q.id == r.id)) [
  | inl same ↦
      let ids : q.id ≡ r.id = ground arith in
      let found : get row_id r.id t ≡ some q = sym (ap (λ i. get row_id i t) ids) ∙ h.0.0 in
      cc (h.0.1, found, s)
  | inr other ↦ ids_pass p n t u r h.1 s (ground arith)
]

-- The ids that are picked are ids of due rows alone.
pub due_ids-IsDue :
    (now batch : ℕ) (t : List LeasedRow) (r : LeasedRow)
    → Distinct t
    → Stands t r
    → has_id (due_ids now batch t) r ≡ true
    → is_due now r ≡ true
unfolding due_ids
due_ids-IsDue now batch t r d s e =
    ids_pass (is_due now) batch t (sort_by due_le (select (is_due now) t)) r
      (All-sort _ due_le (select (is_due now) t)
        (All-select (Stands t) _ (is_due now) t (λ q p k. (k, p)) (All-Stands t d)))
      s e

-- The row is held by the owner until `expires`.
abbrev pub HeldBy : String → ℕ → LeasedRow → Type 0
HeldBy owner expires r =
    (r.status ≡ claimed) × (r.lease_owner ≡ some owner) × (r.lease_expires_at ≡ some expires)

All-map_step :
    (P Q : LeasedRow → Type 0) (f : LeasedRow → LeasedRow) (t : List LeasedRow)
    → ((r : LeasedRow) → P r → Q (f r))
    → All P t
    → All Q (map f t)
All-map_step P Q f [] h k = tt
All-map_step P Q f (r ∷ t) h k = (h r k.0, All-map_step P Q f t h k.1)

step-HeldBy :
    (owner : String) (expires now : ℕ) (ids : List ℕ) (r : LeasedRow)
    → (has_id ids r ≡ true → is_due now r ≡ true)
    → has_id ids (step owner expires now ids r) ≡ true
    → HeldBy owner expires (step owner expires now ids r)
step-HeldBy owner expires now ids r f e = elim (Bool-cases (has_id ids r)) [
  | inl a ↦
      let both : (has_id ids r && is_due now r) ≡ true = cc (a, f a) in
      subst (HeldBy owner expires) (sym (ap (λ c. if c then leased owner expires r else r) both))
        (refl, refl, refl)
  | inr a ↦
      let neither : (has_id ids r && is_due now r) ≡ false = cc a in
      let kept = ap (λ c. if c then leased owner expires r else r) neither in
      absurd (cc (kept, a, e))
]

-- Every row that the claim returns is claimed by this owner, under the new lease.
pub owned_rows-HeldBy :
    (owner : String) (expires now batch : ℕ) (t : List LeasedRow)
    → Distinct t
    → All (HeldBy owner expires) (
        owned_rows owner
          (due_ids now batch t)
          (claim_rows owner expires now (due_ids now batch t) t))
unfolding owned_rows claim_rows
owned_rows-HeldBy owner expires now batch t d =
    let ids = due_ids now batch t in
    All-sort _ id_le _ (
      All-select (λ r. has_id ids r ≡ true → HeldBy owner expires r) _ _
        (claim_rows owner expires now ids t) (λ r e k. k (ground arith))
        (All-map_step (Stands t) _ (step owner expires now ids) t
          (λ r s. step-HeldBy owner expires now ids r (λ e. due_ids-IsDue now batch t r d s e))
          (All-Stands t d)))

-- A row under a live lease is not due.
pub live_is_not_due :
    (owner : String) (expires now : ℕ) (r : LeasedRow)
    → HeldBy owner expires r
    → now ≤ expires
    → is_due now r ≡ false
unfolding is_due
live_is_not_due owner expires now r h l = ground (arith, h.2)
