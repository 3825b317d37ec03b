-- ===== src/Kernel/Outbox/Delivery.antt =====
-- Claims of messages, and messages that are settled.
use aiya_cms.Prelude.{
  seconds, ℕ, ◌+◌, ◌≤◌, ◌≡◌, ◌≢◌, ◌∙◌, ◌⊎◌, refl, sym, String, false, some, List, arith, All,
  Bool-cases, Option-cases, inl, inr, str_eq, eq_option, ◌&&◌,
}
use aiya_cms.Prelude.Table.{get, get-put_ne, key-get}
use aiya_cms.Kernel.Lease.{claimed, finished, dead, eq_status, LeasedRow, row_id, is_due, due_ids}
use aiya_cms.Kernel.Lease.Claims.{
  live_is_not_due, claim_rows-keeps, Distinct, HeldBy, owned_rows-HeldBy,
}
use aiya_cms.Kernel.Outbox.{claim_due, mark, stale, standing}

-- While the lease of a claimed message lives, no claim by any worker changes its row.
pub claim_due-Exclusive :
    (batch lease_seconds now expires i : ℕ) (owner other : String) (t : List LeasedRow)
    (r : LeasedRow)
    → get row_id i t ≡ some r
    → HeldBy owner expires r
    → now ≤ expires
    → get row_id i (claim_due batch other lease_seconds now t).1 ≡ some r
unfolding claim_due
claim_due-Exclusive batch lease_seconds now expires i owner other t r g h l =
    claim_rows-keeps other (now + seconds lease_seconds) now (due_ids now batch t) i t r g
      (live_is_not_due owner expires now r h l)

-- In a table with distinct ids, every message that a claim returns is claimed by the caller, with a
-- lease of the length asked for.
pub claim_due-HeldBy :
    (batch lease_seconds now : ℕ) (owner : String) (t : List LeasedRow)
    → Distinct t
    → All (HeldBy owner (now + seconds lease_seconds)) (claim_due batch owner lease_seconds now t).0
unfolding claim_due
claim_due-HeldBy batch lease_seconds now owner t d =
    owned_rows-HeldBy owner (now + seconds lease_seconds) now batch t d

-- A message that is delivered or dead.
abbrev pub IsSettled : LeasedRow → Type 0
IsSettled r = (r.status ≡ finished) ⊎ (r.status ≡ dead)

pub settled_is_not_due : (now : ℕ) (r : LeasedRow) → IsSettled r → is_due now r ≡ false
unfolding is_due
settled_is_not_due now r (inl e) = ground (arith, e)
settled_is_not_due now r (inr e) = ground (arith, e)

pub settled_is_not_held :
    (owner : String) (now : ℕ) (r : LeasedRow) → IsSettled r → standing owner now (some r) ≡ stale
unfolding standing
settled_is_not_held owner now r (inl e) = ground (arith, e)
settled_is_not_held owner now r (inr e) = ground (arith, e)

-- A row is found again after a mark on another one.
pub mark-other :
    (i : ℕ) (message : LeasedRow) (change : LeasedRow → LeasedRow) (t : List LeasedRow)
    → ((q : LeasedRow) → (change q).id ≡ q.id)
    → message.id ≢ i
    → get row_id i (mark message change t) ≡ get row_id i t
unfolding mark
mark-other i message change t same ne = elim (Option-cases (get row_id message.id t)) [
  | inl e ↦ rw (e, mark) refl
  | inr (cur, e) ↦
      elim (Bool-cases
        (eq_status cur.status claimed && eq_option str_eq cur.lease_owner message.lease_owner)) [
          | inl c ↦
              rw (e, mark)
                (rw c (
                  get-put_ne row_id i (change cur) t
                    (λ p. ne (sym (key-get row_id message.id t cur e) ∙ sym (same cur) ∙ p))))
          | inr c ↦ rw (e, mark) (rw c refl)
        ]
]
