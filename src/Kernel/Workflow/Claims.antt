-- ===== src/Kernel/Workflow/Claims.antt =====
-- `WorkflowRepository.claim_due` (inc/kernel/workflow/runner.py) leaves alone what is not due.
use aiya_cms.Prelude.{
  ℕ, ◌+◌, ◌≡◌, ◌≢◌, ◌⊎◌, ◌<◌, ◌≤◌, inl, inr, none, refl, String, Bool, true, false, some, List, [],
  ◌∷◌, arith, seconds,
}
use aiya_cms.Prelude.Result.{ok, Ensures-ok}
use aiya_cms.Prelude.Table.{get}
use aiya_cms.Kernel.Workflow.Model.{
  WorkflowStatus, pending, completed, failed, cancelled, waiting, is_pending, WorkflowInstance,
  WorkflowStore, WorkflowRunner, instance_id,
}
use aiya_cms.Kernel.Workflow.Runner.{is_due, lease_rows, claim_due}

lease_rows-keeps :
    (owner : String) (expires now id : ℕ) (ids : List ℕ) (i : WorkflowInstance)
    (t : List WorkflowInstance)
    → get instance_id id t ≡ some i
    → is_due now i ≡ false
    → get instance_id id (lease_rows owner expires now ids t) ≡ some i
unfolding get lease_rows
lease_rows-keeps owner expires now id ids i [] g d = cc
lease_rows-keeps owner expires now id ids i (q ∷ t) g d =
    by_due (is_due now q) refl (lease_rows-keeps owner expires now id ids i t)
  where
    by_due :
        (b : Bool)
        → is_due now q ≡ b
        → (get instance_id id t ≡ some i
            → is_due now i ≡ false
            → get instance_id id (lease_rows owner expires now ids t) ≡ some i)
        → get instance_id id (lease_rows owner expires now ids (q ∷ t)) ≡ some i
    by_due true f k = ground (arith, k, f)
    by_due false f k = ground (arith, k, f)

-- A row that no claim may take: it is not pending, or does not wake yet, or is leased to someone
-- whose lease lives.
abbrev pub IsKept : ℕ → WorkflowInstance → Type 0
IsKept now i =
    (i.status ≢ pending)
    ⊎ ((i.wake_at ≡ none)
        ⊎ (((t : ℕ) × (i.wake_at ≡ some t) × (now < t))
            ⊎ ((t : ℕ) × (i.lease_expires_at ≡ some t) × (now ≤ t))))

is_pending-eq : (v : WorkflowStatus) → v ≢ pending → is_pending v ≡ false
is_pending-eq pending h = absurd (h refl)
is_pending-eq completed h = refl
is_pending-eq failed h = refl
is_pending-eq cancelled h = refl
is_pending-eq waiting h = refl

kept_is_not_due : (now : ℕ) (i : WorkflowInstance) → IsKept now i → is_due now i ≡ false
unfolding is_due
kept_is_not_due now i (inl h) = rw (is_pending-eq i.status h) refl
kept_is_not_due now i (inr (inl e)) = rw e (ground arith)
kept_is_not_due now i (inr (inr (inl (t, e, l)))) = rw e (ground (arith, l))
kept_is_not_due now i (inr (inr (inr (t, e, l)))) = rw e (ground (arith, l))

-- A row that is not pending, does not wake yet or is leased by someone whose lease lives is not
-- changed by a claim.
pub claim_due-keeps :
    {W : Type 0} (run : WorkflowRunner W) (batch : ℕ) (owner : String) (lease_seconds now id : ℕ)
    (s s' : WorkflowStore W) (claimed : List WorkflowInstance) (i : WorkflowInstance)
    → claim_due run batch owner lease_seconds now s ≡ ok (claimed, s')
    → get instance_id id s.instances ≡ some i
    → IsKept now i
    → get instance_id id s'.instances ≡ some i
unfolding claim_due
claim_due-keeps run batch owner lease_seconds now id s s' claimed i e g k =
    (Ensures-ok (λ _ (q : WorkflowStore _). get instance_id id q.instances ≡ some i) _ _ _ refl
        (lease_rows-keeps owner (now + seconds lease_seconds) now id _ i s.instances g
          (kept_is_not_due now i k))).holds
      claimed s' e
