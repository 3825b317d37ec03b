-- ===== src/Kernel/Workflow/Growth.antt =====
-- What a workflow store keeps: its instances with their keys, and its signals.
use aiya_cms.Prelude.{
  ℕ, ◌≤◌, ◌≡◌, ◌∙◌, refl, sym, ap, String, Bool, true, false, Option, none, some, List, [], ◌∷◌,
  ◌==◌, arith, any, first, if◌then◌else◌,
}
use aiya_cms.Prelude.Result.{Ensures, Ensures-ok}
use aiya_cms.Prelude.Table.{get, put}
use aiya_cms.Prelude.Distinct.{Distinct}
use aiya_cms.Kernel.Workflow.Model.{
  WorkflowInstance, WorkflowStore, instance_id, signal_row_id, put_instance,
}
use aiya_cms.Kernel.Workflow.Signals.{has_business_key, is_signal}

-- The workflow of the instance with this id.
abbrev pub workflow_at : ℕ → List WorkflowInstance → Option String
workflow_at id [] = none
workflow_at id (i ∷ t) = if i.id == id then some i.workflow_key else workflow_at id t

-- The id of the instance with this business key.
abbrev pub started_id : String → String → List WorkflowInstance → Option ℕ
started_id workflow key [] = none
started_id workflow key (i ∷ t) =
    if has_business_key workflow key i then some i.id else started_id workflow key t

pub get-workflow_at :
    (id : ℕ) (t : List WorkflowInstance) (i : WorkflowInstance)
    → get instance_id id t ≡ some i
    → workflow_at id t ≡ some i.workflow_key
unfolding get
get-workflow_at id [] i h = cc
get-workflow_at id (x ∷ t) i h = ground (arith, h, get-workflow_at id t i)

pub workflow_at-get :
    (id : ℕ) (t : List WorkflowInstance) (workflow : String)
    → workflow_at id t ≡ some workflow
    → (i : WorkflowInstance) × (get instance_id id t ≡ some i) × (i.workflow_key ≡ workflow)
unfolding get
workflow_at-get id [] w h = cc
workflow_at-get id (x ∷ t) w h = by_id (x.id == id) refl (workflow_at-get id t w)
  where
    by_id :
        (b : Bool)
        → (x.id == id) ≡ b
        → (workflow_at id t ≡ some w
            → (i : WorkflowInstance) × (get instance_id id t ≡ some i) × (i.workflow_key ≡ w))
        → (i : WorkflowInstance) × (get instance_id id (x ∷ t) ≡ some i) × (i.workflow_key ≡ w)
    by_id true e k = (x, rw (e, get) refl, cc (rw e at h))
    by_id false e k = let (i, g, s) = k (rw e at h) in (i, rw (e, get) g, s)

pub first-started_id :
    (w k : String) (t : List WorkflowInstance) (i : WorkflowInstance)
    → first (has_business_key w k) t ≡ some i
    → started_id w k t ≡ some i.id
first-started_id w k [] i h = cc
first-started_id w k (x ∷ t) i h = ground (arith, h, first-started_id w k t i)

pub started_id-first :
    (w k : String) (t : List WorkflowInstance) (id : ℕ)
    → started_id w k t ≡ some id
    → (i : WorkflowInstance) × (first (has_business_key w k) t ≡ some i) × (i.id ≡ id)
started_id-first w k [] id h = cc
started_id-first w k (x ∷ t) id h = by_key (has_business_key w k x) refl (started_id-first w k t id)
  where
    by_key :
        (b : Bool)
        → has_business_key w k x ≡ b
        → (started_id w k t ≡ some id
            → (i : WorkflowInstance) × (first (has_business_key w k) t ≡ some i) × (i.id ≡ id))
        → (i : WorkflowInstance) × (first (has_business_key w k) (x ∷ t) ≡ some i) × (i.id ≡ id)
    by_key true e f = (x, rw e refl, cc (rw e at h))
    by_key false e f = let (i, g, s) = f (rw e at h) in (i, rw e g, s)

-- The row ids of the signals are distinct, and those to come are unused.
abbrev pub Numbered : {W : Type 0} → WorkflowStore W → Type 0
Numbered s =
    Distinct signal_row_id s.signals
    × ((i : ℕ) → s.next_id ≤ i → get signal_row_id i s.signals ≡ none)

abbrev pub KeepsSignals : {W : Type 0} → WorkflowStore W → WorkflowStore W → Type 0
KeepsSignals s s' =
    (w : ℕ) (key : String) (id : ℕ)
    → any (is_signal w key id) s.signals ≡ true
    → any (is_signal w key id) s'.signals ≡ true

-- Instances keep their ids, workflows and business keys, and signals are still found.
abbrev pub Grown : {W : Type 0} → WorkflowStore W → WorkflowStore W → Type 0
Grown s s' =
    ((id : ℕ) (w : String)
      → workflow_at id s.instances ≡ some w
      → workflow_at id s'.instances ≡ some w)
    × ((w k : String) (id : ℕ)
        → started_id w k s.instances ≡ some id
        → started_id w k s'.instances ≡ some id)
    × (Numbered s → Numbered s' × KeepsSignals s s')

module _ {W : Type 0} where
  pub Grown-refl : (s : WorkflowStore W) → Grown s s
  Grown-refl s = (λ id w h. h, λ w k id h. h, λ n. (n, λ w k id h. h))

  pub Grown-trans : (s s1 s2 : WorkflowStore W) → Grown s s1 → Grown s1 s2 → Grown s s2
  Grown-trans s s1 s2 f g = (
    λ id w h. g.0 id w (f.0 id w h),
    λ w k id h. g.1 w k id (f.1 w k id h),
    λ n. let (n1, k1) = f.2 n in let (n2, k2) = g.2 n1 in (n2, λ w k id h. k2 w k id (k1 w k id h)),
  )

  -- The row of an instance, as it may be written again: with the keys that it has.
  abbrev pub HasRow : WorkflowInstance → WorkflowStore W → Type 0
  HasRow i s =
      (old : WorkflowInstance) × (get instance_id i.id s.instances ≡ some old)
      × (i.workflow_key ≡ old.workflow_key)
      × (i.business_idempotency_key ≡ old.business_idempotency_key)

workflow_at-put :
    (id : ℕ) (x old : WorkflowInstance) (t : List WorkflowInstance)
    → get instance_id x.id t ≡ some old
    → x.workflow_key ≡ old.workflow_key
    → workflow_at id (put instance_id x t) ≡ workflow_at id t
unfolding get put
workflow_at-put id x old [] g e = cc
workflow_at-put id x old (y ∷ t) g e = ground (arith, g, e, workflow_at-put id x old t)

same_business_key :
    (w k : String) (x y : WorkflowInstance)
    → x.workflow_key ≡ y.workflow_key
    → x.business_idempotency_key ≡ y.business_idempotency_key
    → has_business_key w k x ≡ has_business_key w k y
same_business_key w k x y e f = rw (e, f) refl

started_id-put :
    (w k : String) (x old : WorkflowInstance) (t : List WorkflowInstance)
    → get instance_id x.id t ≡ some old
    → has_business_key w k x ≡ has_business_key w k old
    → started_id w k (put instance_id x t) ≡ started_id w k t
unfolding get put
started_id-put w k x old [] g e = cc
started_id-put w k x old (y ∷ t) g e = by_id (y.id == x.id) refl (started_id-put w k x old t)
  where
    by_id :
        (b : Bool)
        → (y.id == x.id) ≡ b
        → (get instance_id x.id t ≡ some old
            → has_business_key w k x ≡ has_business_key w k old
            → started_id w k (put instance_id x t) ≡ started_id w k t)
        → started_id w k (put instance_id x (y ∷ t)) ≡ started_id w k (y ∷ t)
    by_id true b ih =
        let same : y ≡ old = cc (rw b at g) in
        let ids : x.id ≡ y.id = ground (arith, b) in
        rw (b, put) (rw (e ∙ ap (has_business_key w k) (sym same), ids) refl)
    by_id false b ih = rw (b, put) (rw (ih (rw b at g) e) refl)

pub put_instance-Grown :
    {W : Type 0} (i : WorkflowInstance) (s : WorkflowStore W)
    → HasRow i s
    → Ensures (λ _ s'. Grown s s') (put_instance i s)
unfolding put_instance
put_instance-Grown i s (old, g, e, f) = Ensures-ok _ _ tt _ refl (
  λ id w h. workflow_at-put id i old s.instances g e ∙ h,
  λ w k id h. started_id-put w k i old s.instances g (same_business_key w k i old e f) ∙ h,
  λ n. (n, λ w k id h. h),
)
