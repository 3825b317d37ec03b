-- ===== src/Points/Retry/Grows.antt =====
-- What no command takes back: the programs, and the entries that a key finds.
use aiya_cms.Prelude.{
  ap, ◌≡◌, ◌∙◌, refl, ℕ, String, Bool, true, false, some, [], ◌∷◌, any, Bool-cases, inl, inr,
  if◌then◌else◌, first-append_some,
}
use aiya_cms.Prelude.Result.{
  pure, gets, Ensures, Ensures-ok, Ensures-err, Ensures-bind, Ensures-map, ◌>>=◌,
}
use aiya_cms.Points.Model.{Error, Points, Store, PointsLedgerEntry}
use aiya_cms.Points.Buckets.{Allocations}
use aiya_cms.Points.Accounts.{find_idempotent, has_key, insert_entry, add_allocations}
use aiya_cms.Points.Ledger.Entries.{insert_entry-ok, insert_entry-err}
use aiya_cms.Points.Retry.Frame.{Frames, Frames-pure, add_allocations-Frames}

-- The programs are the same, and a key finds what it found.
abbrev pub Grown : Store → Store → Type 0
Grown s s' =
    (s'.programs ≡ s.programs)
    × ((program : ℕ) (key : String) (e : PointsLedgerEntry)
        → find_idempotent program key s.entries ≡ some e
        → find_idempotent program key s'.entries ≡ some e)

pub Grown-refl : (s : Store) → Grown s s
Grown-refl s = (refl, λ p k e h. h)

pub Grown-trans : (s s1 s2 : Store) → Grown s s1 → Grown s1 s2 → Grown s s2
Grown-trans s s1 s2 f g = (g.0 ∙ f.0, λ p k e h. g.1 p k e (f.1 p k e h))

abbrev pub Grows : {A : Type 0} → Points A → Type 0
Grows {A} m = (s : Store) → Ensures {A = A} (λ _ s'. Grown s s') (m s)

pub Grows-bind :
    {A B : Type 0} (m : Points A) (f : A → Points B)
    → Grows m
    → ((a : A) → Grows (f a))
    → Grows (m >>= f)
Grows-bind m f p k s =
    Ensures-bind (p s) (λ a s1 h. Ensures-map _ _ _ (λ b s2 g. Grown-trans s s1 s2 h g) (k a s1))

pub Grows-Frames : {A : Type 0} (m : Points A) → Frames m → Grows m
Grows-Frames m f s =
    Ensures-map _ _ _ (λ a s' h. (h.0, λ p k e g. ap (find_idempotent p k) h.1 ∙ g)) (f s)

pub Grows-if :
    {A : Type 0} (c : Bool) (m n : Points A) → Grows m → Grows n → Grows (if c then m else n)
Grows-if true m n p q = p
Grows-if false m n p q = q

pub gets-Frames : {A : Type 0} (f : Store → A) → Frames (gets f)
gets-Frames f s = Ensures-ok _ _ (f s) s refl (refl, refl)

-- A call that leaves programs and ledger alone, before the rest.
pub frame_first :
    {A B : Type 0} (m : Points A) (f : A → Points B)
    → Frames m
    → ((a : A) → Grows (f a))
    → Grows (m >>= f)
frame_first m f p k = Grows-bind m f (Grows-Frames m p) k

pub pure-Grows : {A : Type 0} (a : A) → Grows (pure a)
pure-Grows a = Grows-Frames (pure a) (Frames-pure a)

pub insert_entry-Grows : (x : Error) (e : PointsLedgerEntry) → Grows (insert_entry x e)
unfolding find_idempotent
insert_entry-Grows x e s =
    elim (Bool-cases (any (has_key e.program_id e.idempotency_key) s.entries)) [
      | inl c ↦ Ensures-err _ _ x (insert_entry-err x e s c)
      | inr c ↦
          Ensures-ok _ _ tt _ (insert_entry-ok x e s c)
            (refl, λ p k d h. first-append_some (has_key p k) s.entries (e ∷ []) d h)
    ]

-- The end of each command: allocations and events, after its entry.
pub allocated-Grows :
    {A : Type 0} (x : Error) (e : PointsLedgerEntry) (i : ℕ) (out : Allocations) (rest : Points A)
    → Frames rest
    → Grows (insert_entry x e >>= λ _. add_allocations i out >>= λ _. rest)
allocated-Grows x e i out rest p =
    Grows-bind _ _ (insert_entry-Grows x e)
      (λ _. frame_first _ _ (add_allocations-Frames i out) (λ _. Grows-Frames rest p))
