-- ===== src/Kernel/Cron/Ticks.antt =====
-- A tick fires what is due once, and leaves every schedule at rest.
use aiya_cms.Prelude.{ℕ, suc, ◌<◌, ◌≤◌, ◌≡◌, ◌⊎◌, String, Option, none, some}
use aiya_cms.Kernel.Cron.{CronSpec, CronStore, Triggers, catch_up, fired}

-- A trigger that fired in the past does not fire at that time or before it again; it may have no
-- next time at all.
abbrev pub MovesOn : ℕ → (Option ℕ → Option ℕ) → Type 0
MovesOn now next = (t u : ℕ) → t ≤ now → next (some t) ≡ some u → t < u

module _ (triggers : Triggers) (now : ℕ) where
  -- The time that a schedule with this row fires next, if it is due.
  abbrev pub coming : String → ℕ → Option ℕ
  coming key anchor =
      catch_up (λ t. triggers key t now) now (suc now) (triggers key (some anchor) now)

  -- A time to come, or a due one of a trigger that does not fire any more.
  abbrev pub Rests : CronStore → String → Type 0
  Rests s key =
      (t : ℕ) × (s.next_run_at key ≡ some t) × ((now < t) ⊎ ((t ≤ now) × (coming key t ≡ none)))

module _ (triggers : Triggers) (now : ℕ)
    (on : (key : String) → MovesOn now (λ t. triggers key t now)) where
  -- What a schedule with a row comes to: nothing while it rests, else one task.
  Ticked : CronSpec → CronStore → CronStore × ℕ → Type 0
  Ticked spec s r =
      ((r ≡ (s, 0)) × Rests triggers now s spec.key)
      ⊎ ((anchor : ℕ) × (u : ℕ) × (now < u) × (r ≡ (fired spec anchor now u s, 1)))

  abbrev HasRow : CronStore → CronSpec → Type 0
  HasRow s spec = (t : ℕ) × (s.next_run_at spec.key ≡ some t)
