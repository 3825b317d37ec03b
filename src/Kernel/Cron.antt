-- ===== src/Kernel/Cron.antt =====
-- The cron scheduler (inc/kernel/tasks/cron.py). The triggers are a third party's.
pub mod Ticks
mod Tests
use aiya_cms.Prelude.{
  ℕ, zero, suc, ◌+◌, String, Bool, true, false, Option, none, some, List, [], ◌∷◌, ◌++◌, ltb, leb,
  str_eq, if◌then◌else◌,
}

-- A registered schedule.
pub record CronSpec : Type 0 where
  pub key : String
  pub timeout_seconds : ℕ

-- The task of a tick: its key is the cron key with `.tick`.
pub record CronTask : Type 0 where
  pub cron_key : String
  pub scheduled_for : ℕ
  pub next_run_at : ℕ
  pub timeout_seconds : ℕ

-- The table of `CronState`, whose key is unique, as `next_run_at` by key, and the tasks that were
-- enqueued.
pub record CronStore : Type 0 where
  pub next_run_at : String → Option ℕ
  pub tasks : List CronTask

-- `get_next_fire_time(previous, now)` of the trigger of a key.
abbrev pub Triggers : Type 0
Triggers = String → Option ℕ → ℕ → Option ℕ

abbrev pub set_row : String → Option ℕ → (String → Option ℕ) → String → Option ℕ
set_row key value rows k = if str_eq key k then value else rows k

-- The loop `while next_fire is not None and next_fire <= current`, on fuel.
unfoldable pub catch_up : (Option ℕ → Option ℕ) → ℕ → ℕ → Option ℕ → Option ℕ
catch_up next now zero fire = fire
catch_up next now (suc n) none = none
catch_up next now (suc n) (some t) =
    let later = catch_up next now n (next (some t)) in if leb t now then later else some t

unfoldable pub fired : CronSpec → ℕ → ℕ → ℕ → CronStore → CronStore
fired spec anchor now fire s = record {
  next_run_at = set_row spec.key (some fire) s.next_run_at;
  tasks =
      s.tasks
      ++ record {
        cron_key = spec.key;
        scheduled_for = anchor;
        next_run_at = now;
        timeout_seconds = spec.timeout_seconds;
      }
        ∷ [];
}

-- A schedule that is due, with the time that it fires next. Without one the row stays: the deletion
-- is a coroutine that is never awaited.
abbrev pub fire_at : CronSpec → ℕ → ℕ → CronStore → Option ℕ → CronStore × ℕ
fire_at spec anchor now s none = (s, 0)
fire_at spec anchor now s (some fire) = (fired spec anchor now fire s, 1)

-- A schedule without a row gets one.
abbrev pub first_row : CronSpec → CronStore → Option ℕ → CronStore × ℕ
first_row spec s none = (s, 0)
first_row spec s (some fire) =
    (record s { next_run_at = set_row spec.key (some fire) s.next_run_at }, 0)

module _ (triggers : Triggers) (now : ℕ) where
  -- One schedule, given its row; how many tasks it enqueued.
  unfoldable pub tick_row : CronSpec → CronStore → Option ℕ → CronStore × ℕ
  tick_row spec s none = first_row spec s (triggers spec.key none now)
  tick_row spec s (some anchor) =
      if ltb now anchor
      then (s, 0)
      else fire_at spec anchor now s (
          catch_up (λ t. triggers spec.key t now) now (suc now)
            (triggers spec.key (some anchor) now))

  -- `tick`: the schedules in the order of their keys, each in its own unit of work.
  unfoldable pub tick : List CronSpec → CronStore → CronStore × ℕ
  unfolding tick_row
  tick [] s = (s, 0)
  tick (spec ∷ rest) s =
      let (s', n) = tick_row spec s (s.next_run_at spec.key) in
      let (s'', m) = tick rest s' in (s'', n + m)
