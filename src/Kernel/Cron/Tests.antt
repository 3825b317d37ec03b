-- ===== src/Kernel/Cron/Tests.antt =====
-- The theorems on the cron scheduler: schedules that fire every ten, and one that has no next time.
use aiya_cms.Prelude.{◌+◌, ◌≡◌, refl, min, str_eq, if◌then◌else◌, none, some, List, [], ◌∷◌}
use aiya_cms.Kernel.Cron.{CronSpec, CronStore, Triggers, set_row, catch_up, fired, tick_row, tick}

abbrev every_ten : Triggers
every_ten key none now = some (now + 10)
every_ten key (some t) now = if str_eq key "report.once" then none else some (min t now + 10)

abbrev specs : List CronSpec
specs =
    record { key = "outbox.clean"; timeout_seconds = 60 }
    ∷ record { key = "points.expire"; timeout_seconds = 60 }
    ∷ record { key = "report.once"; timeout_seconds = 60 }
    ∷ []

-- One schedule has missed three times, one waits, and one is over.
abbrev behind : CronStore
behind = record {
  next_run_at =
      set_row "outbox.clean" (some 70)
        (set_row "points.expire" (some 105) (set_row "report.once" (some 90) (λ key. none)));
  tasks = [];
}

catches_up : catch_up (λ t. every_ten "outbox.clean" t 100) 100 101 (some 80) ≡ some 110
unfolding catch_up
catches_up = refl

fires_once : (tick every_ten 100 specs behind).1 ≡ 1
unfolding tick tick_row fired catch_up
fires_once = refl
