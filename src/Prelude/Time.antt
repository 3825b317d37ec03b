-- ===== src/Prelude/Time.antt =====
-- Time counts microseconds: timedelta(seconds=n) and timedelta(days=n).
use Prim.Native.Nat.{ℕ, ◌*◌}

abbrev pub seconds : ℕ → ℕ
seconds n = n * 1000000

abbrev pub days : ℕ → ℕ
days n = n * 86400000000
