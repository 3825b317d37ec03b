-- ===== src/Points/Limits.antt =====
-- `_require_behavior`, `_credit_routing` and `_validate_limits` of
-- inc/capabilities/points/commands.py.
use aiya_cms.Prelude.{
  seconds, days, ℕ, ◌+◌, String, ◌&&◌, not, Bool, true, false, Option, none, some, List, ◌==◌, ltb,
  leb, str_eq, eq_option, select, first, any, length,
}
use aiya_cms.Prelude.Result.{gets, or_raise, raise_if, ◌>>=◌, ◌>>◌}
use aiya_cms.Points.Model.{
  unknown_behavior, amount_mismatch, amount_out_of_range, cooldown, daily_limit, perpetual,
  expiring, EntryType, credit, debit, eq_entry_type, Routing, PointsLedgerEntry, Points, Direction,
  credits, debits, PointBehaviorSpec, CommandContext,
}

unfoldable pub require_behavior : CommandContext → String → Points PointBehaviorSpec
require_behavior ctx key = or_raise (first (λ b. str_eq b.key key) ctx.behaviors) unknown_behavior

abbrev pub contains : List String → String → Bool
contains keys key = any (λ k. str_eq k key) keys

abbrev pub is_credit : Direction → Bool
is_credit credits = true
is_credit debits = false

abbrev pub entry_type_of : Direction → EntryType
entry_type_of credits = credit
entry_type_of debits = debit

-- `_credit_routing`
unfoldable pub credit_routing : PointBehaviorSpec → ℕ → Option ℕ → Routing
credit_routing spec occurred_at (some e) = record {
  bucket_type = expiring;
  identity = some spec.key;
  expires_at = some e;
}
credit_routing spec occurred_at none = elim spec.expiration_days [
  | none ↦ record { bucket_type = perpetual; identity = none; expires_at = none }
  | some d ↦ record {
    bucket_type = expiring;
    identity = some spec.key;
    expires_at = some (occurred_at + days d);
  }
]

-- Whether a credit of a fixed amount has another amount.
abbrev pub misses_fixed : Direction → Option ℕ → ℕ → Bool
misses_fixed credits (some fixed) amount = not (amount == fixed)
misses_fixed _ _ amount = false

abbrev pub by_behavior : PointBehaviorSpec → ℕ → PointsLedgerEntry → Bool
by_behavior spec account e =
    (e.account_id == account)
    && eq_option str_eq e.behavior_key (some spec.key)
    && eq_entry_type e.entry_type (entry_type_of spec.direction)

-- The entries of the last `cooldown_seconds`: created_at >= now - cooldown.
abbrev pub is_cooling : CommandContext → PointBehaviorSpec → ℕ → List PointsLedgerEntry → Bool
is_cooling ctx spec account t = elim spec.cooldown_seconds [
  | none ↦ false
  | some c ↦ any (λ e. by_behavior spec account e && leb ctx.now (e.created_at + seconds c)) t
]

-- The entries of the local day, at least as many as the limit.
abbrev pub is_spent : CommandContext → PointBehaviorSpec → ℕ → List PointsLedgerEntry → Bool
is_spent ctx spec account t = elim spec.daily_limit [
  | none ↦ false
  | some limit ↦
      let start = ctx.day_start spec.business_timezone ctx.now in
      let today = λ (e : PointsLedgerEntry).
        by_behavior spec account e && leb start e.created_at && ltb e.created_at (start + days 1) in
      leb limit (length (select today t))
]

-- `_validate_limits`
unfoldable pub validate_limits : CommandContext → PointBehaviorSpec → ℕ → ℕ → Points (Unit {0})
validate_limits ctx spec account amount = do
  raise_if (misses_fixed spec.direction spec.fixed_amount amount) amount_mismatch
  raise_if (not (leb spec.min_amount amount && leb amount spec.max_amount)) amount_out_of_range
  cooling ← gets (λ s. is_cooling ctx spec account s.entries)
  raise_if cooling cooldown
  spent ← gets (λ s. is_spent ctx spec account s.entries)
  raise_if spent daily_limit
