-- ===== src/Points/Model.antt =====
-- The tables of the points capability (inc/capabilities/points/models.py), its errors, its events
-- and the context of a command.
use aiya_cms.Prelude.{ℕ, String, Bool, true, false, Option, List, [], ◌∷◌, ◌++◌}
use aiya_cms.Prelude.Int.{ℤ}
use aiya_cms.Prelude.Result.{Tx, modify}

-- The error codes that the commands raise, `points.` left off.
pub data Error : Type 0 where
  forbidden unknown_behavior program_inactive account_not_opened account_exists : Error
  balance_missing insufficient_balance balance_conflict bucket_conflict : Error
  behavior_direction source_type_not_allowed idempotency_mismatch account_frozen : Error
  duplicate_credit duplicate_debit duplicate_reversal duplicate_adjustment : Error
  account_not_debitable entry_not_found reversal_not_allowed reversal_of_reversal : Error
  already_reversed account_not_found zero_amount expiration_conflict : Error
  rebuild_inconsistent amount_mismatch amount_out_of_range cooldown daily_limit : Error

pub data ProgramStatus : Type 0 where
  program_active program_inactive_status : ProgramStatus

pub data AccountState : Type 0 where
  active debt frozen : AccountState

pub data BucketType : Type 0 where
  perpetual expiring : BucketType

pub data EntryType : Type 0 where
  credit debit adjustment reversal expiration : EntryType

-- `a == b` on the string-valued columns.
abbrev pub eq_state : AccountState → AccountState → Bool
eq_state active active = true
eq_state debt debt = true
eq_state frozen frozen = true
eq_state _ _ = false

abbrev pub eq_bucket_type : BucketType → BucketType → Bool
eq_bucket_type perpetual perpetual = true
eq_bucket_type expiring expiring = true
eq_bucket_type _ _ = false

abbrev pub eq_entry_type : EntryType → EntryType → Bool
eq_entry_type credit credit = true
eq_entry_type debit debit = true
eq_entry_type adjustment adjustment = true
eq_entry_type reversal reversal = true
eq_entry_type expiration expiration = true
eq_entry_type _ _ = false

abbrev pub is_active : ProgramStatus → Bool
is_active program_active = true
is_active program_inactive_status = false

pub record PointsProgram : Type 0 where
  pub id : ℕ
  pub program_key : String
  pub status : ProgramStatus
  pub allow_admin_reversal : Bool

pub record PointsAccount : Type 0 where
  pub id : ℕ
  pub program_id : ℕ
  pub subject_type : String
  pub subject_id : String
  pub state : AccountState
  pub version : ℕ

pub record PointsBalance : Type 0 where
  pub account_id : ℕ
  pub balance : ℤ
  pub version : ℕ

-- The table's check constraint holds `amount` at 0 or more.
pub record PointsBucket : Type 0 where
  pub id : ℕ
  pub account_id : ℕ
  pub bucket_type : BucketType
  pub expiration_identity : Option String
  pub expires_at : Option ℕ
  pub created_at : ℕ
  pub amount : ℕ
  pub version : ℕ

pub record PointsDebitAllocation : Type 0 where
  pub entry_id : ℕ
  pub bucket_id : ℕ
  pub amount : ℕ

-- What a credit notes of its bucket in the metadata of its entry.
pub record Routing : Type 0 where
  pub bucket_type : BucketType
  pub identity : Option String
  pub expires_at : Option ℕ

pub record PointsLedgerEntry : Type 0 where
  pub id : ℕ
  pub program_id : ℕ
  pub account_id : ℕ
  pub amount : ℤ
  pub entry_type : EntryType
  pub created_at : ℕ
  pub behavior_key : Option String
  pub source_type : Option String
  pub source_id : Option String
  pub idempotency_key : String
  pub entry_metadata : Option Routing
  pub reversal_of : Option ℕ

-- The payloads of the events, and the audit entry.
pub data Payload : Type 0 where
  account_opened : Payload
  credited debited : (entry_id : ℕ) (amount balance : ℤ) → Payload
  entry_reversed : (entry_id reversal_id : ℕ) (amount balance : ℤ) → Payload
  bucket_expired : (entry_id bucket_id : ℕ) (amount balance : ℤ) → Payload
  account_frozen_event : AccountState → Payload
  audit_adjusted : (amount : ℤ) (entry_id : ℕ) → Payload
  audit_frozen audit_unfrozen : Payload

pub record Event : Type 0 where
  pub aggregate_id : ℕ
  pub payload : Payload

-- The tables, and the next row id: uuid7 never gives the same id twice.
pub record Store : Type 0 where
  pub programs : List PointsProgram
  pub accounts : List PointsAccount
  pub balances : List PointsBalance
  pub buckets : List PointsBucket
  pub allocations : List PointsDebitAllocation
  pub entries : List PointsLedgerEntry
  pub outbox : List Event
  pub next_id : ℕ

abbrev pub Points : Type 0 → Type 0
Points A = Tx Store Error A

pub data Direction : Type 0 where
  credits debits : Direction

-- inc/capabilities/points/behaviors.py
pub record PointBehaviorSpec : Type 0 where
  pub key : String
  pub program_key : String
  pub direction : Direction
  pub fixed_amount : Option ℕ
  pub min_amount : ℕ
  pub max_amount : ℕ
  pub cooldown_seconds : Option ℕ
  pub daily_limit : Option ℕ
  pub business_timezone : String
  pub expiration_days : Option ℕ
  pub allowed_source_types : List String

-- The context of a command. `now` is the clock, in microseconds; `day_start` is the zone
-- database's start of the local day; `expiration_key` and
-- `bucket_source` format the key and the source of an expiration (f-strings over a UUID).
pub record CommandContext : Type 0 where
  pub behaviors : List PointBehaviorSpec
  pub permissions : List String
  pub now : ℕ
  pub day_start : String → ℕ → ℕ
  pub expiration_key : ℕ → ℕ → String
  pub bucket_source : ℕ → String

pub record CreditDebitInput : Type 0 where
  pub subject_type : String
  pub subject_id : String
  pub amount : ℕ
  pub source_type : String
  pub source_id : String
  pub idempotency_key : String
  pub expires_at : Option ℕ

pub record AdjustInput : Type 0 where
  pub subject_type : String
  pub subject_id : String
  pub program_key : Option String
  pub amount : ℤ
  pub idempotency_key : String

unfoldable pub emit : ℕ → Payload → Points (Unit {0})
emit account payload =
    modify λ s. record s {
      outbox = s.outbox ++ record { aggregate_id = account; payload = payload } ∷ [];
    }
