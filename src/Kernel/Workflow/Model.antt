-- ===== src/Kernel/Workflow/Model.antt =====
-- The tables of inc/kernel/workflow/models.py, the declarations of spec.py, and the queries of
-- `WorkflowRepository`.
use aiya_cms.Prelude.{
  ℕ, String, Bool, true, false, Option, none, some, List, [], ◌∷◌, ◌&&◌, ◌==◌, leb, str_eq, is_some,
  if◌then◌else◌, select, not,
}
use aiya_cms.Prelude.Result.{Tx, gets, modify, or_raise, ◌>>=◌}
use aiya_cms.Prelude.Table.{get, put}
use aiya_cms.Kernel.Errors.{RetryCategory, Raised}
use aiya_cms.Kernel.Retry.{RetryPolicy}

-- The data of a `VersionedState`. `other` stands for a number or a list, which the runner never
-- looks into.
mutual
  pub data Json : Type 0 where
    null : Json
    boolean : Bool → Json
    text : String → Json
    object : Dict → Json
    other : ℕ → Json

  pub data Dict : Type 0 where
    empty : Dict
    item : String → Json → Dict → Dict

-- `d.get(key)`
unfoldable pub lookup : String → Dict → Option Json
lookup key empty = none
lookup key (item k v d) = if str_eq k key then some v else lookup key d

-- `d[key] = value`
unfoldable pub set_item : String → Json → Dict → Dict
set_item key value empty = item key value empty
set_item key value (item k v d) =
    if str_eq k key then item k value d else item k v (set_item key value d)

-- `d.pop(key, None)`
unfoldable pub pop : String → Dict → Dict
pop key empty = empty
pop key (item k v d) = if str_eq k key then d else item k v (pop key d)

-- `dict(d.get(key, {}))` of a value that is a dict.
abbrev pub dict_or_empty : Option Json → Dict
dict_or_empty (some (object d)) = d
dict_or_empty _ = empty

abbrev pub waiting_signal_key : String
waiting_signal_key = "waiting_for"

pub data WorkflowStatus : Type 0 where
  pending completed failed cancelled waiting : WorkflowStatus

-- `status in ("completed", "failed", "cancelled")`
abbrev pub is_terminal : WorkflowStatus → Bool
is_terminal completed = true
is_terminal failed = true
is_terminal cancelled = true
is_terminal _ = false

abbrev pub is_pending : WorkflowStatus → Bool
is_pending pending = true
is_pending _ = false

abbrev pub is_waiting : WorkflowStatus → Bool
is_waiting waiting = true
is_waiting _ = false

pub data AttemptStatus : Type 0 where
  executed failed_attempt : AttemptStatus

pub record WorkflowInstance : Type 0 where
  pub id : ℕ
  pub workflow_key : String
  pub business_idempotency_key : String
  pub status : WorkflowStatus
  pub input : Dict
  pub state : Dict
  pub current_step : Option String
  pub step_attempt : ℕ
  pub wake_at : Option ℕ
  pub result : Option Dict
  pub lease_owner : Option String
  pub lease_expires_at : Option ℕ

pub record WorkflowStepAttempt : Type 0 where
  pub workflow_id : ℕ
  pub step_key : String
  pub attempt : ℕ
  pub status : AttemptStatus
  pub input : Dict
  pub result : Option Dict
  pub error_category : Option RetryCategory
  pub error_summary : Option String

pub record WorkflowSignal : Type 0 where
  pub id : ℕ
  pub workflow_id : ℕ
  pub signal_key : String
  pub signal_id : ℕ
  pub payload : Dict
  pub delivered_at : Option ℕ

abbrev pub instance_id : WorkflowInstance → ℕ
instance_id i = i.id

abbrev pub signal_row_id : WorkflowSignal → ℕ
signal_row_id r = r.id

-- The tables, the next row id, and `world`: the tables that the handlers write and all else that they see.
pub record WorkflowStore (W : Type 0) : Type 0 where
  pub instances : List WorkflowInstance
  pub attempts : List WorkflowStepAttempt
  pub signals : List WorkflowSignal
  pub next_id : ℕ
  pub world : W

-- How a handler ends. After `session_broken` (a flush of its unit of work failed and was not rolled
-- back, or it left rows or a result that do not flush) whatever is done next in that unit of work
-- raises.
pub data HandlerEnd : Type 0 where
  returned : Dict → HandlerEnd
  raised : Raised → HandlerEnd
  session_broken : HandlerEnd

-- The handler, run under its timeout, takes its input and the attempt. What it wrote before it
-- raised is still in the unit of work.
pub record ActivitySpec (W : Type 0) : Type 0 where
  pub key : String
  pub retry : RetryPolicy
  pub handler : Option (Dict → ℕ → W → HandlerEnd × W)

pub record WorkflowSpec (W : Type 0) : Type 0 where
  pub key : String
  pub activities : List (ActivitySpec W)
  pub signal_keys : List String

-- The registry, the clock, the jitter of a delay, and `str(exc)[:500]`.
pub record WorkflowRunner (W : Type 0) : Type 0 where
  pub registry : String → Option (WorkflowSpec W)
  pub utc_now : W → ℕ
  pub jitter : W → ℕ
  pub describe : Raised → String

-- `session_error` and `query_error` are the database's exceptions on a session that is broken and on
-- a signal key that is not a text.
pub data WorkflowError : Type 0 where
  workflow_not_found workflow_unknown workflow_invalid workflow_unknown_signal value_error
        session_error query_error :
      WorkflowError

module _ {W : Type 0} where
  -- `WorkflowSpec.activity`
  unfoldable pub activity : String → List (ActivitySpec W) → Option (ActivitySpec W)
  activity key [] = none
  activity key (a ∷ rest) = if str_eq a.key key then some a else activity key rest

  abbrev pub first_key : List (ActivitySpec W) → Option String
  first_key [] = none
  first_key (a ∷ rest) = some a.key

  -- `keys[keys.index(key) + 1]`, when the index is in range.
  unfoldable pub next_key : String → List (ActivitySpec W) → Option String
  next_key key [] = none
  next_key key (a ∷ rest) = if str_eq a.key key then first_key rest else next_key key rest

-- `WorkflowRepository.last_attempt`
abbrev pub is_attempt_of : ℕ → String → WorkflowStepAttempt → Bool
is_attempt_of workflow key a = (a.workflow_id == workflow) && str_eq a.step_key key

abbrev pub later : WorkflowStepAttempt → Option WorkflowStepAttempt → WorkflowStepAttempt
later a none = a
later a (some b) = if leb b.attempt a.attempt then a else b

unfoldable pub last_attempt : ℕ → String → List WorkflowStepAttempt → Option WorkflowStepAttempt
last_attempt workflow key [] = none
last_attempt workflow key (a ∷ t) =
    let rest = last_attempt workflow key t in
    if is_attempt_of workflow key a then some (later a rest) else rest

-- `WorkflowRepository.undelivered_signals`. Rows stand in the order of their creation.
abbrev pub is_undelivered : ℕ → String → WorkflowSignal → Bool
is_undelivered workflow key r =
    (r.workflow_id == workflow) && str_eq r.signal_key key && not (is_some r.delivered_at)

abbrev pub undelivered_signals : ℕ → String → List WorkflowSignal → List WorkflowSignal
undelivered_signals workflow key t = select (is_undelivered workflow key) t

abbrev pub Workflow : Type 0 → Type 0 → Type 0
Workflow W A = Tx (WorkflowStore W) WorkflowError A

module _ {W : Type 0} where
  unfoldable pub get_instance : ℕ → Workflow W WorkflowInstance
  get_instance id = do
    found ← gets (λ s. get instance_id id s.instances)
    or_raise found workflow_not_found

  unfoldable pub put_instance : WorkflowInstance → Workflow W (Unit {0})
  put_instance i = modify λ s. record s { instances = put instance_id i s.instances }

  -- `WorkflowRegistry.require`
  unfoldable pub require : WorkflowRunner W → String → Workflow W (WorkflowSpec W)
  require run key = or_raise (run.registry key) workflow_unknown
