-- ===== src/Kernel/Outbox.antt =====
-- The outbox (inc/kernel/events/outbox.py): appending, claiming, and one dispatch cycle.
pub mod Delivery
pub mod Settled
pub mod Outcome
use aiya_cms.Prelude.{
  seconds, ℕ, ◌+◌, String, Bool, true, false, Option, none, some, List, [], ◌∷◌, ◌++◌, ◌&&◌, ◌||◌,
  not, ltb, eq_option, str_eq, if◌then◌else◌,
}
use aiya_cms.Prelude.Result.{Result, ok, err}
use aiya_cms.Prelude.Table.{get, put}
use aiya_cms.Kernel.Errors.{RetryCategory, permanent, Raised, classify_retry}
use aiya_cms.Kernel.Retry.{RetryPolicy, should_retry, next_attempt_delay}
use aiya_cms.Kernel.Lease.{
  Status, pending, claimed, finished, dead, eq_status, LeasedRow, row_id, due_ids, claim_rows,
  owned_rows,
}

-- `OutboxWriter.append`: the validation of the payload is `valid`.
unfoldable pub append :
    (String → ℕ → Bool) → ℕ → ℕ → String → ℕ → List LeasedRow → Option (List LeasedRow)
append valid id now key subject t =
    if valid key subject
    then some (
        t
        ++ record {
          id = id;
          key = key;
          subject = subject;
          status = pending;
          attempts = 0;
          due_at = now;
          lease_owner = none;
          lease_expires_at = none;
          error_category = none;
        }
          ∷ [])
    else none

-- `OutboxRepository.claim_due`
unfoldable pub claim_due : ℕ → String → ℕ → ℕ → List LeasedRow → List LeasedRow × List LeasedRow
claim_due batch owner lease_seconds now t =
    let ids = due_ids now batch t in
    let t' = claim_rows owner (now + seconds lease_seconds) now ids t in
    (owned_rows owner ids t', t')

-- The conditional UPDATE of the three `mark_` methods, on a message that was loaded before.
unfoldable pub mark : LeasedRow → (LeasedRow → LeasedRow) → List LeasedRow → List LeasedRow
mark message change t = elim (get row_id message.id t) [
  | none ↦ t
  | some cur ↦
      if eq_status cur.status claimed && eq_option str_eq cur.lease_owner message.lease_owner
      then put row_id (change cur) t
      else t
]

abbrev pub delivered : LeasedRow → LeasedRow
delivered r = record r { status = finished; lease_owner = none; lease_expires_at = none }

abbrev pub retried : ℕ → RetryCategory → LeasedRow → LeasedRow
retried at category r = record r {
  status = pending;
  attempts = r.attempts + 1;
  due_at = at;
  lease_owner = none;
  lease_expires_at = none;
  error_category = some category;
}

abbrev pub buried : RetryCategory → LeasedRow → LeasedRow
buried category r = record r {
  status = dead;
  attempts = r.attempts + 1;
  lease_owner = none;
  lease_expires_at = none;
  error_category = some category;
}

unfoldable pub mark_delivered : LeasedRow → List LeasedRow → List LeasedRow
mark_delivered message t = mark message delivered t

unfoldable pub mark_retry : LeasedRow → ℕ → RetryCategory → List LeasedRow → List LeasedRow
mark_retry message at category t = mark message (retried at category) t

unfoldable pub mark_dead : LeasedRow → RetryCategory → List LeasedRow → List LeasedRow
mark_dead message category t = mark message (buried category) t

-- The messages, and the tables that the handlers write.
pub record Database (W : Type 0) : Type 0 where
  pub messages : List LeasedRow
  pub world : W

-- What the dispatcher is built with. A handler takes the envelope's id, in a unit of work of its
-- own: when it raises, it has written nothing.
pub record Dispatcher (W : Type 0) : Type 0 where
  pub known_schema : String → Bool
  pub handlers_for : String → List (ℕ → W → Result Raised W)
  pub retry_policy : RetryPolicy

-- The clock when the claim is checked and when a failure is noted, and the jitter.
pub record Moment : Type 0 where
  pub checked_at : ℕ
  pub failed_at : ℕ
  pub jitter_sample : ℕ

-- The stale-claim test at the start of `_process`. A claimed row without an expiry, which no claim
-- writes, would raise.
pub data Standing : Type 0 where
  held stale broken : Standing

abbrev pub by_expiry : ℕ → Option ℕ → Standing
by_expiry now none = broken
by_expiry now (some e) = if ltb e now then stale else held

unfoldable pub standing : String → ℕ → Option LeasedRow → Standing
standing owner now none = stale
standing owner now (some cur) =
    if not (eq_option str_eq cur.lease_owner (some owner)) || not (eq_status cur.status claimed)
    then stale
    else by_expiry now cur.lease_expires_at

module _ {W : Type 0} where
  -- The handlers in turn: each commits; the first that raises ends the loop.
  unfoldable pub run_handlers : List (ℕ → W → Result Raised W) → ℕ → W → Option Raised × W
  run_handlers [] subject w = (none, w)
  run_handlers (h ∷ hs) subject w = elim (h subject w) [
    | ok w' ↦ run_handlers hs subject w'
    | err e ↦ (some e, w)
  ]

  -- A row is loaded again by its id and marked; with no such row the attribute access raises.
  unfoldable pub mark_fresh :
      ℕ → (LeasedRow → List LeasedRow → List LeasedRow) → Database W → Option (Database W)
  mark_fresh id marking d = elim (get row_id id d.messages) [
    | none ↦ none
    | some fresh ↦ some (record d { messages = marking fresh d.messages })
  ]

  -- What follows the handlers, `message` as claimed.
  unfoldable pub conclude :
      Dispatcher W → Moment → LeasedRow → Option Raised → Database W → Option (Database W)
  conclude env at message none d = mark_fresh message.id mark_delivered d
  conclude env at message (some e) d =
      let category = classify_retry e in
      let attempts = message.attempts + 1 in
      if should_retry env.retry_policy category attempts
      then mark_fresh message.id
          (λ fresh.
            mark_retry fresh
              (at.failed_at
                + next_attempt_delay env.retry_policy category attempts at.jitter_sample)
              category)
          d
      else mark_fresh message.id (λ fresh. mark_dead fresh category) d

  -- `_process` and `_quarantine`; `none` when an exception leaves the cycle.
  unfoldable pub process :
      Dispatcher W → String → Moment → LeasedRow → Database W → Option (Database W)
  process env owner at message d =
      elim (standing owner at.checked_at (get row_id message.id d.messages)) [
        | stale ↦ some d
        | broken ↦ none
        | held ↦
            if env.known_schema message.key
            then (let (failure, w) =
                  run_handlers (env.handlers_for message.key) message.subject d.world in
                conclude env at message failure (record d { world = w }))
            else mark_fresh message.id (λ fresh. mark_dead fresh permanent) d
      ]

  unfoldable pub process_all :
      Dispatcher W → String → (ℕ → Moment) → List LeasedRow → Database W → Option (Database W)
  process_all env owner at [] d = some d
  process_all env owner at (m ∷ ms) d = elim (process env owner (at m.id) m d) [
    | none ↦ none
    | some d' ↦ process_all env owner at ms d'
  ]

  -- `dispatch_cycle`: the claim commits, then the messages one by one; `at` is the clock for each.
  unfoldable pub dispatch_cycle :
      Dispatcher W → ℕ → String → ℕ → ℕ → (ℕ → Moment) → Database W → Option (Database W)
  unfolding process_all
  dispatch_cycle env batch owner lease_seconds now at d =
      let (messages, t) = claim_due batch owner lease_seconds now d.messages in
      process_all env owner at messages (record d { messages = t })
