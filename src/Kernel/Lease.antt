-- ===== src/Kernel/Lease.antt =====
-- The table of leased rows that the outbox (inc/kernel/events/outbox.py) and the task queue
-- (inc/kernel/tasks/worker.py) share in form: claiming due rows under a lease.
pub mod Claims
use aiya_cms.Prelude.{
  ℕ, zero, suc, ◌+◌, String, Bool, true, false, Option, none, some, List, [], ◌∷◌, ◌&&◌, ◌||◌, map,
  ◌==◌, ltb, leb, eq_option, str_eq, if◌then◌else◌, select, any, take,
}
use aiya_cms.Kernel.Errors.{RetryCategory}

-- `finished` is the status "delivered" of a message, and "completed" of a task.
pub data Status : Type 0 where
  pending claimed finished dead : Status

abbrev pub eq_status : Status → Status → Bool
eq_status pending pending = true
eq_status claimed claimed = true
eq_status finished finished = true
eq_status dead dead = true
eq_status _ _ = false

-- `key` is the event or task key, `subject` the id of the envelope or payload, `attempts` the
-- column `attempts` or `attempt`, `due_at` the column `next_attempt_at` or `next_run_at`.
pub record LeasedRow : Type 0 where
  pub id : ℕ
  pub key : String
  pub subject : ℕ
  pub status : Status
  pub attempts : ℕ
  pub due_at : ℕ
  pub lease_owner : Option String
  pub lease_expires_at : Option ℕ
  pub error_category : Option RetryCategory

abbrev pub row_id : LeasedRow → ℕ
row_id r = r.id

abbrev pub lease_is_over : ℕ → Option ℕ → Bool
lease_is_over now none = true
lease_is_over now (some e) = ltb e now

-- The condition `due` of both `claim_due`.
unfoldable pub is_due : ℕ → LeasedRow → Bool
is_due now r =
    (eq_status r.status pending || eq_status r.status claimed)
    && leb r.due_at now
    && lease_is_over now r.lease_expires_at

-- ORDER BY due_at, id
abbrev pub due_le : LeasedRow → LeasedRow → Bool
due_le a b = if a.due_at == b.due_at then leb a.id b.id else ltb a.due_at b.due_at

unfoldable pub insert_by :
    (LeasedRow → LeasedRow → Bool) → LeasedRow → List LeasedRow → List LeasedRow
insert_by le r [] = r ∷ []
insert_by le r (q ∷ t) = if le r q then r ∷ q ∷ t else q ∷ insert_by le r t

unfoldable pub sort_by : (LeasedRow → LeasedRow → Bool) → List LeasedRow → List LeasedRow
unfolding insert_by
sort_by le [] = []
sort_by le (r ∷ t) = insert_by le r (sort_by le t)

-- The ids that the SELECT with its LIMIT picks.
unfoldable pub due_ids : ℕ → ℕ → List LeasedRow → List ℕ
unfolding sort_by
due_ids now batch t = map row_id (take batch (sort_by due_le (select (is_due now) t)))

abbrev pub has_id : List ℕ → LeasedRow → Bool
has_id ids r = any (λ i. i == r.id) ids

abbrev pub leased : String → ℕ → LeasedRow → LeasedRow
leased owner expires r = record r {
  status = claimed;
  lease_owner = some owner;
  lease_expires_at = some expires;
}

-- The UPDATE that claims: the ids again under the condition.
unfoldable pub claim_rows : String → ℕ → ℕ → List ℕ → List LeasedRow → List LeasedRow
unfolding is_due
claim_rows owner expires now ids t =
    map (λ r. if has_id ids r && is_due now r then leased owner expires r else r) t

-- ORDER BY id
abbrev pub id_le : LeasedRow → LeasedRow → Bool
id_le a b = leb a.id b.id

-- The second SELECT of the outbox: only rows that this owner holds.
unfoldable pub owned_rows : String → List ℕ → List LeasedRow → List LeasedRow
unfolding sort_by
owned_rows owner ids t =
    sort_by id_le (select (λ r. has_id ids r && eq_option str_eq r.lease_owner (some owner)) t)

-- The second SELECT of the task queue: by id alone.
unfoldable pub picked_rows : List ℕ → List LeasedRow → List LeasedRow
unfolding sort_by
picked_rows ids t = sort_by id_le (select (has_id ids) t)
