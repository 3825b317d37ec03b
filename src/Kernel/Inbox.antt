-- ===== src/Kernel/Inbox.antt =====
-- Deduplication of deliveries (inc/kernel/events/inbox.py).
pub mod Once
use aiya_cms.Prelude.{
  ℕ, ◌+◌, ◌≡◌, ◌≢◌, refl, String, Bool, true, false, not, Option, none, some, List, [], ◌∷◌, ◌++◌,
  ◌&&◌, ◌==◌, str_eq, any, arith, if◌then◌else◌, Bool-cases, inl, inr,
}
use aiya_cms.Prelude.Result.{Result, ok, err}

pub record InboxReceipt : Type 0 where
  pub handler_key : String
  pub event_id : ℕ

abbrev pub is_receipt : String → ℕ → InboxReceipt → Bool
is_receipt handler event r = str_eq r.handler_key handler && (r.event_id == event)

unfoldable pub already_processed : String → ℕ → List InboxReceipt → Bool
already_processed handler event t = any (is_receipt handler event) t

-- The receipts, and the tables that the handlers write, as one unit of work sees them.
pub record Inbox (W : Type 0) : Type 0 where
  pub receipts : List InboxReceipt
  pub world : W

module _ {E W : Type 0} where
  -- `InboxGuard.process` in a unit of work that commits when it returns and rolls back when it
  -- raises: the receipt under its unique constraint, then the work. The result is whether it ran.
  unfoldable pub process : String → ℕ → (W → Result E W) → Inbox W → Result E Bool × Inbox W
  process handler event work d =
      if any (is_receipt handler event) d.receipts then (ok false, d) else elim (work d.world) [
        | ok w ↦ (
          ok true,
          record {
            receipts = d.receipts ++ record { handler_key = handler; event_id = event } ∷ [];
            world = w;
          },
        )
        | err e ↦ (err e, d)
      ]

  -- Deliveries of events to handlers, one after the other.
  unfoldable pub deliver_all : (String → ℕ → W → Result E W) → List (String × ℕ) → Inbox W → Inbox W
  deliver_all work [] d = d
  deliver_all work ((h, e) ∷ rest) d = deliver_all work rest (process h e (work h e) d).1
