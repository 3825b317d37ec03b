-- ===== src/Points/Commands.antt =====
-- The commands of inc/capabilities/points/commands.py, each as one transaction.
pub mod Credit
pub mod Debit
pub mod Reverse
pub mod Adjust
pub mod Expire
pub mod Freeze
unfoldable pub use Credit.{credit_new, credit_in_uow, credit_points}
unfoldable pub use Debit.{debit_new, debit_points}
unfoldable pub use Reverse.{undo, reverse_new, reverse_entry}
unfoldable pub use Adjust.{adjust_balance, adjust_new, adjust_points}
unfoldable pub use Expire.{due_buckets, expire_bucket, expire_loop, expire_buckets}
unfoldable pub use Freeze.{freeze_target, freeze_account, open_points_account}
