-- ===== src/Points/Tests.antt =====
-- The theorems on the points capability at a concrete program, and runs of its commands.
use aiya_cms.Prelude.{
  take, length, sum_by, ℕ, ◌<◌, ◌≤◌, ◌≡◌, ◌⊎◌, refl, String, true, false, none, some, List, [], ◌∷◌,
  arith, inl,
}
use aiya_cms.Prelude.Int.{pos, negsuc, ◌+ℤ◌, ◌-ℤ◌, pos_part}
use aiya_cms.Prelude.Result.{Result, ok, err}
use aiya_cms.Prelude.Table.{get, put}
use aiya_cms.Points.Limits.{require_behavior, validate_limits, credit_routing}
use aiya_cms.Points.Commands.{debit_points, debit_new, credit_in_uow, credit_new}
use aiya_cms.Points.Commands.Credit.{fill_bucket}
use aiya_cms.Points.Retry.Debited.{debit_points-Replayed}
use aiya_cms.Points.Retry.Credited.{credit_in_uow-Replayed}
use aiya_cms.Points.Model.{
  PointsLedgerEntry, Error, emit, debit, insufficient_balance, program_active, active, perpetual,
  expiring, credits, debits, credit, PointsProgram, PointsAccount, PointsBalance, PointsBucket,
  PointBehaviorSpec, CommandContext, CreditDebitInput, Store,
}
use aiya_cms.Points.Buckets.{
  Allocations, consume_rows, consume_loop, sort_buckets, insert_sorted, key_le, get_buckets,
  update_bucket, add_to_bucket, bucket_target, new_bucket,
}
use aiya_cms.Points.Buckets.Order.{
  IsSorted, EmptiesAllButLast, drawn_from, sort_buckets-IsSorted, consume_rows_order,
}
use aiya_cms.Points.Buckets.Sums.{bucket_sum}
use aiya_cms.Points.Buckets.Consume.{Taken, allocated, consume_rows_lem}
use aiya_cms.Points.Accounts.{
  Reply, consume_buckets, require_program, ensure_account, open_account, on_buckets, write_buckets,
  get_balance, set_balance, sync_account_state, synced_state, put_account, insert_entry,
  add_allocations, find_idempotent, apply_balance,
}
use aiya_cms.Points.Service.{
  Call, credit_call, debit_call, adjust_call, expire_call, freeze_call, serve,
}
use aiya_cms.Points.Ledger.{balance_at, ledger_sum, IsSound}
use aiya_cms.Points.Ledger.History.{new_store, new_store-IsSound, serve-IsSound, books_balance}
use aiya_cms.Points.Ledger.Overdraft.{consume_buckets_lem}

abbrev programs : List PointsProgram
programs =
    record { id = 0; program_key = "points"; status = program_active; allow_admin_reversal = true }
    ∷ []

abbrev gift : PointBehaviorSpec
gift = record {
  key = "content.gift";
  program_key = "points";
  direction = credits;
  fixed_amount = none;
  min_amount = 1;
  max_amount = 1000;
  cooldown_seconds = none;
  daily_limit = none;
  business_timezone = "UTC";
  expiration_days = some 1;
  allowed_source_types = "content" ∷ [];
}

abbrev purchase : PointBehaviorSpec
purchase = record gift { key = "shop.purchase"; direction = debits; expiration_days = none }

abbrev at_time : ℕ → CommandContext
at_time now = record {
  behaviors = gift ∷ purchase ∷ [];
  permissions = "points.adjust" ∷ "points.freeze" ∷ [];
  now = now;
  day_start = λ zone n. 0;
  expiration_key = λ bucket version. "expiration";
  bucket_source = λ bucket. "bucket";
}

abbrev input_of : ℕ → String → CreditDebitInput
input_of amount key = record {
  subject_type = "user";
  subject_id = "ada";
  amount = amount;
  source_type = "content";
  source_id = "post";
  idempotency_key = key;
  expires_at = none;
}

-- A gift of 100, a purchase of 30 twice under one key, one of 90 that is refused, a freeze, a
-- correction by -5, and a sweep two days later.
abbrev history : List (CommandContext × Call)
history =
    (at_time 10, credit_call "content.gift" (input_of 100 "a"))
    ∷ (at_time 20, debit_call "shop.purchase" (input_of 30 "b"))
    ∷ (at_time 21, debit_call "shop.purchase" (input_of 30 "b"))
    ∷ (at_time 22, debit_call "shop.purchase" (input_of 90 "c"))
    ∷ (at_time 30, freeze_call "points" "user" "ada" true)
    ∷ (
      at_time 40,
      adjust_call (record {
        subject_type = "user";
        subject_id = "ada";
        program_key = some "points";
        amount = negsuc 4;
        idempotency_key = "d";
      }),
    )
    ∷ (at_time 200000000000, expire_call)
    ∷ []

serve-IsSound_example : IsSound (serve history (new_store programs))
serve-IsSound_example = serve-IsSound history (new_store programs) (new_store-IsSound programs)

books_balance_example :
    (balance_at 1 (serve history (new_store programs)).balances
      ≡ ledger_sum 1 (serve history (new_store programs)).entries)
    × (bucket_sum 1 (serve history (new_store programs)).buckets
        ≡ pos_part (balance_at 1 (serve history (new_store programs)).balances))
books_balance_example = books_balance programs history 1

abbrev old_bucket : PointsBucket
old_bucket = record {
  id = 2;
  account_id = 1;
  bucket_type = expiring;
  expiration_identity = some "content.gift";
  expires_at = some 500;
  created_at = 10;
  amount = 40;
  version = 3;
}

abbrev lasting_bucket : PointsBucket
lasting_bucket = record {
  id = 3;
  account_id = 1;
  bucket_type = perpetual;
  expiration_identity = none;
  expires_at = none;
  created_at = 5;
  amount = 30;
  version = 1;
}

abbrev buckets : List PointsBucket
buckets = lasting_bucket ∷ old_bucket ∷ []

consume_rows_lem_example :
    (out : Allocations) × (t' : List PointsBucket) × (consume_rows 1 50 false buckets
      ≡ ok (out, t'))
    × Taken 9 1 50 buckets out t'
unfolding get
consume_rows_lem_example =
    consume_rows_lem 9 1 50 false buckets (omega arith, refl, (omega arith, refl, tt))
      (inl (omega arith))

abbrev owner : PointsAccount
owner = record {
  id = 1;
  program_id = 0;
  subject_type = "user";
  subject_id = "ada";
  state = active;
  version = 1;
}

abbrev owner_balance : PointsBalance
owner_balance = record { account_id = 1; balance = pos 70; version = 4 }

abbrev opened : Store
opened = record {
  programs = programs;
  accounts = owner ∷ [];
  balances = owner_balance ∷ [];
  buckets = buckets;
  allocations = [];
  entries =
      record {
        id = 4;
        program_id = 0;
        account_id = 1;
        amount = pos 70;
        entry_type = credit;
        created_at = 10;
        behavior_key = some "content.gift";
        source_type = some "content";
        source_id = some "post";
        idempotency_key = "a";
        entry_metadata = none;
        reversal_of = none;
      }
      ∷ [];
  outbox = [];
  next_id = 9;
}

opened-IsSound : IsSound opened
unfolding get ◌+ℤ◌
opened-IsSound = record {
  keyed = (omega arith, refl, (omega arith, refl, tt));
  below = (omega arith, tt);
  owned = tt;
  matches = λ c. ground arith;
  covered = λ c. ground arith;
}

consume_buckets_lem_example :
    ((50 ≤ 70)
      × ((out : Allocations) × (s' : Store) × (consume_buckets owner 50 false opened
            ≡ ok ((pos 70 -ℤ pos 50, out), s'))
          × (allocated out ≡ 50)))
    ⊎ ((70 < 50) × (consume_buckets owner 50 false opened ≡ err insufficient_balance))
unfolding get
consume_buckets_lem_example = consume_buckets_lem owner 50 owner_balance opened opened-IsSound refl

-- What a run returns and leaves, `opened` standing in for a run that raises.
abbrev left_by : {A : Type 0} → Result Error (A × Store) → Store
left_by (ok (a, s)) = s
left_by (err e) = opened

abbrev purchase_entry : PointsLedgerEntry
purchase_entry = record {
  id = 9;
  program_id = 0;
  account_id = 1;
  amount = negsuc 49;
  entry_type = debit;
  created_at = 20;
  behavior_key = some "shop.purchase";
  source_type = some "content";
  source_id = some "post";
  idempotency_key = "b";
  entry_metadata = none;
  reversal_of = none;
}

abbrev purchase_run : Result Error (Reply × Store)
purchase_run = debit_points (at_time 20) "shop.purchase" (input_of 50 "b") opened

purchase_runs :
    purchase_run ≡ ok (record { entry = purchase_entry; committed = true }, left_by purchase_run)
unfolding debit_points debit_new require_behavior require_program ensure_account open_account
    bucket_target validate_limits consume_buckets consume_rows consume_loop sort_buckets
    insert_sorted key_le get_buckets update_bucket get put on_buckets get_balance set_balance
    sync_account_state synced_state put_account insert_entry add_allocations emit find_idempotent
    ◌+ℤ◌ ◌-ℤ◌
purchase_runs = refl

-- Another purchase and a gift are served before the purchase is sent again.
abbrev between : List (CommandContext × Call)
between =
    (at_time 30, debit_call "shop.purchase" (input_of 5 "c"))
    ∷ (at_time 40, credit_call "content.gift" (input_of 25 "d"))
    ∷ []

debit_points-Replayed_example :
    debit_points
      (at_time 99)
      "shop.purchase"
      (input_of 50 "b")
      (serve between (left_by purchase_run))
    ≡ ok
        (record { entry = purchase_entry; committed = false }, serve between (left_by purchase_run))
debit_points-Replayed_example =
    debit_points-Replayed (at_time 20) 99 "shop.purchase" (input_of 50 "b")
      (record { entry = purchase_entry; committed = true }) opened (left_by purchase_run) between
      purchase_runs

abbrev gift_entry : PointsLedgerEntry
gift_entry = record {
  id = 10;
  program_id = 0;
  account_id = 1;
  amount = pos 25;
  entry_type = credit;
  created_at = 20;
  behavior_key = some "content.gift";
  source_type = some "content";
  source_id = some "post";
  idempotency_key = "g";
  entry_metadata = some (record {
    bucket_type = expiring;
    identity = some "content.gift";
    expires_at = some 86400000020;
  });
  reversal_of = none;
}

abbrev gift_run : Result Error (PointsLedgerEntry × Store)
gift_run = credit_in_uow (at_time 20) "content.gift" (input_of 25 "g") opened

gift_runs : gift_run ≡ ok (gift_entry, left_by gift_run)
unfolding credit_in_uow credit_new credit_routing require_behavior require_program ensure_account
    open_account bucket_target new_bucket validate_limits apply_balance fill_bucket write_buckets
    add_to_bucket update_bucket get put get_balance set_balance sync_account_state synced_state
    put_account insert_entry emit find_idempotent ◌+ℤ◌ ◌-ℤ◌
gift_runs = refl

credit_in_uow-Replayed_example :
    credit_in_uow (at_time 99) "content.gift" (input_of 25 "g") (serve between (left_by gift_run))
    ≡ ok (gift_entry, serve between (left_by gift_run))
credit_in_uow-Replayed_example =
    credit_in_uow-Replayed (at_time 20) 99 "content.gift" (input_of 25 "g") gift_entry opened
      (left_by gift_run) between gift_runs

-- The expiring bucket comes first, and the rest is drawn from the perpetual one.
abbrev drained : Allocations
drained = (old_bucket, 40) ∷ (lasting_bucket, 10) ∷ []

abbrev buckets_after : List PointsBucket
buckets_after =
    record lasting_bucket { amount = 20; version = 2 }
    ∷ record old_bucket { amount = 0; version = 4 }
    ∷ []

consume_rows_order_example :
    (drawn_from drained ≡ take (length drained) (sort_buckets (get_buckets 1 buckets)))
    × EmptiesAllButLast drained
    × IsSorted (sort_buckets (get_buckets 1 buckets))
unfolding consume_rows consume_loop sort_buckets insert_sorted key_le get_buckets update_bucket get
    put
consume_rows_order_example = consume_rows_order 1 50 false buckets buckets_after drained refl

sort_buckets-IsSorted_example :
    IsSorted (sort_buckets buckets)
    × ((weight : PointsBucket → ℕ) → sum_by weight (sort_buckets buckets) ≡ sum_by weight buckets)
sort_buckets-IsSorted_example = sort_buckets-IsSorted buckets
