-- ===== src/OrderStore/Examples.antt =====
-- The methods of the store run on small tables, and the theorems there.
use kafka_sqs.Base.{
  ℕ, ◌≡◌, refl, ◌⊎◌, true, false, Option, none, some, List, [], ◌∷◌, map, ◌==◌, if◌then◌else◌,
}
use mathlib.Core.List.{Perm}
use kafka_sqs.Base.Int.{pos, leb_ℤ}
use kafka_sqs.Base.Lists.{take}
use kafka_sqs.Base.Sort.{sort_by, IsSorted}
use kafka_sqs.Base.Effect.{ok, raise}
use kafka_sqs.Contracts.Event.{OrderCreatedEvent}
use kafka_sqs.Postgres.{unknown, Server, Database}
use kafka_sqs.Postgres.Transaction.{LostCommit, healthy_server, healthy_server-IsHealthy}
use kafka_sqs.OrderStore.Rows.{
  amount_column, delete_orders, delete_claims, ProcessedRow, OrderRow, Status, pending, completed,
  Tables, insert_claim, insert_order, update_completed, database_error,
}
use kafka_sqs.OrderStore.{
  initialize, store_block, EventStoreResult, store, mark_completed, discard, list_orders,
  newest_first, newer,
}
use kafka_sqs.OrderStore.Refines.{Follows, Ran-Follows}
use kafka_sqs.Base.Effect.{value}
use kafka_sqs.Contracts.Event.{Decimal}
use kafka_sqs.OrderStore.{fetch_order}
use kafka_sqs.OrderStore.Lookup.{order_with, fetch_order-store}
use kafka_sqs.OrderStore.Listing.{list_orders_ok}
use kafka_sqs.OrderStore.Effects.{StoreEffect, store_either}
use kafka_sqs.OrderStore.Idempotent.{store-store, store-mark_completed, discard-store}
use kafka_sqs.OrderStore.Consistent.{
  IsConsistent, start, next, stored, marked, History-IsConsistent, RowsConsistent,
  IsConsistent-some,
}

abbrev order : OrderCreatedEvent
order = record {
  event_id = 7;
  event_type = "order.created";
  event_version = 1;
  occurred_at = record { ticks = 0; tzinfo = some (record { utcoffset = some (pos 0) }) };
  correlation_id = "checkout-1";
  causation_id = "request-1";
  producer = "order-api";
  payload = record {
    order_id = "ORD-1";
    customer_id = "CUS-1";
    amount = record { digits = pos 12345; places = 3 };
    currency = "INR";
  };
}

abbrev empty : Database Tables
empty = record { tables = record { orders = some []; processed_events = some [] }; calls = 0 }

abbrev claim : Status → Option ℕ → ProcessedRow
claim status processed_at = record {
  event_id = 7;
  event_type = "order.created";
  status = status;
  first_seen_at = 0;
  processed_at = processed_at;
}

-- 12.345 is stored as 12.35.
abbrev row : OrderRow
row = record {
  order = record {
    order_id = "ORD-1";
    customer_id = "CUS-1";
    amount = record { digits = pos 1235; places = 2 };
    currency = "INR";
    source_event_id = 7;
    correlation_id = "checkout-1";
  };
  created_at = 0;
}

abbrev once : Database Tables
once = record {
  tables = record { orders = some (row ∷ []); processed_events = some (claim pending none ∷ []) };
  calls = 4;
}

abbrev done : Database Tables
done = record {
  tables = record {
    orders = some (row ∷ []);
    processed_events = some (claim completed (some 4) ∷ []);
  };
  calls = 7;
}

abbrev is_fresh : EventStoreResult
is_fresh = record { is_new = true; downstream_required = true }

creates_tables :
    initialize healthy_server
      (record { tables = record { orders = none; processed_events = some [] }; calls = 0 })
    ≡ ok tt (record { tables = empty.tables; calls = 5 })
unfolding initialize
creates_tables = refl

store_order : store healthy_server order empty ≡ ok is_fresh once
unfolding store insert_claim insert_order amount_column
store_order = refl

complete_order : mark_completed healthy_server 7 once ≡ ok tt done
unfolding mark_completed update_completed
complete_order = refl

discard_order : discard healthy_server 7 once ≡ ok tt (record { tables = empty.tables; calls = 8 })
unfolding discard delete_orders delete_claims
discard_order = refl

-- A server that loses the third call.
abbrev broken : Server
broken = record healthy_server {
  statement = λ n. if n == 2 then some (database_error "OperationalError") else none;
}

store_fails :
    store broken order empty
    ≡ raise (database_error "OperationalError") (record { tables = empty.tables; calls = 3 })
unfolding store insert_claim
store_fails = refl

-- A server that commits and loses the acknowledgement.
abbrev losing : Server
losing = record healthy_server { commit = λ n. unknown (database_error "OperationalError") }

store_loses : store losing order empty ≡ raise (database_error "OperationalError") once
unfolding store insert_claim insert_order amount_column
store_loses = refl

store_either_example :
    (◌≡◌ {A = Tables} once.tables empty.tables)
    ⊎ ((r : EventStoreResult) × StoreEffect 0 order empty.tables r once.tables
        × LostCommit losing (store_block losing order) empty r (database_error "OperationalError"))
store_either_example =
    store_either losing empty once (database_error "OperationalError") order store_loses

store-store_example :
    (db2 : Database Tables) × (store healthy_server order once
      ≡ ok (record { is_new = false; downstream_required = true }) db2)
    × (db2.tables ≡ once.tables)
store-store_example =
    store-store healthy_server healthy_server-IsHealthy order healthy_server empty once is_fresh
      store_order

store-mark_completed_example :
    (db2 : Database Tables) × (store healthy_server order done
      ≡ ok (record { is_new = false; downstream_required = false }) db2)
    × (db2.tables ≡ done.tables)
store-mark_completed_example =
    store-mark_completed healthy_server healthy_server-IsHealthy order healthy_server once done
      complete_order

discard-store_example :
    ◌≡◌ {A = Tables} (record { orders = some []; processed_events = some [] }) empty.tables
discard-store_example =
    discard-store healthy_server order empty once (record { tables = empty.tables; calls = 8 })
      is_fresh store_order refl discard_order

empty-RowsConsistent : RowsConsistent [] []
empty-RowsConsistent = record {
  one_claim = tt;
  one_order = tt;
  one_source = tt;
  positive = tt;
  claimed = tt;
  ordered = tt;
}

History-IsConsistent_example : IsConsistent done.tables
History-IsConsistent_example =
    History-IsConsistent healthy_server
      (next (next start (stored order is_fresh store_order)) (marked 7 complete_order))
      (IsConsistent-some [] [] empty-RowsConsistent)

Ran-Follows_example :
    Follows {server = healthy_server} {db = empty} {db' = once} (stored order is_fresh store_order)
Ran-Follows_example =
    Ran-Follows (stored order is_fresh store_order) ([], [], refl, refl, empty-RowsConsistent)

list_one_order :
    list_orders healthy_server (pos 50) done
    ≡ ok (row.order ∷ []) (record { tables = done.tables; calls = 10 })
unfolding list_orders newest_first sort_by
list_one_order = refl

list_orders_ok_example :
    (leb_ℤ (pos 50) (pos 0) ≡ false)
    × (◌≡◌ {A = Tables} done.tables done.tables)
    × ((os : List OrderRow) × (sorted : List OrderRow) × (done.tables.orders ≡ some os)
        × Perm sorted os
        × IsSorted newer sorted
        × (row.order ∷ [] ≡ map (λ r. r.order) (take 50 sorted)))
list_orders_ok_example =
    list_orders_ok healthy_server (pos 50) done (record { tables = done.tables; calls = 10 })
      (row.order ∷ []) list_one_order

-- 0.004 is positive, but the column rounds it to 0.00.
tiny_amount_fails :
    store healthy_server
      (record order {
        payload = record order.payload { amount = record { digits = pos 4; places = 3 } };
      })
      empty
    ≡ raise (database_error "CheckViolation") (record { tables = empty.tables; calls = 3 })
unfolding store insert_claim insert_order amount_column
tiny_amount_fails = refl

-- The contract accepts a text with U+0000, which psycopg refuses.
null_text_fails :
    store healthy_server
      (record order { payload = record order.payload { customer_id = "CUS\01" } })
      empty
    ≡ raise (database_error "DataError") (record { tables = empty.tables; calls = 3 })
unfolding store insert_claim insert_order
null_text_fails = refl

fetch_order-store_example :
    (amount : Decimal) × (db2 : Database Tables) × (amount_column order.payload.amount
      ≡ value amount)
    × (fetch_order healthy_server "ORD-1" once ≡ ok (some (order_with order amount)) db2)
    × (db2.tables ≡ once.tables)
fetch_order-store_example =
    fetch_order-store healthy_server healthy_server-IsHealthy healthy_server order empty once
      is_fresh store_order refl
