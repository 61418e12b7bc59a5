-- ===== src/OrderStore.antt =====
-- order_processing/postgres_order_store.py: the methods of `PostgresOrderStore`. The tables are
-- those of the configured schema; `server` is what may go wrong at PostgreSQL.
pub mod Rows
mod Examples
pub mod Effects
pub mod Idempotent
pub mod Consistent
pub mod Ledger
pub mod Refines
pub mod Listing
pub mod Lookup
pub mod Lasting
pub mod Fresh
use Prim.Native.Char.{code}
use Prim.Native.String.{[] as text_nil, ◌∷◌ as text_cons}
use kafka_sqs.Base.{
  ℕ, zero, suc, String, ◌<>◌, Bool, true, false, not, ◌&&◌, ◌||◌, Option, none, some, List, [], ◌∷◌,
  map, str_eq, ltb, leb, ◌==◌, if◌then◌else◌,
}
use kafka_sqs.Base.Int.{ℤ, pos, leb_ℤ, pos_part}
use kafka_sqs.Base.Sort.{sort_by}
use kafka_sqs.Base.Lists.{length, take, any, find}
use kafka_sqs.Base.Text.{str_uuid}
use kafka_sqs.Base.Effect.{
  Reply, value, error, Eff, pure, throw, ◌>>=◌, ◌>>◌, value_error, runtime_error,
}
use kafka_sqs.Contracts.Event.{Uuid, OrderCreatedEvent}
use kafka_sqs.Postgres.{Server, Database, execute, transaction}
use kafka_sqs.OrderStore.Rows.{
  StoredOrder, OrderRow, ProcessedRow, Tables, Status, is_completed, has_id, has_order_id,
  undefined_table, has_null, null_in_text, create_schema, create_orders, create_processed_events,
  insert_claim, select_status, insert_order, update_completed, delete_orders, delete_claims,
}

-- What `store` decides about a delivery.
pub record EventStoreResult : Type 0 where
  pub is_new : Bool
  pub downstream_required : Bool

pub record PostgresOrderStore : Type 0 where
  pub dsn : String
  pub schema : String

abbrev is_lower : ℕ → Bool
is_lower c = (leb 97 c && leb c 122) || (c == 95)

abbrev is_name_rest : ℕ → Bool
is_name_rest c = is_lower c || (leb 48 c && leb c 57)

-- At most `n` characters of [a-z0-9_].
is_name_tail : ℕ → String → Bool
is_name_tail n text_nil = true
is_name_tail zero (text_cons c s) = false
is_name_tail (suc n) (text_cons c s) = is_name_rest (code c) && is_name_tail n s

-- _SCHEMA_NAME.fullmatch: ^[a-z_][a-z0-9_]{0,62}$
unfoldable pub is_schema_name : String → Bool
unfolding is_name_tail
is_schema_name text_nil = false
is_schema_name (text_cons c s) = is_lower (code c) && is_name_tail 62 s

-- __init__
unfoldable pub make_store : String → String → Reply PostgresOrderStore
make_store dsn schema =
    if is_schema_name schema
    then value (record { dsn = dsn; schema = schema })
    else error (value_error "Unsafe PostgreSQL schema name.")

abbrev existing_result : Uuid → Option Status → Eff (Database Tables) EventStoreResult
existing_result id none =
    throw (runtime_error ("Event claim disappeared for " <> (str_uuid id <> ".")))
existing_result id (some status) =
    pure (record { is_new = false; downstream_required = not (is_completed status) })

abbrev pub order_of : Option OrderRow → Option StoredOrder
order_of none = none
order_of (some row) = some row.order

abbrev rows_or_undefined {ℓ} : {A : Type 0} {B : Type ℓ} → Option (List A) → (List A → B) → Reply B
rows_or_undefined none f = error undefined_table
rows_or_undefined (some rows) f = value (f rows)

-- ORDER BY created_at DESC; rows of one time in the order of the table, which SQL leaves open.
abbrev pub newer : OrderRow → OrderRow → Bool
newer row other = leb other.created_at row.created_at

unfoldable pub newest_first : List OrderRow → List OrderRow
unfolding sort_by
newest_first = sort_by newer

abbrev query_orders : {A : Type 0} → (List OrderRow → A) → Tables → Reply (A × Tables)
query_orders f t = rows_or_undefined t.orders λ rows. (f rows, t)

abbrev query_events : {A : Type 0} → (List ProcessedRow → A) → Tables → Reply (A × Tables)
query_events f t = rows_or_undefined t.processed_events λ rows. (f rows, t)

module _ (server : Server) where
  unfoldable pub initialize : Eff (Database Tables) (Unit {0})
  initialize = transaction server λ now. do
    execute server create_schema
    execute server create_orders
    execute server create_processed_events

  abbrev claimed_result :
      ℕ → OrderCreatedEvent → Option Uuid → Eff (Database Tables) EventStoreResult
  claimed_result now event none = do
    existing ← execute server (select_status event.event_id)
    existing_result event.event_id existing
  claimed_result now event (some id) = do
    execute server (insert_order now event)
    pure (record { is_new = true; downstream_required = true })

  abbrev pub store_block : OrderCreatedEvent → ℕ → Eff (Database Tables) EventStoreResult
  store_block event now = do
    claimed ← execute server (insert_claim now event.event_id event.event_type)
    claimed_result now event claimed

  unfoldable pub store : OrderCreatedEvent → Eff (Database Tables) EventStoreResult
  store event = transaction server (store_block event)

  abbrev check_completed : Uuid → ℕ → Eff (Database Tables) (Unit {0})
  check_completed id rowcount =
      if rowcount == 1
      then pure tt
      else throw (runtime_error ("Cannot complete unknown event " <> (str_uuid id <> ".")))

  abbrev pub complete_block : Uuid → ℕ → Eff (Database Tables) (Unit {0})
  complete_block id now = do
    rowcount ← execute server (update_completed now id)
    check_completed id rowcount

  unfoldable pub mark_completed : Uuid → Eff (Database Tables) (Unit {0})
  mark_completed id = transaction server (complete_block id)

  abbrev pub discard_block : Uuid → ℕ → Eff (Database Tables) (Unit {0})
  discard_block id now = do execute server (delete_orders id); execute server (delete_claims id)

  unfoldable pub discard : Uuid → Eff (Database Tables) (Unit {0})
  discard id = transaction server (discard_block id)

  unfoldable pub fetch_order : String → Eff (Database Tables) (Option StoredOrder)
  fetch_order order_id = transaction server λ now. execute server λ t.
      if has_null order_id
      then error null_in_text
      else query_orders (λ rows. order_of (find (has_order_id order_id) rows)) t

  unfoldable pub list_orders : ℤ → Eff (Database Tables) (List StoredOrder)
  unfolding newest_first
  list_orders limit =
      if leb_ℤ limit (pos 0)
      then throw (value_error "limit must be greater than zero.")
      else transaction server λ now.
        execute server
          (query_orders λ rows. map (λ row. row.order) (take (pos_part limit) (newest_first rows)))

  unfoldable pub has_processed : Uuid → Eff (Database Tables) Bool
  has_processed id = transaction server λ now.
      execute server
        (query_events λ rows. any (λ row. has_id id row && is_completed row.status) rows)

  unfoldable pub order_count : Eff (Database Tables) ℕ
  order_count = transaction server λ now. execute server (query_orders length)

  unfoldable pub processed_event_count : Eff (Database Tables) ℕ
  processed_event_count = transaction server λ now. execute server (query_events length)

  unfoldable pub drop_processed_events_table : Eff (Database Tables) (Unit {0})
  drop_processed_events_table = transaction server λ now.
      execute server
        λ t. rows_or_undefined t.processed_events λ _. (tt, record t { processed_events = none })

  -- DROP SCHEMA IF EXISTS ... CASCADE
  unfoldable pub drop_schema : PostgresOrderStore → Eff (Database Tables) (Unit {0})
  drop_schema self =
      if str_eq self.schema "public"
      then throw (value_error "The shared public schema cannot be dropped.")
      else transaction server
          λ now. execute server λ t. value (tt, record { orders = none; processed_events = none })
