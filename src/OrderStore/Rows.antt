-- ===== src/OrderStore/Rows.antt =====
-- order_processing/postgres_order_store.py: the two tables and the SQL statements over them.
-- A table is `none` while it does not exist. New rows stand in front.
use Prim.Native.Char.{code}
use Prim.Native.String.{[] as text_nil, ◌∷◌ as text_cons}
use kafka_sqs.Base.{
  ℕ, suc, ◌+◌, ◌*◌, ◌/◌, ◌^◌, String, Bool, true, false, not, Option, none, some, List, [], ◌∷◌,
  ◌||◌, str_eq, ltb, leb, ◌==◌, if◌then◌else◌,
}
use kafka_sqs.Base.Int.{pos, negsuc}
use kafka_sqs.Base.Lists.{length, any, select, find}
use kafka_sqs.Base.Effect.{Exc, Reply, value, error}
use kafka_sqs.Contracts.Event.{Uuid, Decimal, OrderCreatedEvent}

pub data Status : Type 0 where
  pending completed : Status

abbrev pub is_completed : Status → Bool
is_completed pending = false
is_completed completed = true

pub record StoredOrder : Type 0 where
  pub order_id : String
  pub customer_id : String
  pub amount : Decimal
  pub currency : String
  pub source_event_id : Uuid
  pub correlation_id : String

pub record OrderRow : Type 0 where
  pub order : StoredOrder
  pub open order use *
  pub created_at : ℕ

pub record ProcessedRow : Type 0 where
  pub event_id : Uuid
  pub event_type : String
  pub status : Status
  pub first_seen_at : ℕ
  pub processed_at : Option ℕ

pub record Tables : Type 0 where
  pub orders : Option (List OrderRow)
  pub processed_events : Option (List ProcessedRow)

abbrev pub database_error : String → Exc
database_error c = record { classes = c ∷ "DatabaseError" ∷ "Error" ∷ "Exception" ∷ []; text = "" }

-- A statement that names a table which does not exist.
abbrev pub undefined_table : Exc
undefined_table = database_error "UndefinedTable"

-- psycopg refuses a text parameter that holds U+0000, before it is sent.
abbrev pub has_null : String → Bool
has_null text_nil = false
has_null (text_cons c s) = (code c == 0) || has_null s

abbrev pub null_in_text : Exc
null_in_text = database_error "DataError"

abbrev or_undefined : {A B : Type 0} → Option A → (A → Reply B) → Reply B
or_undefined none f = error undefined_table
or_undefined (some rows) f = f rows

-- CREATE SCHEMA IF NOT EXISTS: a table that does not exist may lack its schema as well.
abbrev pub create_schema : Tables → Reply (Unit {0} × Tables)
create_schema t = value (tt, t)

-- CREATE TABLE IF NOT EXISTS: the rows of a table that exists stay.
abbrev created : {A : Type 0} → Option (List A) → Option (List A)
created none = some []
created (some rows) = some rows

abbrev pub create_orders : Tables → Reply (Unit {0} × Tables)
create_orders t = value (tt, record t { orders = created t.orders })

abbrev pub create_processed_events : Tables → Reply (Unit {0} × Tables)
create_processed_events t = value (tt, record t { processed_events = created t.processed_events })

abbrev pub has_id : Uuid → ProcessedRow → Bool
has_id id row = row.event_id == id

abbrev pub has_source : Uuid → OrderRow → Bool
has_source id row = row.source_event_id == id

abbrev pub has_order_id : String → OrderRow → Bool
has_order_id id row = str_eq row.order_id id

abbrev pub new_claim : ℕ → Uuid → String → ProcessedRow
new_claim now id event_type = record {
  event_id = id;
  event_type = event_type;
  status = pending;
  first_seen_at = now;
  processed_at = none;
}

-- `event_type` is one of the literals of the model, without U+0000.
-- INSERT INTO processed_events ... ON CONFLICT (event_id) DO NOTHING RETURNING event_id
unfoldable pub insert_claim : ℕ → Uuid → String → Tables → Reply (Option Uuid × Tables)
insert_claim now id event_type t = or_undefined t.processed_events λ rows.
    if any (has_id id) rows
    then value (none, t)
    else value (some id, record t { processed_events = some (new_claim now id event_type ∷ rows) })

abbrev status_of : Option ProcessedRow → Option Status
status_of none = none
status_of (some row) = some row.status

-- SELECT status FROM processed_events WHERE event_id = %s
unfoldable pub select_status : Uuid → Tables → Reply (Option Status × Tables)
select_status id t =
    or_undefined t.processed_events λ rows. value (status_of (find (has_id id) rows), t)

-- NUMERIC(18, 2): rounded to hundredths, a half away from zero, with at most 18 digits.
unfoldable pub hundredths : ℕ → ℕ → ℕ
hundredths digits places = (2 * (digits * 100) + 10 ^ places) / (2 * 10 ^ places)

abbrev pub positive_numeric : ℕ → Reply Decimal
positive_numeric cents =
    if leb (10 ^ 18) cents
    then error (database_error "NumericValueOutOfRange")
    else if ltb 0 cents
    then value (record { digits = pos cents; places = 2 })
    else error (database_error "CheckViolation")

-- The column `amount NUMERIC(18, 2) CHECK (amount > 0)`.
unfoldable pub amount_column : Decimal → Reply Decimal
unfolding hundredths
amount_column d = elim d.digits [
  | pos n ↦ positive_numeric (hundredths n d.places)
  | negsuc n ↦
      if leb (10 ^ 18) (hundredths (suc n) d.places)
      then error (database_error "NumericValueOutOfRange")
      else error (database_error "CheckViolation")
]

abbrev pub new_order : ℕ → OrderCreatedEvent → Decimal → OrderRow
new_order now event amount = record {
  order = record {
    order_id = event.payload.order_id;
    customer_id = event.payload.customer_id;
    amount = amount;
    currency = event.payload.currency;
    source_event_id = event.event_id;
    correlation_id = event.correlation_id;
  };
  created_at = now;
}

abbrev place_order :
    ℕ → OrderCreatedEvent → Tables → List OrderRow → Reply Decimal → Reply (Unit {0} × Tables)
place_order now event t rows (error e) = error e
place_order now event t rows (value amount) =
    if any (has_order_id event.payload.order_id) rows
    then error (database_error "UniqueViolation")
    else if any (has_source event.event_id) rows
    then error (database_error "UniqueViolation")
    else value (tt, record t { orders = some (new_order now event amount ∷ rows) })

-- The texts of the row; its other values are numbers, UUIDs and times.
abbrev pub has_null_text : OrderCreatedEvent → Bool
has_null_text event =
    has_null event.payload.order_id
    || has_null event.payload.customer_id
    || has_null event.payload.currency
    || has_null event.correlation_id

-- INSERT INTO orders (...) VALUES (...): the parameters, the CHECK, the primary key and the UNIQUE
-- column.
unfoldable pub insert_order : ℕ → OrderCreatedEvent → Tables → Reply (Unit {0} × Tables)
insert_order now event t =
    if has_null_text event
    then error null_in_text
    else or_undefined t.orders
        λ rows. place_order now event t rows (amount_column event.payload.amount)

abbrev pub complete_row : ℕ → ProcessedRow → ProcessedRow
complete_row now row = record row { status = completed; processed_at = some now }

unfoldable pub complete_rows : ℕ → Uuid → List ProcessedRow → List ProcessedRow
complete_rows now id [] = []
complete_rows now id (row ∷ rows) =
    (if has_id id row then complete_row now row else row) ∷ complete_rows now id rows

-- UPDATE processed_events SET status = 'completed', ... WHERE event_id = %s: the number of rows.
unfoldable pub update_completed : ℕ → Uuid → Tables → Reply (ℕ × Tables)
unfolding complete_rows
update_completed now id t = or_undefined t.processed_events λ rows. value (
  length (select (has_id id) rows),
  record t { processed_events = some (complete_rows now id rows) },
)

-- DELETE FROM orders WHERE source_event_id = %s
unfoldable pub delete_orders : Uuid → Tables → Reply (Unit {0} × Tables)
delete_orders id t =
    or_undefined t.orders
      λ rows. value (tt, record t { orders = some (select (λ row. not (has_source id row)) rows) })

-- DELETE FROM processed_events WHERE event_id = %s
unfoldable pub delete_claims : Uuid → Tables → Reply (Unit {0} × Tables)
delete_claims id t = or_undefined t.processed_events λ rows.
    value (tt, record t { processed_events = some (select (λ row. not (has_id id row)) rows) })
