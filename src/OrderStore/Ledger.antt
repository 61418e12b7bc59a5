-- ===== src/OrderStore/Ledger.antt =====
-- What the two tables of order_processing/postgres_order_store.py promise together, with no rows,
-- times or order in sight: for each event, its order and whether its downstream work is done.
use kafka_sqs.Base.{Bool, true, false, not, Option, none, some, List, ◌==◌, if◌then◌else◌}
use kafka_sqs.Base.Lists.{find}
use kafka_sqs.Base.Effect.{Reply, value, error}
use kafka_sqs.Contracts.Event.{Uuid, Decimal, OrderCreatedEvent}
use kafka_sqs.OrderStore.Rows.{
  Tables, StoredOrder, OrderRow, ProcessedRow, has_id, has_source, is_completed, amount_column,
}
use kafka_sqs.OrderStore.{EventStoreResult}

pub record Entry : Type 0 where
  pub order : StoredOrder
  pub done : Bool

abbrev pub Ledger : Type 0
Ledger = Uuid → Option Entry

abbrev pub update : Uuid → Option Entry → Ledger → Ledger
update id entry ledger key = if id == key then entry else ledger key

-- The order of an event, with the amount that its column holds.
abbrev pub order_of : OrderCreatedEvent → Decimal → StoredOrder
order_of event amount = record {
  order_id = event.payload.order_id;
  customer_id = event.payload.customer_id;
  amount = amount;
  currency = event.payload.currency;
  source_event_id = event.event_id;
  correlation_id = event.correlation_id;
}

abbrev pub enter :
    OrderCreatedEvent → Ledger → Option Entry → Reply Decimal → Reply (EventStoreResult × Ledger)
enter event ledger (some entry) column =
    value (record { is_new = false; downstream_required = not entry.done }, ledger)
enter event ledger none (error e) = error e
enter event ledger none (value amount) = value (
  record { is_new = true; downstream_required = true },
  update event.event_id (some (record { order = order_of event amount; done = false })) ledger,
)

-- A new event enters its order; a known one is only looked up.
abbrev pub store_entry : OrderCreatedEvent → Ledger → Reply (EventStoreResult × Ledger)
store_entry event ledger =
    enter event ledger (ledger event.event_id) (amount_column event.payload.amount)

abbrev pub mark_done : Option Entry → Option Entry
mark_done none = none
mark_done (some entry) = some (record entry { done = true })

abbrev pub complete_entry : Uuid → Ledger → Ledger
complete_entry id ledger = update id (mark_done (ledger id)) ledger

abbrev pub discard_entry : Uuid → Ledger → Ledger
discard_entry id = update id none

abbrev pub entry_of : Option ProcessedRow → Option OrderRow → Option Entry
entry_of (some row) (some o) = some (record { order = o.order; done = is_completed row.status })
entry_of (some row) none = none
entry_of none o = none

-- The view of the rows that are there.
abbrev pub ledger_of : List OrderRow → List ProcessedRow → Ledger
ledger_of os ps id = entry_of (find (has_id id) ps) (find (has_source id) os)

abbrev pub view_of : Option (List OrderRow) → Option (List ProcessedRow) → Ledger
view_of (some os) (some ps) = ledger_of os ps
view_of (some os) none = λ id. none
view_of none ps = λ id. none

abbrev pub view : Tables → Ledger
view t = view_of t.orders t.processed_events
