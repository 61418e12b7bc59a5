-- ===== src/OrderStore/Lookup.antt =====
-- What the queries find after a `store` and a `mark_completed`.
use kafka_sqs.Base.{
  String, ℕ, ◌+◌, ◌≡◌, refl, inl, inr, Bool-cases, [], true, false, Option, some, List, ◌∷◌, ◌&&◌,
  arith,
}
use text.Mathlib.TextEquality.{eq_iff}
use kafka_sqs.Base.Lists.{any, find}
use kafka_sqs.Base.Effect.{value, ok}
use kafka_sqs.Contracts.Event.{Uuid, Decimal, OrderCreatedEvent}
use kafka_sqs.Postgres.{Server, Database}
use kafka_sqs.Postgres.Transaction.{IsHealthy}
use kafka_sqs.OrderStore.Rows.{
  Tables, OrderRow, ProcessedRow, StoredOrder, has_id, has_order_id, is_completed, new_order,
  amount_column, has_null,
}
use kafka_sqs.OrderStore.{
  EventStoreResult, order_of, store, mark_completed, fetch_order, has_processed,
}
use kafka_sqs.OrderStore.Effects.{StoreEffect, fresh, repeated, store_ok, mark_completed_ok}
use kafka_sqs.OrderStore.Idempotent.{CompleteEffect-Claims}
use mathlib.Core.Path.{ap}

-- The order of an event, with the amount as the column holds it.
abbrev pub order_with : OrderCreatedEvent → Decimal → StoredOrder
order_with event amount = record {
  order_id = event.payload.order_id;
  customer_id = event.payload.customer_id;
  amount = amount;
  currency = event.payload.currency;
  source_event_id = event.event_id;
  correlation_id = event.correlation_id;
}

module _ (server : Server) (healthy : IsHealthy server) where
  pub fetch_order_found :
      (id : String) (db : Database Tables) (os : List OrderRow) (found : Option OrderRow)
      → has_null id ≡ false
      → db.tables.orders ≡ some os
      → find (has_order_id id) os ≡ found
      → (db' : Database Tables) × (fetch_order server id db ≡ ok (order_of found) db')
        × (db'.tables ≡ db.tables)
  unfolding fetch_order
  fetch_order_found id db os found clean e f = (
    record { tables = db.tables; calls = db.calls + 1 + 1 + 1 },
    ground (
      arith,
      healthy.connects db.calls,
      healthy.runs (db.calls + 1),
      healthy.commits (db.calls + 1 + 1),
    ),
    refl,
  )

  stored_row :
      (now : ℕ) (event : OrderCreatedEvent) (t t' : Tables) (r : EventStoreResult)
      → r.is_new ≡ true
      → StoreEffect now event t r t'
      → (os : List OrderRow) × (amount : Decimal) × (amount_column event.payload.amount
          ≡ value amount)
        × (has_null event.payload.order_id ≡ false)
        × (t'.orders ≡ some (new_order now event amount ∷ os))
  stored_row now event t t' r new
        (fresh os ps amount eo ep unclaimed unused unsourced clean fits er e) =
      (os, amount, fits, ground arith, ground arith)
  stored_row now event t t' r new (repeated ps row ep f er e) = absurd (ground arith)

  -- After a store that claimed its event as new, fetch_order at a healthy server returns the order of
  -- the event, with its amount as the column rounds it, and changes no row.
  pub fetch_order-store :
      (first : Server) (event : OrderCreatedEvent) (db db1 : Database Tables) (r : EventStoreResult)
      → store first event db ≡ ok r db1
      → r.is_new ≡ true
      → (amount : Decimal) × (db2 : Database Tables) × (amount_column event.payload.amount
          ≡ value amount)
        × (fetch_order server event.payload.order_id db1 ≡ ok (some (order_with event amount)) db2)
        × (db2.tables ≡ db1.tables)
  fetch_order-store first event db db1 r h new =
      let (os, amount, fits, clean, rows) =
        stored_row (first.clock db.calls) event _ _ r new (store_ok first event db db1 r h) in
      let row = new_order (first.clock db.calls) event amount in
      let (db2, found, same) =
        fetch_order_found event.payload.order_id db1 (row ∷ os) (some row) clean rows
          (rw ((eq_iff event.payload.order_id event.payload.order_id).1 refl) refl) in
      (amount, db2, fits, found, same)

  has_processed_found :
      (id : Uuid) (db : Database Tables) (ps : List ProcessedRow)
      → db.tables.processed_events ≡ some ps
      → any (λ r. has_id id r && is_completed r.status) ps ≡ true
      → (db' : Database Tables) × (has_processed server id db ≡ ok true db')
        × (db'.tables ≡ db.tables)
  unfolding has_processed
  has_processed_found id db ps e f = (
    record { tables = db.tables; calls = db.calls + 1 + 1 + 1 },
    ground (
      arith,
      healthy.connects db.calls,
      healthy.runs (db.calls + 1),
      healthy.commits (db.calls + 1 + 1),
    ),
    refl,
  )

  any_completed :
      (id : Uuid) (ps : List ProcessedRow) (row : ProcessedRow)
      → find (has_id id) ps ≡ some row
      → is_completed row.status ≡ true
      → any (λ r. has_id id r && is_completed r.status) ps ≡ true
  any_completed id [] row f done = absurd (cc)
  any_completed id (r ∷ ps) row f done = elim (Bool-cases (has_id id r)) [
    | inl here ↦
        let same : r ≡ row = ground arith in ground (arith, ap (λ x. is_completed x.status) same)
    | inr below ↦ ground (arith, any_completed id ps row)
  ]

  -- After a mark_completed that returned, has_processed of that event at a healthy server returns
  -- true, and changes no row.
  has_processed-mark_completed :
      (first : Server) (id : Uuid) (db db1 : Database Tables)
      → mark_completed first id db ≡ ok tt db1
      → (db2 : Database Tables) × (has_processed server id db1 ≡ ok true db2)
        × (db2.tables ≡ db1.tables)
  has_processed-mark_completed first id db db1 h =
      let (ps, row, e, f, done) =
        CompleteEffect-Claims _ id _ _ (mark_completed_ok first id db db1 h) in
      has_processed_found id db1 ps e (any_completed id ps row f (ground arith))
