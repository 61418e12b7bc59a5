-- ===== src/OrderStore/Fresh.antt =====
-- A new event at a healthy server: `store`, and `mark_completed` after it.
use kafka_sqs.Base.{ℕ, ◌+◌, ◌≡◌, refl, true, false, some, List, [], ◌∷◌, arith}
use kafka_sqs.Base.Lists.{length, any, select}
use kafka_sqs.Base.Effect.{value, ok}
use kafka_sqs.Contracts.Event.{Uuid, Decimal, OrderCreatedEvent}
use kafka_sqs.Postgres.{Server, Database}
use kafka_sqs.Postgres.Transaction.{IsHealthy}
use kafka_sqs.OrderStore.Rows.{
  Tables, OrderRow, ProcessedRow, has_id, has_source, has_order_id, insert_claim, insert_order,
  amount_column, update_completed, complete_rows, complete_row, new_claim, new_order, has_null_text,
}
use kafka_sqs.OrderStore.{store, mark_completed}

-- The tables exist, know neither the event nor its order, and the columns take its texts and its
-- amount.
pub record Unknown (event : OrderCreatedEvent) (t : Tables) : Type 0 where
  pub os : List OrderRow
  pub ps : List ProcessedRow
  pub amount : Decimal
  pub orders : t.orders ≡ some os
  pub claims : t.processed_events ≡ some ps
  pub no_claim : any (has_id event.event_id) ps ≡ false
  pub no_order : any (has_order_id event.payload.order_id) os ≡ false
  pub no_source : any (has_source event.event_id) os ≡ false
  pub clean : has_null_text event ≡ false
  pub fits : amount_column event.payload.amount ≡ value amount

complete_rows_unchanged :
    (now : ℕ) (id : Uuid) (ps : List ProcessedRow)
    → any (has_id id) ps ≡ false
    → complete_rows now id ps ≡ ps
unfolding complete_rows
complete_rows_unchanged now id [] h = refl
complete_rows_unchanged now id (row ∷ ps) h = ground (arith, complete_rows_unchanged now id ps)

select_none :
    (id : Uuid) (ps : List ProcessedRow)
    → any (has_id id) ps ≡ false
    → length (select (has_id id) ps) ≡ 0
select_none id [] h = refl
select_none id (row ∷ ps) h = ground (arith, select_none id ps)

module _ (server : Server) (healthy : IsHealthy server) (event : OrderCreatedEvent) where
  module _ (db : Database Tables) (u : Unknown event db.tables) where
    abbrev pub stored_tables : Tables
    stored_tables = record {
      orders = some (new_order (server.clock db.calls) event u.amount ∷ u.os);
      processed_events =
          some (new_claim (server.clock db.calls) event.event_id event.event_type ∷ u.ps);
    }

    abbrev pub stored_db : Database Tables
    stored_db = record { tables = stored_tables; calls = db.calls + 1 + 1 + 1 + 1 }

    pub store_unknown :
        store server event db ≡ ok (record { is_new = true; downstream_required = true }) stored_db
    unfolding store insert_claim insert_order
    store_unknown = ground (
      arith,
      u.orders,
      u.claims,
      u.no_claim,
      u.no_order,
      u.no_source,
      u.clean,
      u.fits,
      healthy.connects db.calls,
      healthy.runs (db.calls + 1),
      healthy.runs (db.calls + 1 + 1),
      healthy.commits (db.calls + 1 + 1 + 1),
    )

  module _ (now first_seen_at : ℕ) (ps : List ProcessedRow)
      (unclaimed : any (has_id event.event_id) ps ≡ false) where
    abbrev claim : ProcessedRow
    claim = new_claim first_seen_at event.event_id event.event_type

    complete_rows_new : complete_rows now event.event_id (claim ∷ ps) ≡ complete_row now claim ∷ ps
    unfolding complete_rows
    complete_rows_new = ground (arith, complete_rows_unchanged now event.event_id ps unclaimed)

    select_new : length (select (has_id event.event_id) (claim ∷ ps)) ≡ 1
    select_new = ground (arith, select_none event.event_id ps unclaimed)

  module _ (db : Database Tables) (u : Unknown event db.tables) where
    abbrev pub completed_db : Database Tables
    completed_db = record {
      tables = record (stored_tables db u) {
        processed_events = some (
            complete_row (server.clock (db.calls + 1 + 1 + 1 + 1))
              (new_claim (server.clock db.calls) event.event_id event.event_type)
            ∷ u.ps);
      };
      calls = db.calls + 1 + 1 + 1 + 1 + 1 + 1 + 1;
    }

    pub mark_completed_unknown :
        mark_completed server event.event_id (stored_db db u) ≡ ok tt completed_db
    unfolding mark_completed update_completed
    mark_completed_unknown = ground (
      arith,
      complete_rows_new (server.clock (db.calls + 1 + 1 + 1 + 1)) (server.clock db.calls) u.ps
          u.no_claim,
      select_new (server.clock (db.calls + 1 + 1 + 1 + 1)) (server.clock db.calls) u.ps u.no_claim,
      healthy.connects (db.calls + 1 + 1 + 1 + 1),
      healthy.runs (db.calls + 1 + 1 + 1 + 1 + 1),
      healthy.commits (db.calls + 1 + 1 + 1 + 1 + 1 + 1),
    )
