-- ===== src/OrderStore/Effects.antt =====
-- What a successful `store`, `mark_completed` or `discard` has done to the tables.
use kafka_sqs.Base.{
  ℕ, ◌≡◌, ◌⊎◌, inl, inr, true, false, not, some, List, ◌∷◌, arith, Bool-cases, Option-cases,
}
use kafka_sqs.Base.Lists.{length, any, select, find}
use kafka_sqs.Base.Effect.{Reply-cases, Exc, value, ok, raise}
use kafka_sqs.Contracts.Event.{Uuid, Decimal, OrderCreatedEvent}
use kafka_sqs.Postgres.{Server, Database}
use kafka_sqs.Postgres.Transaction.{
  AnswersCommits, LostCommit, transaction_ok, transaction_either, transaction_raise,
}
use kafka_sqs.OrderStore.Rows.{
  Tables, OrderRow, ProcessedRow, insert_claim, select_status, insert_order, update_completed,
  delete_orders, delete_claims, is_completed, has_id, has_order_id, has_source, amount_column,
  new_claim, new_order, complete_rows, has_null_text,
}
use kafka_sqs.OrderStore.{
  EventStoreResult, store, store_block, mark_completed, complete_block, discard, discard_block,
}

-- The two ways in which a delivery is stored.
pub data StoreEffect (now : ℕ) (event : OrderCreatedEvent) (t : Tables) (r : EventStoreResult)
    (t' : Tables) : Type 0 where
  fresh :
      (os : List OrderRow) (ps : List ProcessedRow) (amount : Decimal)
      → t.orders ≡ some os
      → t.processed_events ≡ some ps
      → any (has_id event.event_id) ps ≡ false
      → any (has_order_id event.payload.order_id) os ≡ false
      → any (has_source event.event_id) os ≡ false
      → has_null_text event ≡ false
      → amount_column event.payload.amount ≡ value amount
      → r ≡ record { is_new = true; downstream_required = true }
      → t' ≡ record {
        orders = some (new_order now event amount ∷ os);
        processed_events = some (new_claim now event.event_id event.event_type ∷ ps);
      }
      → StoreEffect now event t r t'
  repeated :
      (ps : List ProcessedRow) (row : ProcessedRow)
      → t.processed_events ≡ some ps
      → find (has_id event.event_id) ps ≡ some row
      → r ≡ record { is_new = false; downstream_required = not (is_completed row.status) }
      → t' ≡ t
      → StoreEffect now event t r t'

-- The one row of the event is completed, and the orders stay as they are.
abbrev pub CompleteEffect : ℕ → Uuid → Tables → Tables → Type 0
CompleteEffect now id t t' =
    (ps : List ProcessedRow) × (t.processed_events ≡ some ps)
    × (length (select (has_id id) ps) ≡ 1)
    × (t' ≡ record t { processed_events = some (complete_rows now id ps) })

-- No row of the event is left in either table, and the others stay.
abbrev pub DiscardEffect : Uuid → Tables → Tables → Type 0
DiscardEffect id t t' =
    (os : List OrderRow) × (ps : List ProcessedRow) × (t.orders ≡ some os)
    × (t.processed_events ≡ some ps)
    × (t' ≡ record {
      orders = some (select (λ row. not (has_source id row)) os);
      processed_events = some (select (λ row. not (has_id id row)) ps);
    })

module _ (server : Server) where
  store_block_lem :
      (now : ℕ) (event : OrderCreatedEvent) (db last : Database Tables) (r : EventStoreResult)
      → store_block server event now db ≡ ok r last
      → StoreEffect now event db.tables r last.tables
  unfolding insert_claim select_status insert_order
  store_block_lem now event db last r h = elim (Option-cases db.tables.processed_events) [
    | inl e ↦ ground arith
    | inr (ps, e) ↦ elim (Bool-cases (any (has_id event.event_id) ps)) [
      | inl old ↦ elim (Option-cases (find (has_id event.event_id) ps)) [
        | inl f ↦ ground arith
        | inr (row, f) ↦ repeated ps row e f (ground arith) (ground arith)
      ]
      | inr new ↦ elim (Bool-cases (has_null_text event)) [
        | inl null ↦ ground arith
        | inr clean ↦ elim (Option-cases db.tables.orders) [
          | inl f ↦ ground arith
          | inr (os, f) ↦ elim (Reply-cases (amount_column event.payload.amount)) [
            | inl (amount, g) ↦
                fresh os ps amount f e new (ground arith) (ground arith) clean g (ground arith)
                  (ground arith)
            | inr (x, g) ↦ ground arith
          ]
        ]
      ]
    ]
  ]

  -- A `store` that returns has run one of the two cases on the tables that it found.
  pub store_ok :
      (event : OrderCreatedEvent) (db db' : Database Tables) (r : EventStoreResult)
      → store server event db ≡ ok r db'
      → StoreEffect (server.clock db.calls) event db.tables r db'.tables
  unfolding store
  store_ok event db db' r h =
      let c = transaction_ok server (store_block server event) db db' r h in
      rw c.kept (store_block_lem (server.clock db.calls) event _ c.last r c.ran)

  complete_block_lem :
      (now : ℕ) (id : Uuid) (db last : Database Tables)
      → complete_block server id now db ≡ ok tt last
      → CompleteEffect now id db.tables last.tables
  unfolding update_completed
  complete_block_lem now id db last h = elim (Option-cases db.tables.processed_events) [
    | inl e ↦ ground arith
    | inr (ps, e) ↦ (ps, e, ground arith, ground arith)
  ]

  pub mark_completed_ok :
      (id : Uuid) (db db' : Database Tables)
      → mark_completed server id db ≡ ok tt db'
      → CompleteEffect (server.clock db.calls) id db.tables db'.tables
  unfolding mark_completed
  mark_completed_ok id db db' h =
      let c = transaction_ok server (complete_block server id) db db' tt h in
      rw c.kept (complete_block_lem (server.clock db.calls) id _ c.last c.ran)

  discard_block_lem :
      (now : ℕ) (id : Uuid) (db last : Database Tables)
      → discard_block server id now db ≡ ok tt last
      → DiscardEffect id db.tables last.tables
  unfolding delete_orders delete_claims
  discard_block_lem now id db last h = elim (Option-cases db.tables.orders) [
    | inl e ↦ ground arith
    | inr (os, e) ↦ elim (Option-cases db.tables.processed_events) [
      | inl f ↦ ground arith
      | inr (ps, f) ↦ (os, ps, e, f, ground arith)
    ]
  ]

  pub discard_ok :
      (id : Uuid) (db db' : Database Tables)
      → discard server id db ≡ ok tt db'
      → DiscardEffect id db.tables db'.tables
  unfolding discard
  discard_ok id db db' h =
      let c = transaction_ok server (discard_block server id) db db' tt h in
      rw c.kept (discard_block_lem (server.clock db.calls) id _ c.last c.ran)

-- A call of one of the three that raises has changed nothing, unless its commit was carried out and
-- the acknowledgement of it was lost.
module _ (server : Server) (db db' : Database Tables) (e : Exc) where
  -- A `store` that raises has changed nothing, unless it ran to its end, its commit was carried out,
  -- and the exception is that of the lost acknowledgement of this commit: then the tables are those of
  -- one complete effect of `store`.
  pub store_either :
      (event : OrderCreatedEvent)
      → store server event db ≡ raise e db'
      → (db'.tables ≡ db.tables)
        ⊎ ((r : EventStoreResult) × StoreEffect (server.clock db.calls) event db.tables r db'.tables
            × LostCommit server (store_block server event) db r e)
  unfolding store
  store_either event h = elim (transaction_either server (store_block server event) db db' e h) [
    | inl same ↦ inl same
    | inr (r, c, lost) ↦
        inr (
          r,
          rw c.kept (store_block_lem server (server.clock db.calls) event _ c.last r c.ran),
          lost,
        )
  ]

  pub mark_completed_either :
      (id : Uuid)
      → mark_completed server id db ≡ raise e db'
      → (db'.tables ≡ db.tables) ⊎ CompleteEffect (server.clock db.calls) id db.tables db'.tables
  unfolding mark_completed
  mark_completed_either id h =
      elim (transaction_either server (complete_block server id) db db' e h) [
        | inl same ↦ inl same
        | inr (tt, c, lost) ↦
            inr (rw c.kept (complete_block_lem server (server.clock db.calls) id _ c.last c.ran))
      ]

  pub discard_either :
      (id : Uuid)
      → discard server id db ≡ raise e db'
      → (db'.tables ≡ db.tables) ⊎ DiscardEffect id db.tables db'.tables
  unfolding discard
  discard_either id h = elim (transaction_either server (discard_block server id) db db' e h) [
    | inl same ↦ inl same
    | inr (tt, c, lost) ↦
        inr (rw c.kept (discard_block_lem server (server.clock db.calls) id _ c.last c.ran))
  ]

-- A call of one of the three that raises is rolled back.
module _ (server : Server) (answers : AnswersCommits server) (db db' : Database Tables)
    (e : Exc) where
  pub store_raise :
      (event : OrderCreatedEvent) → store server event db ≡ raise e db' → db'.tables ≡ db.tables
  unfolding store
  store_raise event h = transaction_raise server (store_block server event) db db' e answers h

  pub mark_completed_raise :
      (id : Uuid) → mark_completed server id db ≡ raise e db' → db'.tables ≡ db.tables
  unfolding mark_completed
  mark_completed_raise id h = transaction_raise server (complete_block server id) db db' e answers h

  pub discard_raise : (id : Uuid) → discard server id db ≡ raise e db' → db'.tables ≡ db.tables
  unfolding discard
  discard_raise id h = transaction_raise server (discard_block server id) db db' e answers h
