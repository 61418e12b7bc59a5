-- ===== src/OrderStore/Idempotent.antt =====
-- Deliveries repeated: the decisions of `store` after a `store`, a `mark_completed` or a `discard`.
use kafka_sqs.Base.{
  inl, inr, ℕ, ◌+◌, ◌≡◌, refl, Bool, true, false, not, some, List, [], ◌∷◌, arith, Bool-cases,
}
use kafka_sqs.Base.Lists.{length, any, select, find}
use kafka_sqs.Base.Select.{any_of_find, select_unchanged}
use kafka_sqs.Base.Effect.{ok}
use kafka_sqs.Contracts.Event.{Uuid, OrderCreatedEvent}
use kafka_sqs.Postgres.{Server, Database}
use kafka_sqs.Postgres.Transaction.{IsHealthy}
use kafka_sqs.OrderStore.Rows.{
  Tables, OrderRow, ProcessedRow, completed, is_completed, has_id, has_source, insert_claim,
  select_status, complete_rows, complete_row, new_claim, new_order,
}
use kafka_sqs.OrderStore.{EventStoreResult, store, mark_completed, discard}
use kafka_sqs.OrderStore.Effects.{
  StoreEffect, fresh, repeated, CompleteEffect, DiscardEffect, store_ok, mark_completed_ok,
  discard_ok,
}

module _ (server : Server) (healthy : IsHealthy server) where
  -- An event that has a row is only read.
  pub store_claimed :
      (event : OrderCreatedEvent) (db : Database Tables) (ps : List ProcessedRow)
      (row : ProcessedRow)
      → db.tables.processed_events ≡ some ps
      → find (has_id event.event_id) ps ≡ some row
      → (db' : Database Tables) × (store server event db
          ≡ ok (record { is_new = false; downstream_required = not (is_completed row.status) }) db')
        × (db'.tables ≡ db.tables)
  unfolding store insert_claim select_status
  store_claimed event db ps row e f = (
    record { tables = db.tables; calls = db.calls + 1 + 1 + 1 + 1 },
    ground (
      arith,
      any_of_find (has_id event.event_id) ps {x = row} f,
      healthy.connects db.calls,
      healthy.runs (db.calls + 1),
      healthy.runs (db.calls + 1 + 1),
      healthy.commits (db.calls + 1 + 1 + 1),
    ),
    refl,
  )

-- The event has a row, and its downstream work is open exactly if `required`.
abbrev pub Claims : Uuid → Bool → Tables → Type 0
Claims id required t =
    (ps : List ProcessedRow) × (row : ProcessedRow) × (t.processed_events ≡ some ps)
    × (find (has_id id) ps ≡ some row)
    × (not (is_completed row.status) ≡ required)

pub StoreEffect-Claims :
    (now : ℕ) (event : OrderCreatedEvent) (t t' : Tables) (r : EventStoreResult)
    → StoreEffect now event t r t'
    → Claims event.event_id r.downstream_required t'
StoreEffect-Claims now event t t' r (fresh os ps amount eo ep new uo us clean col er e) = (
  new_claim now event.event_id event.event_type ∷ ps,
  new_claim now event.event_id event.event_type,
  ground arith,
  ground arith,
  ground arith,
)
StoreEffect-Claims now event t t' r (repeated ps row ep f er e) =
    (ps, row, ground arith, f, ground arith)

find-complete_rows :
    (now : ℕ) (id : Uuid) (ps : List ProcessedRow)
    → any (has_id id) ps ≡ true
    → (row : ProcessedRow) × (find (has_id id) (complete_rows now id ps) ≡ some row)
      × (row.status ≡ completed)
unfolding complete_rows
find-complete_rows now id [] h = absurd (cc)
find-complete_rows now id (row ∷ ps) h = elim (Bool-cases (has_id id row)) [
  | inl here ↦ (complete_row now row, ground arith, refl)
  | inr below ↦
      let (found, f, done) = find-complete_rows now id ps (ground arith) in
      (found, ground arith, done)
]

any_of_length :
    (id : Uuid) (ps : List ProcessedRow)
    → length (select (has_id id) ps) ≡ 1
    → any (has_id id) ps ≡ true
any_of_length id [] h = absurd (omega arith)
any_of_length id (row ∷ ps) h = ground (arith, any_of_length id ps)

pub CompleteEffect-Claims :
    (now : ℕ) (id : Uuid) (t t' : Tables) → CompleteEffect now id t t' → Claims id false t'
CompleteEffect-Claims now id t t' (ps, ep, one, e) =
    let (row, f, done) = find-complete_rows now id ps (any_of_length id ps one) in
    (complete_rows now id ps, row, ground arith, f, ground arith)

module _ (server : Server) (healthy : IsHealthy server) (event : OrderCreatedEvent) where
  pub store-Claims :
      (required : Bool) (db : Database Tables)
      → Claims event.event_id required db.tables
      → (db' : Database Tables) × (store server event db
          ≡ ok (record { is_new = false; downstream_required = required }) db')
        × (db'.tables ≡ db.tables)
  store-Claims required db (ps, row, ep, f, e) =
      let (db', h, same) = store_claimed server healthy event db ps row ep f in
      (db', rw (← e) h, same)

  -- A second delivery of an event is recognised: it changes no row, and it asks for the downstream
  -- work exactly if the first one did.
  pub store-store :
      (first : Server) (db db1 : Database Tables) (r : EventStoreResult)
      → store first event db ≡ ok r db1
      → (db2 : Database Tables) × (store server event db1
          ≡ ok (record { is_new = false; downstream_required = r.downstream_required }) db2)
        × (db2.tables ≡ db1.tables)
  store-store first db db1 r h =
      store-Claims r.downstream_required db1
        (StoreEffect-Claims (first.clock db.calls) event _ _ r (store_ok first event db db1 r h))

  -- Once an event is completed, a later delivery changes no row and asks for no downstream work.
  pub store-mark_completed :
      (first : Server) (db db1 : Database Tables)
      → mark_completed first event.event_id db ≡ ok tt db1
      → (db2 : Database Tables) × (store server event db1
          ≡ ok (record { is_new = false; downstream_required = false }) db2)
        × (db2.tables ≡ db1.tables)
  store-mark_completed first db db1 h = store-Claims false db1 (
      CompleteEffect-Claims (first.clock db.calls) event.event_id _ _
        (mark_completed_ok first event.event_id db db1 h))

undo :
    (now : ℕ) (event : OrderCreatedEvent) (t t1 t2 : Tables) (r : EventStoreResult)
    → StoreEffect now event t r t1
    → r.is_new ≡ true
    → DiscardEffect event.event_id t1 t2
    → t2 ≡ t
undo now event t t1 t2 r (fresh os ps amount eo ep new uo us clean col er e) fresh_event
      (os', ps', eo', ep', e') =
    let no_source = λ (row : OrderRow). not (has_source event.event_id row) in
    let no_claim = λ (row : ProcessedRow). not (has_id event.event_id row) in
    let eos : os' ≡ new_order now event amount ∷ os = ground arith in
    let eps : ps' ≡ new_claim now event.event_id event.event_type ∷ ps = ground arith in
    let selected : select no_source os' ≡ os =
      rw eos (ground (arith, select_unchanged (has_source event.event_id) os us)) in
    let kept : select no_claim ps' ≡ ps =
      rw eps (ground (arith, select_unchanged (has_id event.event_id) ps new)) in
    cc (e', eo, ep, selected, kept)
undo now event t t1 t2 r (repeated ps row ep f er e) fresh_event d = absurd (ground arith)

-- Discarding an event that a `store` has just claimed restores both tables.
pub discard-store :
    (server : Server) (event : OrderCreatedEvent) (db db1 db2 : Database Tables)
    (r : EventStoreResult)
    → store server event db ≡ ok r db1
    → r.is_new ≡ true
    → discard server event.event_id db1 ≡ ok tt db2
    → db2.tables ≡ db.tables
discard-store server event db db1 db2 r h fresh_event d =
    undo (server.clock db.calls) event _ _ _ r (store_ok server event db db1 r h) fresh_event
      (discard_ok server event.event_id db1 db2 d)
