-- ===== src/Wire/Stored.antt =====
-- An order from the API to the table of the Kafka consumer.
use kafka_sqs.Base.{String, ◌≡◌, refl, false, Option, none, some, ◌∷◌, arith}
use mathlib.Core.Path.{subst, sym, ◌∙◌, ap}
use text.Mathlib.TextEquality.{eq_iff}
use kafka_sqs.Base.Int.{ℤ}
use kafka_sqs.Base.Text.{is_empty}
use kafka_sqs.Base.Effect.{Reply, value, ok}
use kafka_sqs.Contracts.Event.{Uuid, Decimal, OrderCreatedData, OrderCreatedEvent}
use kafka_sqs.Contracts.Libraries.{Libraries}
use kafka_sqs.Clients.{Runtime, Message, Producer}
use kafka_sqs.DeadLetter.{RetryPolicy}
use kafka_sqs.Postgres.{Server, Database}
use kafka_sqs.Postgres.Transaction.{IsHealthy}
use kafka_sqs.Publishers.{Encoder, KafkaPublishReceipt}
use kafka_sqs.Consumer.{ConsumerSettings, ProcessedKafkaRecord, decode_event}
use kafka_sqs.Consumer.Process.{handle_message}
use kafka_sqs.OrderApi.{
  CreateOrderRequest, CreateOrderResponse, accepted, OrderApp, data_of, create_order,
}
use kafka_sqs.OrderStore.{fetch_order}
use kafka_sqs.OrderStore.Rows.{Tables, StoredOrder, new_order, amount_column}
use kafka_sqs.OrderStore.Fresh.{Unknown, completed_db}
use kafka_sqs.OrderStore.Lookup.{fetch_order_found}
use kafka_sqs.Deployment.{World, Surroundings, deployed}
use kafka_sqs.Deployment.Valid.{Commits}
use kafka_sqs.Deployment.Delivered.{Accepts, delivered_of, handle_message_delivers}
use kafka_sqs.Wire.{Decodes, ReadsBack}
use kafka_sqs.Wire.Kafka.{serialize_order_created_event_ok}
use kafka_sqs.Wire.Orders.{over_kafka, Made, Arrives, create_order-Arrives}

-- An order by the data of its event, with the amount as the column holds it.
abbrev pub stored_as : OrderCreatedData → Decimal → Uuid → String → StoredOrder
stored_as payload amount event_id correlation_id = record {
  order_id = payload.order_id;
  customer_id = payload.customer_id;
  amount = amount;
  currency = payload.currency;
  source_event_id = event_id;
  correlation_id = correlation_id;
}

module _ {W E : Type 0} (lib : Libraries) (enc : Encoder) (producer : Producer W) (timeout : ℤ)
    (api : Runtime W) (check : OrderCreatedEvent → Reply (Unit {0}))
    (app : OrderApp W KafkaPublishReceipt) (run : Runtime (World E)) (server : Server)
    (healthy : IsHealthy server) (settings : ConsumerSettings) (topic : String)
    (policy : RetryPolicy) (s : Surroundings E) where
  abbrev pub payload_of : CreateOrderRequest → CreateOrderResponse → OrderCreatedData
  payload_of order body =
      data_of api check (over_kafka lib enc producer timeout api check app) body.order_id order

  -- The first delivery was handled, and left a database in which the order is found.
  pub record Stored (order : CreateOrderRequest) (correlation : String) (body : CreateOrderResponse)
      (m : Message) (w : World E) : Type 0 where
    pub processed : ProcessedKafkaRecord
    pub after : World E
    pub handled :
        handle_message lib run (deployed server settings topic policy s) m w ≡ ok processed after
    pub amount : Decimal
    pub fits : amount_column order.amount ≡ value amount
    pub db : Database Tables
    pub found :
        fetch_order server body.order_id after.db
        ≡ ok (some (stored_as (payload_of order body) amount body.event_id correlation)) db

  module _ (event : OrderCreatedEvent) (db : Database Tables) (u : Unknown event db.tables) where
    fetch_order-completed_db :
        (db' : Database Tables) × (fetch_order server event.payload.order_id
            (completed_db server healthy event db u)
          ≡ ok (some (stored_as event.payload u.amount event.event_id event.correlation_id)) db')
    fetch_order-completed_db =
        let row = new_order (server.clock db.calls) event u.amount in
        let (db', found, _) =
          fetch_order_found server healthy event.payload.order_id
            (completed_db server healthy event db u) (row ∷ u.os) (some row)
            (ground (arith, u.clean)) refl
            (rw ((eq_iff event.payload.order_id event.payload.order_id).1 refl) refl) in
        (db', found)

  finds_equal :
      (after db : Database Tables) (amount : Decimal) {p p' : OrderCreatedData} {i i' : Uuid}
      {c c' : String}
      → p ≡ p'
      → i ≡ i'
      → c ≡ c'
      → fetch_order server p.order_id after ≡ ok (some (stored_as p amount i c)) db
      → fetch_order server p'.order_id after ≡ ok (some (stored_as p' amount i' c')) db
  finds_equal after db amount same_data same_id same_correlation found = cc

  Arrives-Stored :
      (order : CreateOrderRequest) (correlation : String) (body : CreateOrderResponse)
      (event : OrderCreatedEvent) (v : W)
      (arrives : Arrives lib enc producer timeout api check app order correlation body event v)
      (m : Message) (w : World E) (rest1 rest2 : E) (u : Unknown event w.db.tables)
      → m.fault ≡ none
      → m.payload ≡ some arrives.sent.payload
      → Accepts s event w.rest rest1
      → Commits s m rest1 rest2
      → Stored order correlation body m w
  Arrives-Stored order correlation body event v arrives m w rest1 rest2 u good same told commits =
      let (db, found) = fetch_order-completed_db event w.db u in
      record {
        processed = delivered_of lib run server healthy settings topic policy s m event;
        after = record { db = completed_db server healthy event w.db u; rest = rest2 };
        handled =
            handle_message_delivers lib run server healthy settings topic policy s m arrives.wire
              event w rest1 rest2 u good (ap (decode_event lib) same ∙ arrives.decoded) told
              commits;
        amount = u.amount;
        fits = subst (λ p. amount_column p.amount ≡ value u.amount) arrives.carries u.fits;
        db = db;
        found =
            finds_equal (completed_db server healthy event w.db u) db u.amount arrives.carries
              arrives.event_id arrives.correlation_id found;
      }

  -- From the API to the table. Where fresh correlation IDs are not empty, POST /orders over the Kafka
  -- publisher answered 202, and the libraries read back the event that it made: if a consumer that has
  -- seen neither that event nor its order is given a message with the event's bytes, the columns take
  -- the amount and the texts (which have no U+0000), the server is healthy, the notified service
  -- accepts the event, and the commit succeeds, then the message is handled, and fetch_order for the order ID of the answer finds the request: its customer, its
  -- currency, its amount as the column rounds it, with the event ID and the correlation ID of the
  -- answer.
  pub create_order-Stored :
      (order : CreateOrderRequest) (header : Option String) (c correlation : String)
      (event : OrderCreatedEvent) (body : CreateOrderResponse) (v v1 v' : W)
      → ((u u' : W) (x : String) → app.new_correlation_id u ≡ ok x u' → is_empty x ≡ false)
      → Decodes lib enc (enc.dumps_sorted_unicode (lib.model_dump event))
      → ReadsBack lib enc.dumps_sorted_unicode event
      → Made lib enc producer timeout api check app order header c event v v1
      → create_order api check (over_kafka lib enc producer timeout api check app) order header v
        ≡ ok (accepted correlation body) v'
      → (m : Message) (w : World E) (rest1 rest2 : E) → Unknown event w.db.tables
      → m.fault ≡ none
      → m.payload ≡ some (enc.encode (enc.dumps_sorted_unicode (lib.model_dump event)))
      → Accepts s event w.rest rest1
      → Commits s m rest1 rest2
      → Stored order correlation body m w
  create_order-Stored order header c correlation event body v v1 v' full text back made answered m w
        rest1 rest2 unknown good same told commits =
      let arrives =
        create_order-Arrives lib enc producer timeout api check app order header c correlation event
          body v v1 v' full text back made answered in
      let bytes =
        (serialize_order_created_event_ok lib enc event arrives.sent.payload
          arrives.sent.serializes).1 in
      Arrives-Stored order correlation body event v' arrives m w rest1 rest2 unknown good
        (same ∙ ap some (sym bytes)) told commits
