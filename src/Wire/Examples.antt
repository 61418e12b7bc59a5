-- ===== src/Wire/Examples.antt =====
-- One order from the API to the table, and one to a queue.
use kafka_sqs.Base.{ℕ, suc, String, ◌≡◌, refl, false, none, some, List, [], ◌∷◌}
use mathlib.Core.Path.{subst}
use kafka_sqs.Base.Int.{pos}
use kafka_sqs.Base.Text.{is_blank, is_empty}
use kafka_sqs.Base.Effect.{value, ok}
use kafka_sqs.Contracts.Factory.{make_order_created_event}
use kafka_sqs.Contracts.Json.{object, end}
use kafka_sqs.Contracts.Validation.{validate_event}
use kafka_sqs.Clients.{Runtime, Message, delivered, Producer}
use kafka_sqs.Postgres.Transaction.{healthy_server, healthy_server-IsHealthy}
use kafka_sqs.Samples.{order, message, sim_libraries, sim_settings}
use kafka_sqs.Publishers.{
  Encoder, KafkaPublishReceipt, receipt_of, order_created_headers, publish_to_kafka, acknowledge,
  serialize_order_created_event,
}
use kafka_sqs.Publishers.Acknowledged.{Published}
use kafka_sqs.SqsPublisher.{SqsPublishReceipt, SendRequest, SqsSender, publish_to_sqs, send_request}
use kafka_sqs.SqsConsumer.{parse_body}
use kafka_sqs.OrderApi.{CreateOrderRequest, CreateOrderResponse, accepted, OrderApp, create_order}
use kafka_sqs.OrderStore.Fresh.{Unknown}
use kafka_sqs.OrderStore.Rows.{amount_column, hundredths}
use kafka_sqs.Consumer.{decode_event}
use kafka_sqs.Consumer.Process.{default_policy}
use kafka_sqs.Deployment.{World, Surroundings}
use kafka_sqs.Wire.{ReadsBack}
use kafka_sqs.Wire.Kafka.{publish_to_kafka-decode_event}
use kafka_sqs.Wire.Sqs.{publish_to_sqs-parse_body}
use kafka_sqs.Wire.Orders.{over_kafka, Made}
use kafka_sqs.Wire.Stored.{Stored, create_order-Stored}

abbrev encoder : Encoder
encoder = record {
  encode = λ s. [];
  dumps_sorted = λ j. "";
  dumps_sorted_unicode = λ j. "";
  isoformat = λ t. "";
}

-- It counts the records, and every flush reports a delivery.
abbrev producer : Producer ℕ
producer = record {
  produce = λ item n. ok tt (suc n);
  flush = λ timeout n. ok (record { remaining = 0; reports = delivered message ∷ [] }) n;
}

abbrev runtime : Runtime ℕ
runtime = record {
  monotonic = λ n. (0, n);
  uuid4 = λ n. (7, n);
  utc_now = λ n. (order.occurred_at, n);
  wait = λ d n. n;
}

abbrev receipt : KafkaPublishReceipt
receipt = receipt_of "ORD-1" (order_created_headers sim_libraries encoder order) message

abbrev app : OrderApp ℕ KafkaPublishReceipt
app = record {
  publisher = λ topic event n. ok receipt n;
  topic = "orders.created";
  new_order_id = λ n. ok "ORD-1" n;
  new_correlation_id = λ n. ok "checkout-7" n;
  new_causation_id = λ n. ok "request-1" n;
}

reads_order : ReadsBack sim_libraries (λ j. "") order
reads_order = record {
  wire = object end;
  loads = refl;
  is_dict = refl;
  same_errors = refl;
  reads = refl;
}

publishes_order :
    publish_to_kafka sim_libraries encoder producer (pos 10000000) "orders.created" order 0
    ≡ ok receipt 1
unfolding publish_to_kafka serialize_order_created_event validate_event is_blank acknowledge
publishes_order = refl

abbrev request : CreateOrderRequest
request = record { customer_id = "CUS-1"; amount = order.payload.amount; currency = "INR" }

abbrev body : CreateOrderResponse
body = record { order_id = "ORD-1"; correlation_id = "checkout-1"; event_id = 7 }

accepts_order :
    create_order runtime
      (λ event. value tt)
      (over_kafka sim_libraries encoder producer (pos 10000000) runtime (λ event. value tt) app)
      request
      (some "checkout-1")
      0
    ≡ ok (accepted "checkout-1" body) 1
unfolding create_order make_order_created_event publish_to_kafka serialize_order_created_event
    validate_event is_blank acknowledge
accepts_order = refl

makes_order :
    Made sim_libraries encoder producer
      (pos 10000000)
      runtime
      (λ event. value tt)
      app
      request
      (some "checkout-1")
      "checkout-1"
      order
      0
      0
unfolding make_order_created_event
makes_order = record {
  order_id = "ORD-1";
  causation = "request-1";
  w1 = 0;
  w2 = 0;
  w3 = 0;
  chosen = refl;
  numbered = refl;
  caused = refl;
  built = refl;
}

fresh_is_full : (v v' : ℕ) (s : String) → app.new_correlation_id v ≡ ok s v' → is_empty s ≡ false
fresh_is_full v v' s h =
    let same : "checkout-7" ≡ s = cc (h) in subst (λ x. is_empty x ≡ false) same refl

publish_to_kafka-decode_event_example :
    (sent : Published sim_libraries encoder producer
      (pos 10000000)
      "orders.created"
      order
      receipt
      0
      1)
    × (decode_event sim_libraries (some sent.payload) ≡ value (reads_order.wire, order))
publish_to_kafka-decode_event_example =
    publish_to_kafka-decode_event sim_libraries encoder order refl reads_order producer
      (pos 10000000) "orders.created" receipt 0 1 publishes_order

-- `rest` counts the commits.
abbrev surroundings : Surroundings ℕ
surroundings = record {
  downstream = none;
  dead_letter_publisher = none;
  dead_letter_topic = none;
  consumer = record {
    subscribe = λ topics n. ok tt n;
    poll = λ d n. ok none n;
    commit = λ m n. ok [] (suc n);
    close = λ n. ok tt n;
  };
}

abbrev clock : Runtime (World ℕ)
clock = record {
  monotonic = λ w. (0, w);
  uuid4 = λ w. (1, w);
  utc_now = λ w. (order.occurred_at, w);
  wait = λ d w. w;
}

abbrev empty_world : World ℕ
empty_world = record {
  db = record { tables = record { orders = some []; processed_events = some [] }; calls = 0 };
  rest = 0;
}

order_Unknown : Unknown order empty_world.db.tables
unfolding amount_column hundredths
order_Unknown = record {
  os = [];
  ps = [];
  amount = record { digits = pos 50000; places = 2 };
  orders = refl;
  claims = refl;
  no_claim = refl;
  no_order = refl;
  no_source = refl;
  clean = refl;
  fits = refl;
}

abbrev record_of_order : Message
record_of_order = record message { payload = some [] }

create_order-Stored_example :
    Stored sim_libraries encoder producer
      (pos 10000000)
      runtime
      (λ event. value tt)
      app
      clock
      healthy_server
      healthy_server-IsHealthy
      sim_settings
      "orders.created"
      default_policy
      surroundings
      request
      "checkout-1"
      body
      record_of_order
      empty_world
create_order-Stored_example =
    create_order-Stored sim_libraries encoder producer (pos 10000000) runtime (λ event. value tt)
      app clock healthy_server healthy_server-IsHealthy sim_settings "orders.created" default_policy
      surroundings request (some "checkout-1") "checkout-1" "checkout-1" order body 0 0 1
      fresh_is_full refl reads_order makes_order accepts_order record_of_order empty_world 0 1
      order_Unknown refl refl refl ([], refl, refl)

abbrev sqs_receipt : SqsPublishReceipt
sqs_receipt = record { message_id = "m-1"; md5_of_body = "d41d8cd9"; sequence_number = none }

abbrev client : SqsSender (List SendRequest)
client = record { send_message = λ item w. ok sqs_receipt (item ∷ w) }

abbrev sent_request : SendRequest
sent_request = send_request sim_libraries (λ j. "") client "http://queue" order none none

sends_order :
    publish_to_sqs sim_libraries (λ j. "") client "http://queue" order none none []
    ≡ ok sqs_receipt (sent_request ∷ [])
unfolding publish_to_sqs validate_event is_blank
sends_order = refl

publish_to_sqs-parse_body_example :
    (item : SendRequest) × (is_blank "http://queue" ≡ false)
    × (client.send_message item [] ≡ ok sqs_receipt (sent_request ∷ []))
    × (item.queue_url ≡ "http://queue")
    × (parse_body sim_libraries item.message_body ≡ value order)
publish_to_sqs-parse_body_example =
    publish_to_sqs-parse_body sim_libraries (λ j. "") client order reads_order "http://queue" none
      none sqs_receipt [] (sent_request ∷ []) sends_order
