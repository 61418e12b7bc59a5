-- ===== src/EventPublisher/Examples.antt =====
-- Publishers over a producer whose queue is full, over one that reports a failure, and the order API
-- over the first.
use kafka_sqs.Base.{ℕ, suc, String, ◌≡◌, refl, true, false, none, [], ◌∷◌}
use kafka_sqs.Base.Int.{pos}
use kafka_sqs.Base.Text.{is_blank, is_empty}
use kafka_sqs.Base.Effect.{Exc, value, ok, raise, is_instance}
use kafka_sqs.Contracts.Event.{OrderCreatedEvent}
use kafka_sqs.Contracts.Factory.{make_order_created_event}
use kafka_sqs.Contracts.Validation.{validate_event}
use kafka_sqs.Clients.{Runtime, failed, Producer}
use kafka_sqs.Samples.{order, sim_libraries}
use kafka_sqs.Publishers.{
  Encoder, KafkaPublishReceipt, event_publish_error, is_rejection, publish_to_kafka, acknowledge,
  serialize_order_created_event,
}
use kafka_sqs.Contracts.Models.{is_order_event, check_models}
use kafka_sqs.OrderApi.{CreateOrderRequest, OrderApp, refused, is_order_request, create_order}
use kafka_sqs.EventPublisher.{Promised, EventPublisher}
use kafka_sqs.EventPublisher.Promise.{publish_to_kafka-Promised, kafka_publisher}
use kafka_sqs.EventPublisher.Answered.{GivesText, Answered, create_order-Answered}
use kafka_sqs.EventPublisher.Orders.{over}

abbrev encoder : Encoder
encoder = record {
  encode = λ s. [];
  dumps_sorted = λ j. "";
  dumps_sorted_unicode = λ j. "";
  isoformat = λ t. "";
}

abbrev buffer_error : Exc
buffer_error = record { classes = "BufferError" ∷ "Exception" ∷ []; text = "queue full" }

abbrev full_producer : Producer ℕ
full_producer = record {
  produce = λ item n. raise buffer_error n;
  flush = λ timeout n. ok (record { remaining = 0; reports = [] }) n;
}

-- It counts the records, and every delivery fails.
abbrev failing_producer : Producer ℕ
failing_producer = record {
  produce = λ item n. ok tt (suc n);
  flush = λ timeout n. ok (record { remaining = 0; reports = failed "timed out" ∷ [] }) n;
}

fails_after_produce :
    publish_to_kafka sim_libraries encoder failing_producer (pos 10000000) "orders.created" order 0
    ≡ raise event_publish_error 1
unfolding publish_to_kafka serialize_order_created_event validate_event is_blank acknowledge
fails_after_produce = refl

full_rejects : is_rejection buffer_error ≡ true
unfolding is_instance
full_rejects = refl

publish_to_kafka-Promised_example :
    Promised
      (is_blank "orders.created")
      (validate_event sim_libraries order)
      0
      (publish_to_kafka sim_libraries encoder full_producer (pos 10000000) "orders.created" order 0)
publish_to_kafka-Promised_example =
    publish_to_kafka-Promised sim_libraries encoder full_producer (pos 10000000)
      (λ item n. full_rejects) (λ n. tt) "orders.created" order 0

abbrev publisher : EventPublisher sim_libraries ℕ KafkaPublishReceipt
publisher =
    kafka_publisher sim_libraries encoder full_producer (pos 10000000) (λ item n. full_rejects)
      (λ n. tt)

abbrev runtime : Runtime ℕ
runtime = record {
  monotonic = λ n. (0, n);
  uuid4 = λ n. (7, n);
  utc_now = λ n. (order.occurred_at, n);
  wait = λ d n. n;
}

abbrev app : OrderApp ℕ KafkaPublishReceipt
app = record {
  publisher = publisher.publish_order_created;
  topic = "orders.created";
  new_order_id = λ n. ok "ORD-1" n;
  new_correlation_id = λ n. ok "checkout-7" n;
  new_causation_id = λ n. ok "request-7" n;
}

abbrev request : CreateOrderRequest
request = record { customer_id = "CUS-1"; amount = order.payload.amount; currency = "INR" }

full_queue_is_503 :
    create_order runtime (λ event. value tt) (over publisher app) request none 0
    ≡ ok (refused 503 "Order event could not be published.") 0
unfolding create_order make_order_created_event is_instance publish_to_kafka
    serialize_order_created_event validate_event is_blank
full_queue_is_503 = refl

named : is_blank "orders.created" ≡ false
unfolding is_blank
named = refl

gives_text : (s : String) → is_empty s ≡ false → GivesText (λ (n : ℕ). ok s n)
gives_text s full n = (s, n, refl, full)

valid_request : is_order_request request ≡ true
unfolding is_order_request
valid_request = refl

schema_accepts :
    (event : OrderCreatedEvent)
    → is_order_event event ≡ true
    → validate_event sim_libraries event ≡ value tt
unfolding validate_event
schema_accepts event good = refl

create_order-Answered_example :
    Answered sim_libraries publisher runtime app
      (create_order runtime check_models (over publisher app) request none 0)
create_order-Answered_example =
    create_order-Answered sim_libraries publisher runtime app request none 0 valid_request named
      (gives_text "ORD-1" refl) (gives_text "checkout-7" refl) (gives_text "request-7" refl)
      (λ n. refl) schema_accepts
