-- ===== src/Publishers/Examples.antt =====
-- Publication with a small producer.
use kafka_sqs.Base.{◌≡◌, refl, none, some, List, [], ◌∷◌}
use kafka_sqs.Base.Int.{pos}
use kafka_sqs.Base.Text.{is_blank, str_uuid}
use kafka_sqs.Base.Effect.{ok}
use kafka_sqs.Contracts.Json.{object, end}
use kafka_sqs.Contracts.Validation.{validate_event}
use kafka_sqs.Clients.{Runtime, ProducerRecord, delivered, Producer}
use kafka_sqs.DeadLetter.{DeadLetterFailure}
use kafka_sqs.Samples.{order, sim_libraries, message}
use kafka_sqs.Publishers.{
  KafkaPublishReceipt, Encoder, receipt_of, order_created_headers, serialize_order_created_event,
  acknowledge, publish_to_kafka, failure_headers, failure_record, publish_failure,
}

abbrev encoder : Encoder
encoder = record {
  encode = λ s. [];
  dumps_sorted = λ j. "";
  dumps_sorted_unicode = λ j. "";
  isoformat = λ t. "";
}

-- The world holds the records of the topic; a flush reports the delivery of one.
abbrev producer : Producer (List ProducerRecord)
producer = record {
  produce = λ item w. ok tt (item ∷ w);
  flush = λ timeout w. ok (record { remaining = 0; reports = delivered message ∷ [] }) w;
}

abbrev receipt : KafkaPublishReceipt
receipt = receipt_of "ORD-1" (order_created_headers sim_libraries encoder order) message

abbrev order_item : ProducerRecord
order_item = record {
  topic = "orders.created";
  key = [];
  payload = [];
  headers = order_created_headers sim_libraries encoder order;
}

publish_example :
    publish_to_kafka sim_libraries encoder producer (pos 10000000) "orders.created" order []
    ≡ ok receipt (order_item ∷ [])
unfolding publish_to_kafka serialize_order_created_event validate_event is_blank acknowledge
publish_example = refl

abbrev runtime : Runtime (List ProducerRecord)
runtime = record {
  monotonic = λ w. (0, w);
  uuid4 = λ w. (1, w);
  utc_now = λ w. (order.occurred_at, w);
  wait = λ d w. w;
}

abbrev failure : DeadLetterFailure
failure = record {
  source_topic = "orders.created";
  source_partition = 2;
  source_offset = 41;
  key = none;
  event_id = some "7";
  correlation_id = none;
  attempts = 3;
  error_type = "RuntimeError";
  error_message = "refused";
  original_payload = object end;
}

abbrev failure_item : ProducerRecord
failure_item =
    failure_record encoder runtime producer "orders.dlq" failure (str_uuid 1) order.occurred_at

abbrev failure_receipt : KafkaPublishReceipt
failure_receipt = receipt_of "7" (failure_headers encoder runtime producer failure) message

publish_failure_run :
    publish_failure encoder runtime producer (pos 10000000) "orders.dlq" failure []
    ≡ ok failure_receipt (failure_item ∷ [])
unfolding publish_failure acknowledge
publish_failure_run = refl
