-- ===== src/EventPublisher/Promise.antt =====
-- Both publishers keep the promise of EventPublisher, if their clients fail as documented.
use kafka_sqs.Base.{String, ◌≡◌, refl, Bool, true, false, none, Option, if◌then◌else◌}
use kafka_sqs.Base.Int.{ℤ}
use kafka_sqs.Base.Text.{is_blank}
use kafka_sqs.Base.Effect.{
  Exc, Reply, value, error, value_error, Outcome, ok, raise, out_of_fuel, Eff, pure, throw, lift,
  attempt, continue, try_except, ◌>>◌,
}
use kafka_sqs.Contracts.Event.{OrderCreatedEvent}
use kafka_sqs.Contracts.Json.{Json}
use kafka_sqs.Contracts.Libraries.{Libraries}
use kafka_sqs.Contracts.Validation.{validate_event}
use kafka_sqs.Clients.{Flushed, ProducerRecord, Producer}
use kafka_sqs.Publishers.{
  Encoder, KafkaPublishReceipt, event_publish_error, acknowledge, is_rejection,
  order_created_headers, publish_to_kafka,
}
use kafka_sqs.SqsPublisher.{SqsPublishReceipt, SendRequest, SqsSender, is_refusal, publish_to_sqs}
use kafka_sqs.EventPublisher.{
  RaisesOnly, Reported, Promised, EventPublisher, publish_by, send_to_kafka, send_to_sqs,
}
use kafka_sqs.EventPublisher.Reference.{
  event_publish_error_rejects, acknowledge_error, publish_to_kafka-publish_by,
  publish_to_sqs-publish_by,
}

module _ {W R : Type 0} (is_rejected : Exc → Bool) where
  attempt-Reported :
      (o : Outcome W R)
      → RaisesOnly is_rejected o
      → Reported (
          attempt o
            (λ e. if is_rejected e then throw event_publish_error else throw e)
            (λ r. pure r))
  attempt-Reported (ok r w) only = tt
  attempt-Reported (raise e w) only = rw only refl
  attempt-Reported out_of_fuel only = absurd only

  module _ (lib : Libraries) (blank : String) (send : String → OrderCreatedEvent → Eff W R)
      (destination : String) (event : OrderCreatedEvent) where
    tested_Promised :
        (b : Bool) (checked : Reply (Unit {0})) (w : W)
        → RaisesOnly is_rejected (send destination event w)
        → Promised b checked w (
            (if b then throw (value_error blank) else do
              lift checked
              try_except
                  (send destination event)
                  (λ e. if is_rejected e then throw event_publish_error else throw e)
                  (λ r. pure r))
              w)
    tested_Promised true checked w only = (blank, refl)
    tested_Promised false (error e) w only = refl
    tested_Promised false (value u) w only = attempt-Reported (send destination event w) only

    publish_by-Promised :
        (w : W)
        → RaisesOnly is_rejected (send destination event w)
        → Promised
            (is_blank destination)
            (validate_event lib event)
            w
            (publish_by lib blank is_rejected send destination event w)
    publish_by-Promised w only =
        tested_Promised (is_blank destination) (validate_event lib event) w only

module _ {W A B : Type 0} (kind : Exc → Bool) where
  continue-RaisesOnly :
      (o : Outcome W A) (f : A → Eff W B)
      → RaisesOnly kind o
      → ((a : A) (w : W) → RaisesOnly kind (f a w))
      → RaisesOnly kind (continue o f)
  continue-RaisesOnly (ok a w) f only later = later a w
  continue-RaisesOnly (raise e w) f only later = only
  continue-RaisesOnly out_of_fuel f only later = absurd only

module _ {W : Type 0} (lib : Libraries) (enc : Encoder) (producer : Producer W)
    (delivery_timeout : ℤ)
    (produces : (item : ProducerRecord) (w : W) → RaisesOnly is_rejection (producer.produce item w))
    (flushes : (w : W) → RaisesOnly is_rejection (producer.flush delivery_timeout w)) where
  acknowledge-RaisesOnly :
      (event : OrderCreatedEvent) (flushed : Flushed) (w : W)
      → RaisesOnly is_rejection (
          lift (acknowledge event.payload.order_id (order_created_headers lib enc event) flushed) w)
  acknowledge-RaisesOnly event flushed w =
      replied (acknowledge event.payload.order_id (order_created_headers lib enc event) flushed)
        (acknowledge_error _ _ flushed)
    where
      replied :
          (r : Reply KafkaPublishReceipt)
          → ((e : Exc) → r ≡ error e → e ≡ event_publish_error)
          → RaisesOnly is_rejection (lift r w)
      replied (value x) only = tt
      replied (error e) only = rw (only e refl) event_publish_error_rejects

  -- If produce and flush return or raise what Kafka rejects with, the Kafka publisher keeps the
  -- promise of EventPublisher: a blank topic is a ValueError and an event against the contract the
  -- error of its check, both before any call of the producer; otherwise the publication returns or
  -- raises EventPublishError.
  pub publish_to_kafka-Promised :
      (topic : String) (event : OrderCreatedEvent) (w : W)
      → Promised
          (is_blank topic)
          (validate_event lib event)
          w
          (publish_to_kafka lib enc producer delivery_timeout topic event w)
  publish_to_kafka-Promised topic event w =
      rw (publish_to_kafka-publish_by lib enc producer delivery_timeout topic event w) (
        publish_by-Promised is_rejection lib "Kafka topic must not be blank."
          (send_to_kafka lib enc producer delivery_timeout) topic event w
          (continue-RaisesOnly is_rejection _ _
            (continue-RaisesOnly is_rejection _ _ (produces _ w) (λ u v. flushes v))
            (acknowledge-RaisesOnly event)))

  abbrev pub kafka_publisher : EventPublisher lib W KafkaPublishReceipt
  kafka_publisher = record {
    publish_order_created = publish_to_kafka lib enc producer delivery_timeout;
    promise = publish_to_kafka-Promised;
  }

module _ {W : Type 0} (lib : Libraries) (dumps_sorted : Json → String) (client : SqsSender W)
    (sends : (request : SendRequest) (w : W)
      → RaisesOnly is_refusal (client.send_message request w)) where
  -- The SQS publisher keeps the promise of EventPublisher, for a standard and for a FIFO queue, if
  -- send_message returns or raises what SQS refuses with.
  pub publish_to_sqs-Promised :
      (group deduplication : Option String) (destination : String) (event : OrderCreatedEvent)
      (w : W)
      → Promised
          (is_blank destination)
          (validate_event lib event)
          w
          (publish_to_sqs lib dumps_sorted client destination event group deduplication w)
  publish_to_sqs-Promised group deduplication destination event w =
      rw (publish_to_sqs-publish_by lib dumps_sorted client group deduplication destination event w)
        (publish_by-Promised is_refusal lib "SQS queue URL must not be blank."
          (send_to_sqs lib dumps_sorted client group deduplication) destination event w (sends _ w))

  -- SqsEventPublisher(client)
  abbrev pub sqs_publisher : EventPublisher lib W SqsPublishReceipt
  sqs_publisher = record {
    publish_order_created =
        λ destination event. publish_to_sqs lib dumps_sorted client destination event none none;
    promise = publish_to_sqs-Promised none none;
  }
