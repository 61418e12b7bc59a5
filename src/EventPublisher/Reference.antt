-- ===== src/EventPublisher/Reference.antt =====
-- Both publishers are the reference publisher, each with what it sends.
use kafka_sqs.Base.{
  ℕ, zero, suc, String, ◌≡◌, refl, Bool, true, false, Option, List, [], ◌∷◌, if◌then◌else◌,
}
use kafka_sqs.Base.Int.{ℤ}
use kafka_sqs.Base.Text.{is_blank}
use kafka_sqs.Base.Effect.{
  Exc, is_instance, Reply, value, error, value_error, Outcome, ok, raise, out_of_fuel, Eff, pure,
  throw, lift, continue, attempt, try_except, ◌>>=◌, ◌>>◌,
}
use kafka_sqs.Contracts.Event.{OrderCreatedEvent}
use kafka_sqs.Contracts.Json.{Json}
use kafka_sqs.Contracts.Libraries.{Bytes, Libraries}
use kafka_sqs.Contracts.Validation.{validate_event}
use kafka_sqs.Clients.{Message, Flushed, Producer}
use kafka_sqs.Publishers.{
  Encoder, KafkaPublishReceipt, event_publish_error, acknowledge, one_delivered, errors_of,
  delivered_of, is_rejection, order_created_headers, order_record, produce_and_flush, serialized,
  serialize_order_created_event, publish_to_kafka,
}
use kafka_sqs.SqsPublisher.{SqsSender, is_refusal, publish_to_sqs}
use kafka_sqs.EventPublisher.{publish_by, send_to_kafka, send_to_sqs}

-- EventPublishError is a RuntimeError.
pub event_publish_error_rejects : is_rejection event_publish_error ≡ true
unfolding is_instance
event_publish_error_rejects = refl

module _ (key : String) (headers : List (String × Bytes)) where
  one_delivered_error :
      (l : List Message) (e : Exc) → one_delivered key headers l ≡ error e → e ≡ event_publish_error
  one_delivered_error [] e h = cc
  one_delivered_error (m ∷ []) e h = absurd (cc)
  one_delivered_error (m ∷ (n ∷ l)) e h = cc

  pub acknowledge_error :
      (flushed : Flushed) (e : Exc)
      → acknowledge key headers flushed ≡ error e
      → e ≡ event_publish_error
  unfolding acknowledge
  acknowledge_error flushed e h = all_sent flushed.remaining h
    where
      no_errors :
          (l : List String)
          → elim l [
            | x ∷ errors ↦ error event_publish_error
            | [] ↦ one_delivered key headers (delivered_of flushed.reports)
          ]
            ≡ error e
          → e ≡ event_publish_error
      no_errors (x ∷ l) g = cc
      no_errors [] g = one_delivered_error (delivered_of flushed.reports) e g

      all_sent :
          (n : ℕ)
          → elim n [
            | suc n ↦ error event_publish_error
            | zero ↦ elim (errors_of flushed.reports) [
              | x ∷ errors ↦ error event_publish_error
              | [] ↦ one_delivered key headers (delivered_of flushed.reports)
            ]
          ]
            ≡ error e
          → e ≡ event_publish_error
      all_sent (suc n) g = cc
      all_sent zero g = no_errors (errors_of flushed.reports) g

module _ {W R : Type 0} (is_rejected : Exc → Bool) where
  abbrev handler : Exc → Eff W R
  handler e = if is_rejected e then throw event_publish_error else throw e

module _ {W A R : Type 0} (is_rejected : Exc → Bool) where
  -- A pure test that raises only EventPublishError may stand inside the `try`.
  attempt-continue :
      (test : A → Reply R) (o : Outcome W A)
      → is_rejected event_publish_error ≡ true
      → ((a : A) (e : Exc) → test a ≡ error e → e ≡ event_publish_error)
      → attempt o (handler is_rejected) (λ a. lift (test a))
        ≡ attempt (continue o (λ a. lift (test a))) (handler is_rejected) (λ r. pure r)
  attempt-continue test (raise e w) rejects only = refl
  attempt-continue test out_of_fuel rejects only = refl
  attempt-continue test (ok a w) rejects only = tested (test a) refl
    where
      tested :
          (r : Reply R)
          → test a ≡ r
          → lift r w ≡ attempt (lift r w) (handler is_rejected) (λ x. pure x)
      tested (value x) h = refl
      tested (error e) h = rw (only a e h) rw rejects refl

module _ {W : Type 0} (lib : Libraries) (enc : Encoder) (producer : Producer W)
    (delivery_timeout : ℤ) where
  module _ (topic : String) (event : OrderCreatedEvent) where
    abbrev produced : Bytes → Eff W Flushed
    produced payload =
        produce_and_flush lib enc producer (order_record lib enc topic event payload)
          delivery_timeout

    abbrev acknowledged : Flushed → Reply KafkaPublishReceipt
    acknowledged flushed =
        acknowledge event.payload.order_id (order_created_headers lib enc event) flushed

    -- The publication as the code has it, from its two tests on.
    abbrev tested_publication : Bool → Reply (Unit {0}) → Eff W KafkaPublishReceipt
    tested_publication blank checked =
        if blank then throw (value_error "Kafka topic must not be blank.") else do
          payload ← lift (serialized lib enc event checked)
          try_except (produced payload) (handler is_rejection)
              (λ flushed. lift (acknowledged flushed))

    abbrev tested_reference : Bool → Reply (Unit {0}) → Eff W KafkaPublishReceipt
    tested_reference blank checked =
        if blank then throw (value_error "Kafka topic must not be blank.") else do
          lift checked
          try_except (send_to_kafka lib enc producer delivery_timeout topic event)
              (handler is_rejection) (λ r. pure r)

    tested_publication-tested_reference :
        (blank : Bool) (checked : Reply (Unit {0})) (w : W)
        → tested_publication blank checked w ≡ tested_reference blank checked w
    tested_publication-tested_reference true checked w = refl
    tested_publication-tested_reference false (error e) w = refl
    tested_publication-tested_reference false (value u) w =
        attempt-continue is_rejection acknowledged
          (produced (enc.encode (enc.dumps_sorted_unicode (lib.model_dump event))) w)
          event_publish_error_rejects
          (acknowledge_error event.payload.order_id (order_created_headers lib enc event))

  -- The Kafka publisher is the reference publisher that sends the record of the event, with the
  -- acknowledgement as its answer: for every topic and event, and in every world, both return the
  -- same or raise the same, and leave the same world.
  pub publish_to_kafka-publish_by :
      (topic : String) (event : OrderCreatedEvent) (w : W)
      → publish_to_kafka lib enc producer delivery_timeout topic event w
        ≡ publish_by lib "Kafka topic must not be blank." is_rejection
            (send_to_kafka lib enc producer delivery_timeout)
            topic
            event
            w
  unfolding publish_to_kafka serialize_order_created_event
  publish_to_kafka-publish_by topic event w =
      tested_publication-tested_reference topic event (is_blank topic) (validate_event lib event) w

module _ {W : Type 0} (lib : Libraries) (dumps_sorted : Json → String) (client : SqsSender W)
    (group deduplication : Option String) where
  -- The SQS publisher is the reference publisher that sends the request of the event.
  pub publish_to_sqs-publish_by :
      (destination : String) (event : OrderCreatedEvent) (w : W)
      → publish_to_sqs lib dumps_sorted client destination event group deduplication w
        ≡ publish_by lib "SQS queue URL must not be blank." is_refusal
            (send_to_sqs lib dumps_sorted client group deduplication)
            destination
            event
            w
  unfolding publish_to_sqs
  publish_to_sqs-publish_by destination event w = refl
