-- ===== src/Publishers.antt =====
-- messaging/event_publishers.py and KafkaDeadLetterPublisher of
-- order_processing/retry_and_dead_letter.py: publication with an acknowledgement. `Encoder` is what
-- they take from str.encode, json.dumps and datetime, over text without lone surrogates.
pub mod Acknowledged
pub mod Construct
mod Examples
use kafka_sqs.Base.{
  ℕ, zero, suc, ◌*◌, String, Bool, true, false, ◌&&◌, ◌||◌, Option, none, some, List, [], ◌∷◌, ◌==◌,
  if◌then◌else◌,
}
use kafka_sqs.Base.Int.{ℤ, pos, negsuc, leb_ℤ}
use kafka_sqs.Base.Text.{is_blank, is_empty, str_int, str_uuid}
use kafka_sqs.Base.Effect.{
  Exc, is_instance, Reply, value, error, Eff, pure, throw, lift, reads, try_except, ◌>>=◌, ◌>>◌,
  value_error,
}
use kafka_sqs.Contracts.Event.{Datetime, OrderCreatedEvent}
use kafka_sqs.Contracts.Json.{Json}
use kafka_sqs.Contracts.Libraries.{Bytes, Libraries}
use kafka_sqs.Contracts.Validation.{validate_event}
use kafka_sqs.Clients.{
  Runtime, Message, ProducerRecord, Report, delivered, failed, Flushed, Producer,
}
use kafka_sqs.DeadLetter.{DeadLetterFailure, to_wire_dict}

-- Its texts are not modelled: they are shown to people only.
abbrev pub event_publish_error : Exc
event_publish_error = record {
  classes = "EventPublishError" ∷ "RuntimeError" ∷ "Exception" ∷ [];
  text = "";
}

pub record KafkaPublishReceipt : Type 0 where
  pub topic : String
  pub partition : ℕ
  pub offset : ℕ
  pub timestamp_ms : Option ℤ
  pub key : String
  pub headers : List (String × Bytes)

-- What the publishers encode: str.encode, and json.dumps with sorted keys and compact separators,
-- with and without ensure_ascii.
pub record Encoder : Type 0 where
  pub encode : String → Bytes
  pub dumps_sorted : Json → String
  pub dumps_sorted_unicode : Json → String
  -- datetime.now(timezone.utc).isoformat().replace("+00:00", "Z")
  pub isoformat : Datetime → String

-- The two lists that `on_delivery` fills.
abbrev pub delivered_of : List Report → List Message
delivered_of [] = []
delivered_of (delivered m ∷ reports) = m ∷ delivered_of reports
delivered_of (failed e ∷ reports) = delivered_of reports

abbrev pub errors_of : List Report → List String
errors_of [] = []
errors_of (delivered m ∷ reports) = errors_of reports
errors_of (failed e ∷ reports) = e ∷ errors_of reports

-- _message_timestamp_ms
unfoldable pub message_timestamp_ms : Message → Option ℤ
message_timestamp_ms m = elim m.timestamp [
  | none ↦ none
  | some t ↦ if leb_ℤ (pos 0) t then some t else none
]

abbrev pub receipt_of : String → List (String × Bytes) → Message → KafkaPublishReceipt
receipt_of key headers m = record {
  topic = m.topic;
  partition = m.partition;
  offset = m.offset;
  timestamp_ms = message_timestamp_ms m;
  key = key;
  headers = headers;
}

-- The receipt of the one delivered message.
abbrev pub one_delivered : String → List (String × Bytes) → List Message → Reply KafkaPublishReceipt
one_delivered key headers (m ∷ []) = value (receipt_of key headers m)
one_delivered key headers _ = error event_publish_error

-- The three tests after a flush, in the order of the code, and the receipt.
unfoldable pub acknowledge : String → List (String × Bytes) → Flushed → Reply KafkaPublishReceipt
acknowledge key headers flushed = elim flushed.remaining [
  | suc n ↦ error event_publish_error
  | zero ↦ elim (errors_of flushed.reports) [
    | e ∷ errors ↦ error event_publish_error
    | [] ↦ one_delivered key headers (delivered_of flushed.reports)
  ]
]

abbrev pub is_rejection : Exc → Bool
is_rejection e = is_instance e ("BufferError" ∷ "KafkaException" ∷ "RuntimeError" ∷ [])

module _ (lib : Libraries) (enc : Encoder) where
  -- order_created_headers
  unfoldable pub order_created_headers : OrderCreatedEvent → List (String × Bytes)
  order_created_headers event =
      ("content-type", enc.encode "application/json")
      ∷ ("event-type", enc.encode event.event_type)
      ∷ ("event-version", enc.encode (str_int event.event_version))
      ∷ ("event-id", enc.encode (str_uuid event.event_id))
      ∷ ("correlation-id", enc.encode event.correlation_id)
      ∷ ("causation-id", enc.encode event.causation_id)
      ∷ []

  abbrev pub serialized : OrderCreatedEvent → Reply (Unit {0}) → Reply Bytes
  serialized event (error e) = error e
  serialized event (value u) = value (enc.encode (enc.dumps_sorted_unicode (lib.model_dump event)))

  -- serialize_order_created_event
  unfoldable pub serialize_order_created_event : OrderCreatedEvent → Reply Bytes
  unfolding validate_event
  serialize_order_created_event event = serialized event (validate_event lib event)

  abbrev pub order_record : String → OrderCreatedEvent → Bytes → ProducerRecord
  order_record topic event payload = record {
    topic = topic;
    key = enc.encode event.payload.order_id;
    payload = payload;
    headers = order_created_headers event;
  }

module _ {ℓ} {W : Type ℓ} (lib : Libraries) (enc : Encoder) (producer : Producer W) where
  abbrev pub produce_and_flush : ProducerRecord → ℤ → Eff W Flushed
  produce_and_flush item timeout = do producer.produce item; producer.flush timeout

  -- KafkaEventPublisher.publish_order_created
  unfoldable pub publish_to_kafka : ℤ → String → OrderCreatedEvent → Eff W KafkaPublishReceipt
  unfolding is_blank order_created_headers serialize_order_created_event acknowledge
  publish_to_kafka delivery_timeout topic event =
      if is_blank topic then throw (value_error "Kafka topic must not be blank.") else do
        payload ← lift (serialize_order_created_event lib enc event)
        try_except (produce_and_flush (order_record lib enc topic event payload) delivery_timeout)
            (λ e. if is_rejection e then throw event_publish_error else throw e)
            (λ flushed.
              lift
                (acknowledge event.payload.order_id (order_created_headers lib enc event) flushed))

-- failure.event_id or failure.key or str(wire["dead_letter_id"])
abbrev pub text_or : Option String → String → String
text_or none other = other
text_or (some s) other = if is_empty s then other else s

abbrev pub failure_key : DeadLetterFailure → String → String
failure_key failure dead_letter_id = text_or failure.event_id (text_or failure.key dead_letter_id)

module _ {ℓ} {W : Type ℓ} (enc : Encoder) (run : Runtime W) (producer : Producer W) where
  abbrev pub failure_headers : DeadLetterFailure → List (String × Bytes)
  failure_headers failure =
      ("content-type", enc.encode "application/json")
      ∷ ("source-topic", enc.encode failure.source_topic)
      ∷ ("error-type", enc.encode failure.error_type)
      ∷ ("attempts", enc.encode (str_int failure.attempts))
      ∷ []

  abbrev pub failure_record : String → DeadLetterFailure → String → Datetime → ProducerRecord
  failure_record topic failure dead_letter_id now = record {
    topic = topic;
    key = enc.encode (failure_key failure dead_letter_id);
    payload =
        enc.encode (enc.dumps_sorted (to_wire_dict failure dead_letter_id (enc.isoformat now)));
    headers = failure_headers failure;
  }

  -- KafkaDeadLetterPublisher.publish_failure
  unfoldable pub publish_failure : ℤ → String → DeadLetterFailure → Eff W KafkaPublishReceipt
  unfolding acknowledge to_wire_dict
  publish_failure delivery_timeout topic failure = do
    id ← reads run.uuid4
    now ← reads run.utc_now
    producer.produce (failure_record topic failure (str_uuid id) now)
    flushed ← producer.flush delivery_timeout
    lift (acknowledge (failure_key failure (str_uuid id)) (failure_headers failure) flushed)
