-- ===== src/Consumer.antt =====
-- order_processing/kafka_order_consumer.py: settings, construction and the processing of a record.
pub mod Process
pub mod Settled
pub mod Count
pub mod Log
pub mod Budget
mod Examples
pub mod Total
pub mod Attempts
pub mod Ends
pub mod Ordered
pub mod Watch
use kafka_sqs.Base.{
  ℕ, zero, suc, ◌+◌, ◌-◌, String, ◌<>◌, Bool, true, false, not, ◌&&◌, ◌||◌, Option, none, some,
  List, [], ◌∷◌, str_eq, leb, if◌then◌else◌,
}
use kafka_sqs.Base.Int.{ℤ, pos, leb_ℤ, ltb_ℤ, min_ℤ, pos_part}
use kafka_sqs.Base.Text.{is_blank, str_int, str_uuid}
use kafka_sqs.Base.Lists.{any}
use kafka_sqs.Base.Effect.{
  Exc, type_name, Reply, value, error, out_of_fuel, Eff, pure, throw, reads, try_except, ◌>>=◌,
  ◌>>◌, value_error, type_error,
}
use kafka_sqs.Contracts.Event.{Uuid, OrderCreatedEvent}
use kafka_sqs.Contracts.Json.{Json, null, text, is_object}
use kafka_sqs.Contracts.Libraries.{Bytes, Libraries}
use kafka_sqs.Contracts.Validation.{parse_order_created_event}
use kafka_sqs.Clients.{Runtime, Message, ConsumerClient}
use kafka_sqs.DeadLetter.{RetryPolicy, is_retryable, DeadLetterFailure}
use kafka_sqs.OrderStore.{EventStoreResult}

-- Texts of these two are printed only, and left out.
abbrev pub order_consumer_error : Exc
order_consumer_error = record {
  classes = "OrderConsumerError" ∷ "RuntimeError" ∷ "Exception" ∷ [];
  text = "";
}

abbrev pub order_consumer_timeout : Exc
order_consumer_timeout = record {
  classes = "OrderConsumerTimeout" ∷ "TimeoutError" ∷ "OSError" ∷ "Exception" ∷ [];
  text = "";
}

pub record ConsumerSettings : Type 0 where
  pub bootstrap_servers : String
  pub group_id : String
  pub client_id : String
  pub offset_reset : String
  pub poll_interval_seconds : ℤ

pub data ConfigValue : Type 0 where
  word : String → ConfigValue
  flag : Bool → ConfigValue

unfoldable pub as_confluent_config : ConsumerSettings → Reply (List (String × ConfigValue))
unfolding is_blank
as_confluent_config self =
    if is_blank self.group_id
    then error (value_error "Consumer group_id must not be blank.")
    else if not (str_eq self.offset_reset "earliest" || str_eq self.offset_reset "latest")
    then error (value_error "offset_reset must be 'earliest' or 'latest'.")
    else if leb_ℤ self.poll_interval_seconds (pos 0)
    then error (value_error "poll_interval_seconds must be greater than zero.")
    else value (
        ("bootstrap.servers", word self.bootstrap_servers)
        ∷ ("group.id", word self.group_id)
        ∷ ("client.id", word self.client_id)
        ∷ ("enable.auto.commit", flag false)
        ∷ ("enable.auto.offset.store", flag false)
        ∷ ("auto.offset.reset", word self.offset_reset)
        ∷ ("isolation.level", word "read_committed")
        ∷ [])

pub record ProcessedKafkaRecord : Type 0 where
  pub event_id : String
  pub topic : String
  pub partition : ℕ
  pub offset : ℕ
  pub group_id : String
  pub duplicate : Bool
  pub attempts : ℕ
  pub dead_lettered : Bool

-- The protocol _OrderStore.
pub record OrderStore {ℓ} (W : Type ℓ) : Type ℓ where
  pub store : OrderCreatedEvent → Eff W EventStoreResult
  pub mark_completed : Uuid → Eff W (Unit {0})
  pub discard : Uuid → Eff W (Unit {0})

-- `downstream` is `notify` of the protocol _OrderDownstream, and `dead_letter_publisher` is
-- `publish_failure` of _DeadLetterPublisher.
pub record KafkaOrderConsumer {ℓ} (W : Type ℓ) : Type ℓ where
  pub settings : ConsumerSettings
  pub topic : String
  pub store : OrderStore W
  pub downstream : Option (OrderCreatedEvent → Eff W (Unit {0}))
  pub retry_policy : RetryPolicy
  pub dead_letter_publisher : Option (String → DeadLetterFailure → Eff W (Unit {0}))
  pub dead_letter_topic : Option String
  pub consumer : ConsumerClient W
  pub closed : Bool

abbrev pub is_some {ℓ} : {A : Type ℓ} → Option A → Bool
is_some none = false
is_some (some a) = true

-- initial_is_new is False
abbrev is_false : Option Bool → Bool
is_false (some false) = true
is_false _ = false

-- The first decision of the store stays.
abbrev first_decision : Option Bool → Bool → Option Bool
first_decision none is_new = some is_new
first_decision (some b) is_new = some b

module _ (lib : Libraries) where
  abbrev loads_bytes : Reply String → Reply Json
  loads_bytes (value s) = lib.loads s
  loads_bytes (error e) = error e

  -- json.loads(value.decode("utf-8") if value is not None else "")
  abbrev load_payload : Option Bytes → Reply Json
  load_payload none = lib.loads ""
  load_payload (some bytes) = loads_bytes (lib.decode bytes)

  abbrev with_payload : Json → Reply OrderCreatedEvent → Reply (Json × OrderCreatedEvent)
  with_payload payload (value event) = value (payload, event)
  with_payload payload (error e) = error e

  abbrev check_payload : Reply Json → Reply (Json × OrderCreatedEvent)
  check_payload (error e) = error e
  check_payload (value payload) =
      if is_object payload
      then with_payload payload (parse_order_created_event lib payload)
      else error (type_error "event JSON must be an object")

  -- The first `try` block of `process_one`.
  unfoldable pub decode_event : Option Bytes → Reply (Json × OrderCreatedEvent)
  decode_event bytes = check_payload (load_payload bytes)

  abbrev json_or_text : Bytes → Reply Json → Json
  json_or_text bytes (value payload) = payload
  json_or_text bytes (error e) = text (lib.decode_replace bytes)

  -- _safe_original_payload
  unfoldable pub safe_original_payload : Option Bytes → Json
  safe_original_payload none = null
  safe_original_payload (some bytes) = json_or_text bytes (loads_bytes (lib.decode bytes))

  -- key_bytes.decode("utf-8", errors="replace") if key_bytes else None
  abbrev decode_key : Option Bytes → Option String
  decode_key none = none
  decode_key (some []) = none
  decode_key (some (b ∷ bytes)) = some (lib.decode_replace (b ∷ bytes))

  unfoldable pub failure_of :
      Message → Json → Exc → ℕ → Option OrderCreatedEvent → DeadLetterFailure
  failure_of message original_payload e attempts event = record {
    source_topic = message.topic;
    source_partition = message.partition;
    source_offset = message.offset;
    key = decode_key message.key;
    event_id = elim event [ none ↦ none | some v ↦ some (str_uuid v.event_id) ];
    correlation_id = elim event [ none ↦ none | some v ↦ some v.correlation_id ];
    attempts = attempts;
    error_type = type_name e;
    error_message = e.text;
    original_payload = original_payload;
  }
