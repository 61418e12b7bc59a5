-- ===== src/EventPublisher.antt =====
-- EventPublisher of messaging/event_publishers.py: the operation that the publishers of Kafka and SQS
-- share, what it promises, and one publisher that both are compared with.
pub mod Reference
pub mod Promise
pub mod Orders
pub mod Answered
mod Examples
use kafka_sqs.Base.{String, ◌≡◌, Bool, true, false, Option, none, if◌then◌else◌}
use kafka_sqs.Base.Int.{ℤ}
use kafka_sqs.Base.Text.{is_blank}
use kafka_sqs.Base.Effect.{
  Exc, Reply, value, error, value_error, Outcome, ok, raise, out_of_fuel, Eff, pure, throw, lift,
  try_except, ◌>>=◌, ◌>>◌,
}
use kafka_sqs.Contracts.Event.{OrderCreatedEvent}
use kafka_sqs.Contracts.Json.{Json}
use kafka_sqs.Contracts.Libraries.{Libraries}
use kafka_sqs.Contracts.Validation.{validate_event}
use kafka_sqs.Clients.{Producer}
use kafka_sqs.Publishers.{
  Encoder, KafkaPublishReceipt, event_publish_error, acknowledge, order_created_headers,
  order_record, produce_and_flush,
}
use kafka_sqs.SqsPublisher.{SqsPublishReceipt, SqsSender, send_request}

module _ {W R : Type 0} where
  -- The call returns, or it raises an exception of the given kind.
  abbrev pub RaisesOnly : (Exc → Bool) → Outcome W R → Type 0
  RaisesOnly kind (ok r w) = Unit {0}
  RaisesOnly kind (raise e w) = kind e ≡ true
  RaisesOnly kind out_of_fuel = ⊥

  -- The end of a publication whose destination and event are in order.
  abbrev pub Reported : Outcome W R → Type 0
  Reported (ok r w) = Unit {0}
  Reported (raise e w) = e ≡ event_publish_error
  Reported out_of_fuel = ⊥

  -- A blank destination is a ValueError and an event against the contract the error of its check, both
  -- before any call of the broker. Otherwise the publication returns or raises EventPublishError.
  abbrev pub Promised : Bool → Reply (Unit {0}) → W → Outcome W R → Type 0
  Promised true checked w o = (text : String) × (o ≡ raise (value_error text) w)
  Promised false (error e) w o = o ≡ raise e w
  Promised false (value u) w o = Reported o

-- The abstract class, with what its operation promises.
pub record EventPublisher (lib : Libraries) (W R : Type 0) : Type 0 where
  pub publish_order_created : String → OrderCreatedEvent → Eff W R
  pub promise :
      (destination : String) (event : OrderCreatedEvent) (w : W)
      → Promised
          (is_blank destination)
          (validate_event lib event)
          w
          (publish_order_created destination event w)

module _ {W R : Type 0} (lib : Libraries) where
  -- A publisher by what it sends: `blank` is the text of its ValueError, and `is_rejected` tells which
  -- exceptions of `send` the broker's rejections are.
  abbrev pub publish_by :
      String
      → (Exc → Bool)
      → (String → OrderCreatedEvent → Eff W R)
      → String
      → OrderCreatedEvent
      → Eff W R
  publish_by blank is_rejected send destination event =
      if is_blank destination then throw (value_error blank) else do
        lift (validate_event lib event)
        try_except (send destination event)
            (λ e. if is_rejected e then throw event_publish_error else throw e) (λ r. pure r)

-- What Kafka is sent: the record of the event, and the answer is its acknowledgement.
abbrev pub send_to_kafka :
    {W : Type 0}
    → Libraries
    → Encoder
    → Producer W
    → ℤ
    → String
    → OrderCreatedEvent
    → Eff W KafkaPublishReceipt
send_to_kafka lib enc producer delivery_timeout topic event =
    produce_and_flush lib enc producer
      (order_record lib enc topic event
        (enc.encode (enc.dumps_sorted_unicode (lib.model_dump event))))
      delivery_timeout
    >>= λ flushed.
        lift (acknowledge event.payload.order_id (order_created_headers lib enc event) flushed)

-- What SQS is sent.
abbrev pub send_to_sqs :
    {W : Type 0}
    → Libraries
    → (Json → String)
    → SqsSender W
    → Option String
    → Option String
    → String
    → OrderCreatedEvent
    → Eff W SqsPublishReceipt
send_to_sqs lib dumps_sorted client group deduplication destination event =
    client.send_message (send_request lib dumps_sorted client destination event group deduplication)
