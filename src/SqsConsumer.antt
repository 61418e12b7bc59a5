-- ===== src/SqsConsumer.antt =====
-- order_processing/sqs_order_consumer.py: persist, then delete. boto3's client is a parameter.
pub mod Deletes
mod Examples
use kafka_sqs.Base.{ℕ, String, Bool, true, false, Option, none, some, List, [], ◌∷◌, if◌then◌else◌}
use kafka_sqs.Base.Text.{str_uuid}
use kafka_sqs.Base.Effect.{Exc, Reply, value, error, Eff, pure, throw, lift, ◌>>=◌, ◌>>◌}
use kafka_sqs.Contracts.Event.{OrderCreatedEvent}
use kafka_sqs.Contracts.Json.{Json}
use kafka_sqs.Contracts.Libraries.{Libraries}
use kafka_sqs.Contracts.Validation.{parse_order_created_event}
use kafka_sqs.OrderStore.{EventStoreResult}
use kafka_sqs.Consumer.{OrderStore}

-- A received message, of which the program reads the body and the receipt handle.
pub record SqsMessage : Type 0 where
  pub body : String
  pub receipt_handle : String

-- The queue URL comes first; `receive_message` then takes the wait time, and gives
-- response.get("Messages", []).
pub record SqsClient {ℓ} (W : Type ℓ) : Type ℓ where
  pub receive_message : String → ℕ → Eff W (List SqsMessage)
  pub delete_message : String → String → Eff W (Unit {0})

pub record SqsOrderConsumer {ℓ} (W : Type ℓ) : Type ℓ where
  pub client : SqsClient W
  pub queue_url : String
  pub store : OrderStore W

abbrev pub timeout_error : Exc
timeout_error = record {
  classes = "TimeoutError" ∷ "OSError" ∷ "Exception" ∷ [];
  text = "No SQS order event arrived before long poll ended.";
}

module _ (lib : Libraries) where
  abbrev parse_loaded : Reply Json → Reply OrderCreatedEvent
  parse_loaded (value payload) = parse_order_created_event lib payload
  parse_loaded (error e) = error e

  -- parse_order_created_event(json.loads(message["Body"]))
  unfoldable pub parse_body : String → Reply OrderCreatedEvent
  parse_body body = parse_loaded (lib.loads body)

module _ {ℓ} {W : Type ℓ} (lib : Libraries) (self : SqsOrderConsumer W) where
  abbrev pub complete_if : Bool → OrderCreatedEvent → Eff W (Unit {0})
  complete_if required event =
      if required then self.store.mark_completed event.event_id else pure tt

  -- The part of `process_one` after the event is parsed.
  abbrev pub persist : SqsMessage → OrderCreatedEvent → Eff W String
  persist message event = do
    result ← self.store.store event
    complete_if result.downstream_required event
    self.client.delete_message self.queue_url message.receipt_handle
    pure (str_uuid event.event_id)

  abbrev pub process_first : List SqsMessage → Eff W String
  process_first [] = throw timeout_error
  process_first (message ∷ rest) = do
    event ← lift (parse_body lib message.body)
    persist message event

  unfoldable pub process_one : ℕ → Eff W String
  process_one wait_seconds = do
    messages ← self.client.receive_message self.queue_url wait_seconds
    process_first messages
