-- ===== src/SqsPublisher.antt =====
-- SqsEventPublisher of messaging/event_publishers.py. boto3's client is a parameter.
pub mod Sends
mod Examples
use kafka_sqs.Base.{String, Bool, Option, none, some, List, [], ◌∷◌, if◌then◌else◌}
use kafka_sqs.Base.Text.{is_blank, str_int, str_uuid}
use kafka_sqs.Base.Effect.{
  Exc, is_instance, value_error, Eff, pure, throw, lift, try_except, ◌>>=◌, ◌>>◌,
}
use kafka_sqs.Contracts.Event.{OrderCreatedEvent}
use kafka_sqs.Contracts.Json.{Json}
use kafka_sqs.Contracts.Libraries.{Libraries}
use kafka_sqs.Contracts.Validation.{validate_event}
use kafka_sqs.Publishers.{text_or, event_publish_error}

pub record SqsPublishReceipt : Type 0 where
  pub message_id : String
  pub md5_of_body : String
  pub sequence_number : Option String

pub record MessageAttribute : Type 0 where
  pub name : String
  pub data_type : String
  pub string_value : String

-- MessageGroupId and MessageDeduplicationId, which are set together.
pub record FifoFields : Type 0 where
  pub message_group_id : String
  pub message_deduplication_id : String

pub record SendRequest : Type 0 where
  pub queue_url : String
  pub message_body : String
  pub message_attributes : List MessageAttribute
  pub fifo : Option FifoFields

-- The response of `send_message` by the three fields that the program reads.
pub record SqsSender {ℓ} (W : Type ℓ) : Type ℓ where
  pub send_message : SendRequest → Eff W SqsPublishReceipt

abbrev attribute : String → String → String → MessageAttribute
attribute name data_type string_value = record {
  name = name;
  data_type = data_type;
  string_value = string_value;
}

abbrev pub fifo_fields : OrderCreatedEvent → Option String → Option String → Option FifoFields
fifo_fields event none deduplication_id = none
fifo_fields event (some group) deduplication_id = some (record {
  message_group_id = group;
  message_deduplication_id = text_or deduplication_id (str_uuid event.event_id);
})

abbrev pub is_refusal : Exc → Bool
is_refusal e = is_instance e ("BotoCoreError" ∷ "ClientError" ∷ "OSError" ∷ [])

-- `dumps_sorted` is json.dumps with sorted keys and compact separators.
module _ {ℓ} {W : Type ℓ} (lib : Libraries) (dumps_sorted : Json → String)
    (client : SqsSender W) where
  abbrev pub send_request : String → OrderCreatedEvent → Option String → Option String → SendRequest
  send_request destination event message_group_id deduplication_id = record {
    queue_url = destination;
    message_body = dumps_sorted (lib.model_dump event);
    message_attributes =
        attribute "event-type" "String" event.event_type
        ∷ attribute "event-version" "Number" (str_int event.event_version)
        ∷ attribute "event-id" "String" (str_uuid event.event_id)
        ∷ attribute "correlation-id" "String" event.correlation_id
        ∷ attribute "content-type" "String" "application/json"
        ∷ [];
    fifo = fifo_fields event message_group_id deduplication_id;
  }

  -- SqsEventPublisher.publish_order_created
  unfoldable pub publish_to_sqs :
      String → OrderCreatedEvent → Option String → Option String → Eff W SqsPublishReceipt
  unfolding is_blank validate_event
  publish_to_sqs destination event message_group_id deduplication_id =
      if is_blank destination then throw (value_error "SQS queue URL must not be blank.") else do
        lift (validate_event lib event)
        try_except
            (client.send_message (send_request destination event message_group_id deduplication_id))
            (λ e. if is_refusal e then throw event_publish_error else throw e)
            (λ receipt. pure receipt)
