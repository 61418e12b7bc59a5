-- ===== src/Wire/Sqs.antt =====
-- A message of SQS, from the publisher to the consumer.
use kafka_sqs.Base.{String, ◌≡◌, refl, false, Option}
use kafka_sqs.Base.Effect.{value, ok}
use kafka_sqs.Base.Text.{is_blank}
use kafka_sqs.Contracts.Event.{OrderCreatedEvent}
use kafka_sqs.Contracts.Json.{Json}
use kafka_sqs.Contracts.Libraries.{Libraries}
use kafka_sqs.SqsPublisher.{SqsPublishReceipt, SendRequest, SqsSender, send_request, publish_to_sqs}
use kafka_sqs.SqsPublisher.Sends.{publish_to_sqs_ok}
use kafka_sqs.SqsConsumer.{parse_body}
use kafka_sqs.Wire.{ReadsBack, parse_order_created_event-wire}

module _ {W : Type 0} (lib : Libraries) (dumps_sorted : Json → String) (client : SqsSender W)
    (event : OrderCreatedEvent) (back : ReadsBack lib dumps_sorted event) where
  -- A publication to SQS that returns names a queue that is not blank; its one call of the client sent
  -- a request to that queue, whose answer is the receipt; and if the libraries read the event back,
  -- the consumer parses the body of that request as the event that was published.
  pub publish_to_sqs-parse_body :
      (destination : String) (group deduplication : Option String) (r : SqsPublishReceipt)
      (w w' : W)
      → publish_to_sqs lib dumps_sorted client destination event group deduplication w ≡ ok r w'
      → (request : SendRequest) × (is_blank destination ≡ false)
        × (client.send_message request w ≡ ok r w')
        × (request.queue_url ≡ destination)
        × (parse_body lib request.message_body ≡ value event)
  unfolding parse_body
  publish_to_sqs-parse_body destination group deduplication r w w' h =
      let (named, valid, sent) =
        publish_to_sqs_ok lib dumps_sorted client destination event group deduplication r w w' h in
      (
        send_request lib dumps_sorted client destination event group deduplication,
        named,
        sent,
        refl,
        rw back.loads (parse_order_created_event-wire lib dumps_sorted event back valid),
      )
