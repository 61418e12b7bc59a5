-- ===== src/Wire/Kafka.antt =====
-- A record of Kafka, from the publisher to the consumer.
use kafka_sqs.Base.{String, ◌≡◌, refl, some}
use kafka_sqs.Base.Int.{ℤ}
use kafka_sqs.Base.Effect.{Reply, value, error, ok}
use kafka_sqs.Contracts.Event.{OrderCreatedEvent}
use kafka_sqs.Contracts.Libraries.{Bytes, Libraries}
use kafka_sqs.Contracts.Validation.{validate_event}
use kafka_sqs.Clients.{Producer}
use kafka_sqs.Publishers.{
  Encoder, KafkaPublishReceipt, serialized, serialize_order_created_event, publish_to_kafka,
}
use kafka_sqs.Publishers.Acknowledged.{Published, publish_to_kafka_ok}
use kafka_sqs.Consumer.{decode_event}
use kafka_sqs.Wire.{Decodes, ReadsBack, parse_order_created_event-wire}

module _ (lib : Libraries) (enc : Encoder) (event : OrderCreatedEvent) where
  pub serialize_order_created_event_ok :
      (payload : Bytes)
      → serialize_order_created_event lib enc event ≡ value payload
      → (validate_event lib event ≡ value tt)
        × (payload ≡ enc.encode (enc.dumps_sorted_unicode (lib.model_dump event)))
  unfolding serialize_order_created_event
  serialize_order_created_event_ok payload h = checked (validate_event lib event) h
    where
      checked :
          (r : Reply (Unit {0}))
          → serialized lib enc event r ≡ value payload
          → (r ≡ value tt)
            × (payload ≡ enc.encode (enc.dumps_sorted_unicode (lib.model_dump event)))
      checked (value tt) g = (refl, cc)
      checked (error e) g = absurd (cc)

  module _ (text : Decodes lib enc (enc.dumps_sorted_unicode (lib.model_dump event)))
      (back : ReadsBack lib enc.dumps_sorted_unicode event) where
    -- The consumer decodes what the publisher serialized as the same event.
    pub decode_event-serialize_order_created_event :
        (payload : Bytes)
        → serialize_order_created_event lib enc event ≡ value payload
        → decode_event lib (some payload) ≡ value (back.wire, event)
    unfolding decode_event
    decode_event-serialize_order_created_event payload h =
        let (valid, same) = serialize_order_created_event_ok payload h in
        rw same rw text rw back.loads rw back.is_dict rw
          (parse_order_created_event-wire lib enc.dumps_sorted_unicode event back valid) refl

    -- A publication to Kafka that returns names a topic that is not blank and an event that satisfies
    -- the contract, whose record was produced and flushed; nothing was left in the queue, the only
    -- delivery report was of a success, and the receipt describes the delivered message. If the
    -- libraries read the event back, a consumer that is given the payload of that record decodes it as
    -- the event that was published.
    pub publish_to_kafka-decode_event :
        {W : Type 0} (producer : Producer W) (timeout : ℤ) (topic : String)
        (r : KafkaPublishReceipt) (w w' : W)
        → publish_to_kafka lib enc producer timeout topic event w ≡ ok r w'
        → (sent : Published lib enc producer timeout topic event r w w') × (decode_event lib
              (some sent.payload)
            ≡ value (back.wire, event))
    publish_to_kafka-decode_event producer timeout topic r w w' h =
        let sent = publish_to_kafka_ok lib enc producer timeout topic event r w w' h in
        (sent, decode_event-serialize_order_created_event sent.payload sent.serializes)
