-- ===== src/Publishers/Construct.antt =====
-- The constructors of KafkaEventPublisher and KafkaDeadLetterPublisher. `connect` is
-- `confluent_kafka.Producer`, of the configuration that it is given.
use kafka_sqs.Base.{String, true, Option, none, some, List, [], ◌∷◌}
use kafka_sqs.Base.Int.{ℤ}
use kafka_sqs.Base.Effect.{Eff, pure, lift, ◌>>=◌}
use kafka_sqs.Contracts.Event.{OrderCreatedEvent}
use kafka_sqs.Contracts.Libraries.{Libraries}
use kafka_sqs.Clients.{Runtime, Producer}
use kafka_sqs.DeadLetter.{DeadLetterFailure}
use kafka_sqs.PublisherConfig.{
  KafkaPublisherConfig, ProducerValue, word, flag, number, milliseconds, producer_config,
}
use kafka_sqs.Publishers.{Encoder, KafkaPublishReceipt, publish_to_kafka, publish_failure}

-- The dictionary of the dead-letter producer.
abbrev pub dead_letter_entries : String → ℤ → List (String × ProducerValue)
dead_letter_entries bootstrap_servers delivery_timeout =
    ("bootstrap.servers", word bootstrap_servers)
    ∷ ("client.id", word "order-app-dlq-producer")
    ∷ ("enable.idempotence", flag true)
    ∷ ("acks", word "all")
    ∷ ("delivery.timeout.ms", number (milliseconds delivery_timeout))
    ∷ []

module _ {W : Type 0} (connect : List (String × ProducerValue) → Eff W (Producer W)) where
  -- producer or Producer(settings.as_confluent_config()), where a given producer is true as a test.
  unfoldable pub event_producer : KafkaPublisherConfig → Option (Producer W) → Eff W (Producer W)
  unfolding producer_config
  event_producer settings (some producer) = pure producer
  event_producer settings none = lift (producer_config settings) >>= connect

  unfoldable pub dead_letter_producer : String → ℤ → Option (Producer W) → Eff W (Producer W)
  unfolding milliseconds
  dead_letter_producer bootstrap_servers delivery_timeout (some producer) = pure producer
  dead_letter_producer bootstrap_servers delivery_timeout none =
      connect (dead_letter_entries bootstrap_servers delivery_timeout)

  -- KafkaEventPublisher(settings): its publish_order_created.
  unfoldable pub kafka_event_publisher :
      Libraries
      → Encoder
      → KafkaPublisherConfig
      → Option (Producer W)
      → Eff W (String → OrderCreatedEvent → Eff W KafkaPublishReceipt)
  unfolding event_producer publish_to_kafka
  kafka_event_publisher lib enc settings given = do
    producer ← event_producer settings given
    pure (publish_to_kafka lib enc producer settings.delivery_timeout_seconds)

  -- KafkaDeadLetterPublisher(bootstrap_servers): its publish_failure.
  unfoldable pub kafka_dead_letter_publisher :
      Encoder
      → Runtime W
      → String
      → ℤ
      → Option (Producer W)
      → Eff W (String → DeadLetterFailure → Eff W KafkaPublishReceipt)
  unfolding dead_letter_producer publish_failure
  kafka_dead_letter_publisher enc run bootstrap_servers delivery_timeout given = do
    producer ← dead_letter_producer bootstrap_servers delivery_timeout given
    pure (publish_failure enc run producer delivery_timeout)
