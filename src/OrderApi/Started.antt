-- ===== src/OrderApi/Started.antt =====
-- The start of the order API from its environment.
use kafka_sqs.Base.{
  String, ◌≡◌, refl, ◌⊎◌, inl, inr, Bool, true, false, none, List, ◌∙◌, if◌then◌else◌,
}
use kafka_sqs.Base.Int.{pos}
use kafka_sqs.Base.Text.{is_empty, is_blank}
use kafka_sqs.Base.Blanks.{is_blank-strip}
use kafka_sqs.Base.Effect.{
  value, error, Outcome, ok, raise, out_of_fuel, Eff, pure, lift, continue, ◌>>=◌,
}
use kafka_sqs.Contracts.Libraries.{Libraries}
use kafka_sqs.Clients.{Runtime, Producer}
use kafka_sqs.LabConfig.{Environment, or_default}
use kafka_sqs.PublisherConfig.{ProducerValue, default_config, producer_config, producer_entries}
use kafka_sqs.Publishers.{Encoder, KafkaPublishReceipt, publish_to_kafka}
use kafka_sqs.Publishers.Construct.{event_producer, kafka_event_publisher}
use kafka_sqs.OrderApi.{OrderApp, create_order_app}
use kafka_sqs.OrderApi.Configured.{
  missing_variable, stripped, required_environment, create_configured_order_app,
}

module _ {W : Type 0} (run : Runtime W)
    (connect : List (String × ProducerValue) → Eff W (Producer W)) (lib : Libraries) (enc : Encoder)
    (env : Environment) where
  abbrev pub servers : String
  servers = stripped env "KAFKA_BOOTSTRAP_SERVERS"

  abbrev pub topic : String
  topic = stripped env "ORDER_EVENTS_TOPIC"

  -- The connection that the start makes.
  abbrev pub connected : Eff W (Producer W)
  connected = connect (producer_entries (default_config servers))

  abbrev pub start : Eff W (OrderApp W KafkaPublishReceipt)
  start =
      create_configured_order_app run
        (λ settings. kafka_event_publisher connect lib enc settings none) env

  abbrev pub Starts : W → Outcome W (OrderApp W KafkaPublishReceipt) → Type 0
  Starts w (ok app w') =
      (is_empty servers ≡ false)
      × (app.topic ≡ topic)
      × (is_blank app.topic ≡ false)
      × ((producer : Producer W) × (connected w ≡ ok producer w')
          × (app.publisher ≡ publish_to_kafka lib enc producer (pos 15000000)))
  Starts w (raise e w') =
      ((is_empty servers ≡ true) × (e ≡ missing_variable "KAFKA_BOOTSTRAP_SERVERS") × (w' ≡ w))
      ⊎ ((is_empty servers ≡ false)
          × (is_empty topic ≡ true)
          × (e ≡ missing_variable "ORDER_EVENTS_TOPIC")
          × (w' ≡ w))
      ⊎ ((is_empty servers ≡ false) × (is_empty topic ≡ false) × (connected w ≡ raise e w'))
  Starts w out_of_fuel =
      (is_empty servers ≡ false) × (is_empty topic ≡ false) × (connected w ≡ out_of_fuel)

  topic_full : is_empty topic ≡ false → is_blank topic ≡ false
  unfolding is_blank
  topic_full full = is_blank-strip (or_default (env "ORDER_EVENTS_TOPIC") "") ∙ full

  connected-Starts :
      (w : W)
      → is_empty servers ≡ false
      → is_empty topic ≡ false
      → (o : Outcome W (Producer W)) → connected w ≡ o
      → Starts w (
          continue
            (continue o λ producer. pure (publish_to_kafka lib enc producer (pos 15000000)))
            λ publisher. lift (create_order_app run publisher topic none none none))
  unfolding create_order_app
  connected-Starts w named full (ok producer w') c =
      rw (topic_full full) (named, refl, topic_full full, (producer, c, refl))
  connected-Starts w named full (raise e w') c = inr (inr (named, full, c))
  connected-Starts w named full out_of_fuel c = (named, full, c)

  topic-Starts :
      (w : W) (b : Bool)
      → is_empty servers ≡ false
      → is_empty topic ≡ b
      → Starts w (
          continue
            (lift (if b then error (missing_variable "ORDER_EVENTS_TOPIC") else value topic) w)
            λ topic.
              kafka_event_publisher connect lib enc (default_config servers) none >>= λ publisher.
              lift (create_order_app run publisher topic none none none))
  unfolding kafka_event_publisher event_producer producer_config
  topic-Starts w true named e = inr (inl (named, e, refl, refl))
  topic-Starts w false named e = connected-Starts w named e (connected w) refl

  servers-Starts :
      (w : W) (b : Bool)
      → is_empty servers ≡ b
      → Starts w (
          continue
            (lift
              (if b then error (missing_variable "KAFKA_BOOTSTRAP_SERVERS") else value servers)
              w)
            λ servers. lift (required_environment env "ORDER_EVENTS_TOPIC") >>= λ topic.
              kafka_event_publisher connect lib enc (default_config servers) none >>= λ publisher.
              lift (create_order_app run publisher topic none none none))
  unfolding required_environment
  servers-Starts w true e = inl (e, refl, refl)
  servers-Starts w false e = topic-Starts w (is_empty topic) e refl

  -- The start refuses an environment without the servers or, with them, without the topic: it names
  -- the variable and makes no connection. Only with both does it connect, with the configuration of
  -- these servers, and it fails only if that connection does; otherwise the topic of the application
  -- is the one of the environment and not blank, and its publisher sends over the connection and waits
  -- 15 seconds for the acknowledgement.
  pub create_configured_order_app-Starts : (w : W) → Starts w (start w)
  unfolding create_configured_order_app required_environment
  create_configured_order_app-Starts w = servers-Starts w (is_empty servers) refl
