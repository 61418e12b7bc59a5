-- ===== src/OrderApi/Configured.antt =====
-- create_configured_order_app and _required_environment of order_api/http_api.py.
use kafka_sqs.Base.{String, ◌<>◌, none, if◌then◌else◌}
use kafka_sqs.Base.Text.{strip, is_empty}
use kafka_sqs.Base.Effect.{Exc, Reply, value, error, runtime_error, Eff, lift, ◌>>=◌}
use kafka_sqs.Contracts.Event.{OrderCreatedEvent}
use kafka_sqs.Clients.{Runtime}
use kafka_sqs.LabConfig.{Environment, or_default}
use kafka_sqs.PublisherConfig.{KafkaPublisherConfig, default_config}
use kafka_sqs.OrderApi.{OrderApp, create_order_app}

abbrev pub missing_variable : String → Exc
missing_variable name = runtime_error ("Required environment variable " <> (name <> " is missing."))

-- os.getenv(name, "").strip()
abbrev pub stripped : Environment → String → String
stripped env name = strip (or_default (env name) "")

abbrev pub full_or_missing : String → String → Reply String
full_or_missing name text = if is_empty text then error (missing_variable name) else value text

-- _required_environment
unfoldable pub required_environment : Environment → String → Reply String
unfolding strip
required_environment env name = full_or_missing name (stripped env name)

module _ {W R : Type 0} (run : Runtime W)
    (make_publisher : KafkaPublisherConfig → Eff W (String → OrderCreatedEvent → Eff W R)) where
  -- `make_publisher` is the constructor KafkaEventPublisher.
  unfoldable pub create_configured_order_app : Environment → Eff W (OrderApp W R)
  unfolding required_environment create_order_app
  create_configured_order_app env = do
    bootstrap_servers ← lift (required_environment env "KAFKA_BOOTSTRAP_SERVERS")
    topic ← lift (required_environment env "ORDER_EVENTS_TOPIC")
    publisher ← make_publisher (default_config bootstrap_servers)
    lift (create_order_app run publisher topic none none none)
