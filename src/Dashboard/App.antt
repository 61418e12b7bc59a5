-- ===== src/Dashboard/App.antt =====
-- create_local_lab_app of local_lab/dashboard_api.py: the start of the dashboard and the two producer
-- APIs that it mounts. The clients of the brokers are made outside.
use kafka_sqs.Base.{String, none, List}
use kafka_sqs.Base.Effect.{Eff, pure, lift, ◌>>=◌, ◌>>◌}
use kafka_sqs.Contracts.Json.{Json}
use kafka_sqs.Contracts.Libraries.{Libraries}
use kafka_sqs.Clients.{Runtime, Producer}
use kafka_sqs.LabConfig.{LocalLabConfig, Environment, from_environment}
use kafka_sqs.PublisherConfig.{ProducerValue, default_config}
use kafka_sqs.Publishers.{Encoder, KafkaPublishReceipt}
use kafka_sqs.Publishers.Construct.{kafka_event_publisher}
use kafka_sqs.SqsPublisher.{SqsPublishReceipt, SqsSender, publish_to_sqs}
use kafka_sqs.Setup.{QueueAdmin, get_queue_url}
use kafka_sqs.TopicAdmin.{KafkaTopicAdmin}
use kafka_sqs.OrderStore.{PostgresOrderStore, make_store}
use kafka_sqs.OrderApi.{OrderApp, create_order_app}

-- The SQS client, by what is used of it.
pub record LabSqs (W : Type 0) : Type 0 where
  pub queues : QueueAdmin W
  pub sender : SqsSender W

-- What the start calls outside: build_sqs_client, the constructor of KafkaTopicAdmin and of a
-- Producer, and the `initialize` of a store and of the controls.
pub record LabClients (W : Type 0) : Type 0 where
  pub build_sqs_client : LocalLabConfig → Eff W (LabSqs W)
  pub topic_admin : String → Eff W (KafkaTopicAdmin W)
  pub connect : List (String × ProducerValue) → Eff W (Producer W)
  pub initialize_store : PostgresOrderStore → Eff W (Unit {0})
  pub initialize_controls : Eff W (Unit {0})

-- The handles of the routes, and the mounted applications.
pub record LocalLabApp (W : Type 0) : Type 0 where
  pub settings : LocalLabConfig
  pub sqs_queue_url : String
  pub kafka_store : PostgresOrderStore
  pub sqs_store : PostgresOrderStore
  pub kafka_admin : KafkaTopicAdmin W
  pub kafka_app : OrderApp W KafkaPublishReceipt
  pub sqs_app : OrderApp W SqsPublishReceipt

module _ {W : Type 0} (run : Runtime W) (lib : Libraries) (enc : Encoder)
    (dumps_sorted : Json → String) (clients : LabClients W) where
  abbrev pub sqs_order_app : LabSqs W → String → Eff W (OrderApp W SqsPublishReceipt)
  sqs_order_app sqs queue_url = lift (
      create_order_app run
        (λ destination event.
          publish_to_sqs lib dumps_sorted sqs.sender destination event none none)
        queue_url none none none)

  abbrev pub kafka_order_app : LocalLabConfig → Eff W (OrderApp W KafkaPublishReceipt)
  kafka_order_app settings = do
    publisher ←
        kafka_event_publisher clients.connect lib enc
          (default_config settings.kafka_bootstrap_servers) none
    lift (create_order_app run publisher settings.kafka_topic none none none)

  unfoldable pub create_local_lab_app : Environment → Eff W (LocalLabApp W)
  unfolding from_environment make_store kafka_event_publisher create_order_app publish_to_sqs
      get_queue_url
  create_local_lab_app env = do
    settings ← lift (from_environment env)
    sqs ← clients.build_sqs_client settings
    queue_url ← get_queue_url sqs.queues settings.sqs_queue_name
    kafka_store ← lift (make_store settings.postgres_dsn settings.kafka_schema)
    sqs_store ← lift (make_store settings.postgres_dsn settings.sqs_schema)
    clients.initialize_store kafka_store
    clients.initialize_store sqs_store
    kafka_admin ← clients.topic_admin settings.kafka_bootstrap_servers
    clients.initialize_controls
    kafka_app ← kafka_order_app settings
    sqs_app ← sqs_order_app sqs queue_url
    pure (record {
      settings = settings;
      sqs_queue_url = queue_url;
      kafka_store = kafka_store;
      sqs_store = sqs_store;
      kafka_admin = kafka_admin;
      kafka_app = kafka_app;
      sqs_app = sqs_app;
    })
