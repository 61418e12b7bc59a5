-- ===== src/Setup.antt =====
-- local_lab/resource_setup.py and initialize_resources.py: provisioning that may be repeated. The
-- clients of Kafka and SQS are parameters; the printing is left out.
pub mod Repeats
mod Examples
use kafka_sqs.Base.{ℕ, String, Bool, true, false, not, List, [], ◌∷◌, str_eq, if◌then◌else◌}
use kafka_sqs.Base.Lists.{any}
use kafka_sqs.Base.Effect.{Exc, Eff, pure, ◌>>=◌, ◌>>◌}
use kafka_sqs.Contracts.Json.{Json, text, object, end, field}
use kafka_sqs.Clients.{Runtime}
use kafka_sqs.TopicAdmin.{
  KafkaTopicAdmin, TopicSpec, TopicConfig, TopicMetadata, list_topic_names, create_topic,
}
use kafka_sqs.LabConfig.{LocalLabConfig}

abbrev pub local_topic_config : TopicConfig
local_topic_config = ("cleanup.policy", "delete") ∷ ("retention.ms", "604800000") ∷ []

-- TopicSpec(name=name, partition_count=3, replication_factor=1, config=LOCAL_TOPIC_CONFIG)
abbrev pub local_spec : String → TopicSpec
local_spec name = record {
  name = name;
  partition_count = 3;
  replication_factor = 1;
  config = local_topic_config;
}

-- What the setup uses of the SQS client: `create_queue` by name and attributes, which gives the
-- QueueUrl, the QueueArn of a URL, and the URL of a name.
pub record QueueAdmin (W : Type 0) : Type 0 where
  pub create_queue : String → List (String × String) → Eff W String
  pub get_queue_arn : String → Eff W String
  pub get_queue_url : String → Eff W String

abbrev pub queue_attributes : List (String × String)
queue_attributes = ("VisibilityTimeout", "10") ∷ ("ReceiveMessageWaitTimeSeconds", "2") ∷ []

abbrev pub redrive_policy : String → Json
redrive_policy dlq_arn =
    object (field "deadLetterTargetArn" (text dlq_arn) (field "maxReceiveCount" (text "3") end))

abbrev pub redrive_attributes : (Json → String) → String → List (String × String)
redrive_attributes dumps dlq_arn =
    ("VisibilityTimeout", "10")
    ∷ ("ReceiveMessageWaitTimeSeconds", "2")
    ∷ ("RedrivePolicy", dumps (redrive_policy dlq_arn))
    ∷ []

module _ {W : Type 0} where
  -- `dumps` is json.dumps.
  unfoldable pub ensure_sqs_queues :
      (Json → String) → QueueAdmin W → LocalLabConfig → Eff W (String × String)
  ensure_sqs_queues dumps client settings = do
    dlq_url ← client.create_queue settings.sqs_dlq_name queue_attributes
    dlq_arn ← client.get_queue_arn dlq_url
    queue_url ← client.create_queue settings.sqs_queue_name (redrive_attributes dumps dlq_arn)
    pure (queue_url, dlq_url)

  unfoldable pub get_queue_url : QueueAdmin W → String → Eff W String
  get_queue_url client queue_name = client.get_queue_url queue_name

module _ {W : Type 0} (run : Runtime W) where
  abbrev pub forget : TopicMetadata → Eff W (Unit {0})
  forget metadata = pure tt

  -- The branch of `ensure_topic` on the names that are there.
  abbrev pub create_unless : KafkaTopicAdmin W → String → List String → Eff W (Unit {0})
  create_unless admin name names =
      if any (λ other. str_eq other name) names
      then pure tt
      else (create_topic run admin (local_spec name) >>= forget)

  unfoldable pub ensure_topic : KafkaTopicAdmin W → String → Eff W (Unit {0})
  unfolding create_topic list_topic_names
  ensure_topic admin name = do names ← list_topic_names run admin; create_unless admin name names

  -- `initialize_store` is that of the PostgresOrderStore of a schema, its construction included, and
  -- `initialize_controls` that of the ConsumerControlStore.
  unfoldable pub initialize_lab :
      (Json → String)
      → KafkaTopicAdmin W
      → QueueAdmin W
      → (String → Eff W (Unit {0}))
      → Eff W (Unit {0})
      → LocalLabConfig
      → Eff W (Unit {0})
  unfolding ensure_topic ensure_sqs_queues
  initialize_lab dumps admin sqs initialize_store initialize_controls settings = do
    ensure_topic admin settings.kafka_topic
    ensure_topic admin settings.kafka_dlq_topic
    urls ← ensure_sqs_queues dumps sqs settings
    initialize_store settings.kafka_schema
    initialize_store settings.sqs_schema
    initialize_controls
