-- ===== src/TopicAdmin.antt =====
-- messaging/kafka_topic_admin.py: topics, with bounded waits. confluent-kafka's AdminClient and the
-- clock are parameters. Durations are whole microseconds.
pub mod Describe
pub mod Visible
pub mod Total
mod Examples
use kafka_sqs.Base.{
  ℕ, zero, suc, ◌+◌, String, ◌<>◌, Bool, true, false, not, Option, none, some, List, [], ◌∷◌, map,
  ◌==◌, leb, str_eq, if◌then◌else◌,
}
use kafka_sqs.Base.Int.{ℤ, pos, pos_part}
use kafka_sqs.Base.Lists.{length, any, find}
use kafka_sqs.Base.Sort.{sort_by}
use kafka_sqs.Base.Effect.{
  Exc, is_instance, Reply, value, error, Eff, pure, throw, lift, reads, try_except, out_of_fuel,
  ◌>>=◌, ◌>>◌,
}
use kafka_sqs.Clients.{Runtime}

-- Its texts are not modelled: they are shown to people only.
abbrev pub kafka_admin_error : Exc
kafka_admin_error = record {
  classes = "KafkaAdminError" ∷ "RuntimeError" ∷ "Exception" ∷ [];
  text = "";
}

abbrev pub is_admin_error : Exc → Bool
is_admin_error e = is_instance e ("KafkaAdminError" ∷ [])

abbrev pub TopicConfig : Type 0
TopicConfig = List (String × String)

abbrev pub default_topic_config : TopicConfig
default_topic_config = ("cleanup.policy", "delete") ∷ ("retention.ms", "600000") ∷ []

pub record TopicSpec : Type 0 where
  pub name : String
  pub partition_count : ℕ
  pub replication_factor : ℕ
  pub config : TopicConfig

-- TopicSpec(name)
abbrev pub default_spec : String → TopicSpec
default_spec name = record {
  name = name;
  partition_count = 3;
  replication_factor = 1;
  config = default_topic_config;
}

pub record TopicMetadata : Type 0 where
  pub name : String
  pub partition_ids : List ℕ
  pub replication_factors : List ℕ
  pub requested_config : TopicConfig

abbrev pub partition_count : TopicMetadata → ℕ
partition_count self = length self.partition_ids

-- A topic in the metadata of the cluster: the keys of `partitions` with their `replicas`.
pub record ClusterTopic : Type 0 where
  pub fault : Option String
  pub partitions : List (ℕ × List ℕ)

-- `create_topics` and `delete_topics` give the future of the one topic, by its `result`.
pub record AdminClient (W : Type 0) : Type 0 where
  pub create_topics : TopicSpec → ℕ → Eff W (ℕ → Eff W (Unit {0}))
  pub delete_topics : String → ℕ → Eff W (ℕ → Eff W (Unit {0}))
  pub list_topics : ℕ → Eff W (List (String × ClusterTopic))

-- A timeout is not negative.
pub record KafkaTopicAdmin (W : Type 0) : Type 0 where
  pub timeout_seconds : ℕ
  pub client : AdminClient W

abbrev key_error : Exc
key_error = record { classes = "KeyError" ∷ "LookupError" ∷ "Exception" ∷ []; text = "" }

abbrev pub is_named : String → String × ClusterTopic → Bool
is_named name (key, topic) = str_eq key name

abbrev pub has_number : ℕ → ℕ × List ℕ → Bool
has_number id (key, replicas) = key == id

abbrev pub value_of {ℓ} : {A B : Type ℓ} → Option (A × B) → Option B
value_of none = none
value_of (some (a, b)) = some b

-- len(topic_metadata.partitions[partition_id].replicas)
abbrev pub factor_of : Option (ℕ × List ℕ) → Reply ℕ
factor_of none = error key_error
factor_of (some (id, replicas)) = value (length replicas)

abbrev pub then_cons : Reply ℕ → Reply (List ℕ) → Reply (List ℕ)
then_cons (error e) rest = error e
then_cons (value n) (error e) = error e
then_cons (value n) (value l) = value (n ∷ l)

unfoldable pub factors : List (ℕ × List ℕ) → List ℕ → Reply (List ℕ)
factors partitions [] = value []
factors partitions (id ∷ ids) =
    then_cons (factor_of (find (has_number id) partitions)) (factors partitions ids)

abbrev pub id_of : ℕ × List ℕ → ℕ
id_of (id, replicas) = id

abbrev pub sorted_ids : List (ℕ × List ℕ) → List ℕ
sorted_ids partitions = sort_by leb (map id_of partitions)

abbrev with_factors : String → TopicConfig → List ℕ → Reply (List ℕ) → Reply TopicMetadata
with_factors name config ids (error e) = error e
with_factors name config ids (value replication_factors) = value (record {
  name = name;
  partition_ids = ids;
  replication_factors = replication_factors;
  requested_config = config;
})

-- The part of `describe_topic` after the cluster has answered.
abbrev pub describe : String → TopicConfig → Option ClusterTopic → Reply TopicMetadata
describe name config none = error kafka_admin_error
describe name config (some topic) = elim topic.fault [
  | some e ↦ error kafka_admin_error
  | none ↦
      with_factors name config (sorted_ids topic.partitions)
        (factors topic.partitions (sorted_ids topic.partitions))
]

module _ {W : Type 0} (run : Runtime W) (self : KafkaTopicAdmin W) where
  unfoldable pub describe_topic : String → TopicConfig → Eff W TopicMetadata
  unfolding factors sort_by
  describe_topic name requested_config = do
    topics ← self.client.list_topics self.timeout_seconds
    lift (describe name requested_config (value_of (find (is_named name) topics)))

  -- The names as the keys of the answer, in its order; the program asks only what is among them.
  abbrev pub names_of : List (String × ClusterTopic) → List String
  names_of topics = map (λ (t : String × ClusterTopic). t.0) topics

  unfoldable pub list_topic_names : Eff W (List String)
  list_topic_names = do
    topics ← self.client.list_topics self.timeout_seconds
    pure (names_of topics)

  -- time.sleep(0.1)
  abbrev pub pause : Eff W (Unit {0})
  pause w = pure tt (run.wait (pos 100000) w)

  -- The future of a call, with the exceptions of `result` replaced.
  abbrev pub wait_for : (ℕ → Eff W (Unit {0})) → Eff W (Unit {0})
  wait_for result =
      try_except (result self.timeout_seconds) (λ e. throw kafka_admin_error) (λ _. pure tt)

  abbrev pub metadata_or_again : ℕ → TopicMetadata → Eff W TopicMetadata → Eff W TopicMetadata
  metadata_or_again count metadata again =
      if partition_count metadata == count then pure metadata else again

  -- while monotonic() < deadline, in create_topic
  unfoldable pub await_topic : TopicSpec → ℕ → ℕ → Eff W TopicMetadata
  unfolding describe_topic
  await_topic spec zero deadline = λ w. out_of_fuel
  await_topic spec (suc fuel) deadline = do
    now ← reads run.monotonic
    if leb deadline now
        then throw kafka_admin_error
        else let again = pause >> await_topic spec fuel deadline in
          try_except (describe_topic spec.name spec.config)
            (λ e. if is_admin_error e then again else throw e)
            (λ metadata. metadata_or_again spec.partition_count metadata again)

  unfoldable pub create_topic : TopicSpec → Eff W TopicMetadata
  unfolding await_topic
  create_topic spec = do
    result ← self.client.create_topics spec self.timeout_seconds
    wait_for result
    start ← reads run.monotonic
    await_topic spec (suc self.timeout_seconds) (start + self.timeout_seconds)

  abbrev pub gone_or_again : String → List String → Eff W (Unit {0}) → Eff W (Unit {0})
  gone_or_again name names again = if any (λ other. str_eq other name) names then again else pure tt

  -- while monotonic() < deadline, in delete_topic
  unfoldable pub await_absence : String → ℕ → ℕ → Eff W (Unit {0})
  unfolding list_topic_names
  await_absence name zero deadline = λ w. out_of_fuel
  await_absence name (suc fuel) deadline = do
    now ← reads run.monotonic
    if leb deadline now then throw kafka_admin_error else do
      names ← list_topic_names
      gone_or_again name names (pause >> await_absence name fuel deadline)

  unfoldable pub delete_topic : String → Eff W (Unit {0})
  unfolding await_absence
  delete_topic name = do
    result ← self.client.delete_topics name self.timeout_seconds
    wait_for result
    start ← reads run.monotonic
    await_absence name (suc self.timeout_seconds) (start + self.timeout_seconds)
