-- ===== src/TopicAdmin/Describe.antt =====
-- What describe_topic tells of a topic.
use kafka_sqs.Base.{
  ℕ, String, ◌≡◌, refl, ◌⊎◌, inl, inr, true, Option, none, some, List, [], ◌∷◌, map, leb, arith,
}
use mathlib.Core.Path.{ap, ap₂, ◌∙◌}
use mathlib.Core.List.{Perm}
use kafka_sqs.Base.Lists.{All, any, find, length}
use kafka_sqs.Base.Select.{All-mono, find-some_of_any, find_holds}
use kafka_sqs.Base.Sort.{IsSorted, sort_by-perm, sort_by-IsSorted, sort_by-All, leb_by-IsOrder}
use kafka_sqs.Base.Effect.{Reply, value, error, ok, lift}
use kafka_sqs.Clients.{Runtime}
use kafka_sqs.TopicAdmin.{
  KafkaTopicAdmin, TopicConfig, TopicMetadata, ClusterTopic, kafka_admin_error, is_named,
  has_number, value_of, factor_of, factors, then_cons, id_of, sorted_ids, describe, describe_topic,
}

-- The numbers of replicas, partition by partition.
abbrev pub Factors : List (ℕ × List ℕ) → List ℕ → List ℕ → Type 0
Factors partitions [] [] = Unit
Factors partitions (id ∷ ids) (n ∷ ns) =
    ((replicas : List ℕ) × (find (has_number id) partitions ≡ some (id, replicas))
      × (n ≡ length replicas))
    × Factors partitions ids ns
Factors partitions _ _ = ⊥

factors_lem :
    (partitions : List (ℕ × List ℕ)) (ids : List ℕ)
    → All (λ id. any (has_number id) partitions ≡ true) ids
    → (ns : List ℕ) × (factors partitions ids ≡ value ns) × Factors partitions ids ns
unfolding factors
factors_lem partitions [] h = ([], refl, tt)
factors_lem partitions (id ∷ ids) h =
    let ((key, replicas), f) = find-some_of_any (has_number id) partitions h.0 in
    let (ns, e, fs) = factors_lem partitions ids h.1 in
    let own : key ≡ id =
      ground (arith, find_holds (has_number id) partitions {x = (key, replicas)} f) in
    (
      length replicas ∷ ns,
      ap₂ (λ o r. then_cons (factor_of o) r) f e,
      ((replicas, f ∙ ap (λ k. some (k, replicas)) own, refl), fs),
    )

-- Every key is found.
keys_found :
    (partitions : List (ℕ × List ℕ))
    → All (λ id. any (has_number id) partitions ≡ true) (map id_of partitions)
keys_found [] = tt
keys_found ((id, replicas) ∷ partitions) =
    (ground arith, All-mono (map id_of partitions) (λ key h. ground arith) (keys_found partitions))

-- A topic that is missing or faulty is unavailable; of any other one, the partitions are told in
-- ascending order, each with its number of replicas.
abbrev pub Describes : String → TopicConfig → Option ClusterTopic → Reply TopicMetadata → Type 0
Describes name config none r = r ≡ error kafka_admin_error
Describes name config (some topic) r =
    ((e : String) × (topic.fault ≡ some e) × (r ≡ error kafka_admin_error))
    ⊎ ((topic.fault ≡ none)
        × ((m : TopicMetadata) × (r ≡ value m)
            × (m.name ≡ name)
            × (m.requested_config ≡ config)
            × IsSorted leb m.partition_ids
            × Perm m.partition_ids (map id_of topic.partitions)
            × Factors topic.partitions m.partition_ids m.replication_factors))

describe-Describes :
    (name : String) (config : TopicConfig) (topic : Option ClusterTopic)
    → Describes name config topic (describe name config topic)
describe-Describes name config none = refl
describe-Describes name config (some topic) = by_fault topic.fault refl
  where
    by_fault :
        (fault : Option String)
        → topic.fault ≡ fault
        → Describes name config (some topic) (describe name config (some topic))
    by_fault (some e) h = inl (e, h, ground arith)
    by_fault none h =
        let ids = sorted_ids topic.partitions in
        let found = sort_by-All _ leb (map id_of topic.partitions) (keys_found topic.partitions) in
        let (ns, e, fs) = factors_lem topic.partitions ids found in
        inr (
          h,
          (
            record {
              name = name;
              partition_ids = ids;
              replication_factors = ns;
              requested_config = config;
            },
            ground arith,
            refl,
            refl,
            sort_by-IsSorted leb (leb_by-IsOrder (λ n. n)) _,
            sort_by-perm leb _,
            fs,
          ),
        )

module _ {W : Type 0} (run : Runtime W) (self : KafkaTopicAdmin W) where
  -- When the cluster answers, describe_topic raises KafkaAdminError for a topic that is missing or
  -- faulty; for any other one it returns the name, the configuration asked for, the partition ids of
  -- the topic in ascending order, and for each its number of replicas.
  pub describe_topic-Describes :
      (name : String) (config : TopicConfig) (topics : List (String × ClusterTopic)) (w w' : W)
      → self.client.list_topics self.timeout_seconds w ≡ ok topics w'
      → (r : Reply TopicMetadata) × (describe_topic run self name config w ≡ lift r w')
        × Describes name config (value_of (find (is_named name) topics)) r
  unfolding describe_topic
  describe_topic-Describes name config topics w w' h =
      let topic = value_of (find (is_named name) topics) in
      (describe name config topic, rw h refl, describe-Describes name config topic)
