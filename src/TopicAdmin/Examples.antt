-- ===== src/TopicAdmin/Examples.antt =====
-- A cluster that shows a new topic at its second answer, and drops a deleted one at once.
use kafka_sqs.Base.{
  ℕ, suc, ◌+◌, String, ◌≡◌, refl, none, some, List, [], ◌∷◌, ◌==◌, if◌then◌else◌, arith,
}
use mathlib.Core.Path.{subst, ap}
use native.Mathlib.Nat.{le_refl}
use kafka_sqs.Base.Sort.{sort_by}
use kafka_sqs.Base.Effect.{Reply, Outcome, ok, Eff, pure, lift, is_instance}
use kafka_sqs.Base.Finishes.{Finishes}
use kafka_sqs.Clients.{Runtime}
use kafka_sqs.Samples.{order}
use kafka_sqs.TopicAdmin.{
  KafkaTopicAdmin, TopicMetadata, ClusterTopic, default_spec, factors, describe_topic, await_topic,
  create_topic, list_topic_names, delete_topic,
}
use kafka_sqs.TopicAdmin.Describe.{Describes, describe_topic-Describes}
use kafka_sqs.TopicAdmin.Visible.{Created, create_topic_ok}
use kafka_sqs.TopicAdmin.Total.{Waits, topics_Finishes}

record Cluster : Type 0 where
  now : ℕ
  asked : ℕ
  topics : List (String × ClusterTopic)

abbrev new_topic : String → String × ClusterTopic
new_topic name =
    (name, record { fault = none; partitions = (2, 1 ∷ []) ∷ (0, 1 ∷ []) ∷ (1, 1 ∷ []) ∷ [] })

abbrev runtime : Runtime Cluster
runtime = record {
  monotonic = λ w. (w.now, w);
  uuid4 = λ w. (1, w);
  utc_now = λ w. (order.occurred_at, w);
  wait = λ d w. record w { now = w.now + 100000 };
}

abbrev admin : KafkaTopicAdmin Cluster
admin = record {
  timeout_seconds = 1000000;
  client = record {
    create_topics =
        λ spec n w. ok (λ k v. ok tt (record v { topics = new_topic spec.name ∷ v.topics })) w;
    delete_topics = λ name n w. ok (λ k v. ok tt (record v { topics = [] })) w;
    list_topics =
        λ n w. ok (if w.asked == 0 then [] else w.topics) (record w { asked = suc w.asked });
  };
}

abbrev start : Cluster
start = record { now = 5; asked = 0; topics = [] }

abbrev orders_metadata : TopicMetadata
orders_metadata = record {
  name = "orders";
  partition_ids = 0 ∷ 1 ∷ 2 ∷ [];
  replication_factors = 1 ∷ 1 ∷ 1 ∷ [];
  requested_config = (default_spec "orders").config;
}

abbrev created : Cluster
created = record { now = 100005; asked = 2; topics = new_topic "orders" ∷ [] }

creates_orders :
    create_topic runtime admin (default_spec "orders") start ≡ ok orders_metadata created
unfolding create_topic await_topic describe_topic factors sort_by is_instance
creates_orders = refl

create_topic_ok_example : Created runtime admin (default_spec "orders") orders_metadata created
create_topic_ok_example =
    create_topic_ok runtime admin (default_spec "orders") orders_metadata start created
      creates_orders

abbrev deleted : Cluster
deleted = record { now = 100005; asked = 3; topics = [] }

deletes_orders : delete_topic runtime admin "orders" created ≡ ok tt deleted
unfolding delete_topic list_topic_names
deletes_orders = refl

describe_topic-Describes_example :
    (r : Reply TopicMetadata) × (describe_topic runtime admin "orders" [] created
      ≡ lift r (record created { asked = 3 }))
    × Describes "orders" [] (some (new_topic "orders").1) r
describe_topic-Describes_example =
    describe_topic-Describes runtime admin "orders" [] (new_topic "orders" ∷ []) created
      (record created { asked = 3 }) refl

abbrev result_of : Outcome Cluster (ℕ → Eff Cluster (Unit {0})) → ℕ → Eff Cluster (Unit {0})
result_of (ok result w) = result
result_of other = λ k. pure tt

cluster_Waits : Waits runtime admin
cluster_Waits = record {
  creates = λ spec n w. record { finishes = refl };
  deletes = λ name n w. record { finishes = refl };
  created = λ spec n k w w' v result h.
      subst Finishes (ap (λ o. result_of o k v) h) (record { finishes = refl });
  deleted = λ name n k w w' v result h.
      subst Finishes (ap (λ o. result_of o k v) h) (record { finishes = refl });
  lists = λ n w. record { finishes = refl };
  time = λ w. w.now;
  reads = λ w. refl;
  keeps = λ w. le_refl w.now;
  list_keeps = λ n w. le_refl w.now;
  sleeps = λ w. omega arith;
}

topics_Finishes_example :
    Finishes (create_topic runtime admin (default_spec "orders") start)
    × Finishes (delete_topic runtime admin "orders" start)
topics_Finishes_example =
    topics_Finishes runtime admin cluster_Waits (default_spec "orders") "orders" start
