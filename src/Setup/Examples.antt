-- ===== src/Setup/Examples.antt =====
-- A cluster that lists what was created.
use kafka_sqs.Base.{String, ◌≡◌, refl, none, List, [], ◌∷◌, ◌<>◌}
use kafka_sqs.Base.Sort.{sort_by}
use kafka_sqs.Base.Effect.{ok, is_instance}
use kafka_sqs.Clients.{Runtime}
use kafka_sqs.Samples.{order}
use kafka_sqs.LabConfig.{defaults}
use kafka_sqs.TopicAdmin.{
  KafkaTopicAdmin, ClusterTopic, factors, describe_topic, await_topic, create_topic,
  list_topic_names,
}
use kafka_sqs.Setup.{QueueAdmin, ensure_topic, ensure_sqs_queues, get_queue_url}
use kafka_sqs.Setup.Repeats.{Named, ensure_topic_ok, ensure_topic-ensure_topic}

abbrev Topics : Type 0
Topics = List (String × ClusterTopic)

abbrev three : ClusterTopic
three = record { fault = none; partitions = (0, 1 ∷ []) ∷ (1, 1 ∷ []) ∷ (2, 1 ∷ []) ∷ [] }

abbrev runtime : Runtime Topics
runtime = record {
  monotonic = λ w. (0, w);
  uuid4 = λ w. (1, w);
  utc_now = λ w. (order.occurred_at, w);
  wait = λ d w. w;
}

abbrev admin : KafkaTopicAdmin Topics
admin = record {
  timeout_seconds = 20000000;
  client = record {
    create_topics = λ spec n w. ok (λ k v. ok tt ((spec.name, three) ∷ v)) w;
    delete_topics = λ name n w. ok (λ k v. ok tt []) w;
    list_topics = λ n w. ok w w;
  };
}

abbrev with_orders : Topics
with_orders = ("orders", three) ∷ []

creates_once : ensure_topic runtime admin "orders" [] ≡ ok tt with_orders
unfolding ensure_topic create_topic await_topic describe_topic list_topic_names factors sort_by
    is_instance
creates_once = refl

ensure_topic_ok_example : Named runtime admin "orders" with_orders
ensure_topic_ok_example = ensure_topic_ok runtime admin "orders" [] with_orders creates_once

-- A cluster whose answers do not change.
abbrev settled : KafkaTopicAdmin Topics
settled = record admin {
  client = record {
    create_topics = λ spec n w. ok (λ k v. ok tt v) w;
    delete_topics = λ name n w. ok (λ k v. ok tt v) w;
    list_topics = λ n w. ok with_orders w;
  };
}

finds_orders : ensure_topic runtime settled "orders" [] ≡ ok tt []
unfolding ensure_topic list_topic_names
finds_orders = refl

settled_answers :
    (topics : Topics) (v v' : Topics)
    → settled.client.list_topics settled.timeout_seconds v ≡ ok topics v'
    → (v'' : Topics) × (settled.client.list_topics settled.timeout_seconds v' ≡ ok topics v'')
settled_answers topics v v' h =
    let same : with_orders ≡ topics = cc (h) in (v', λ i. ok (same i) v')

ensure_topic-ensure_topic_example :
    (topics : Topics) × (w : Topics) × (settled.client.list_topics settled.timeout_seconds []
      ≡ ok topics w)
    × (ensure_topic runtime settled "orders" [] ≡ ok tt w)
ensure_topic-ensure_topic_example =
    ensure_topic-ensure_topic runtime settled "orders" [] [] settled_answers finds_orders

-- SQS gives one URL and one ARN for a name.
abbrev queues : QueueAdmin (List String)
queues = record {
  create_queue = λ name attributes w. ok ("http://sqs/" <> name) (name ∷ w);
  get_queue_arn = λ url w. ok ("arn:" <> url) w;
  get_queue_url = λ name w. ok ("http://sqs/" <> name) w;
}

creates_both_queues :
    ensure_sqs_queues (λ j. "{}") queues defaults []
    ≡ ok
        ("http://sqs/orders-created-local", "http://sqs/orders-created-local-dlq")
        ("orders-created-local" ∷ "orders-created-local-dlq" ∷ [])
unfolding ensure_sqs_queues
creates_both_queues = refl

finds_queue : get_queue_url queues "orders" [] ≡ ok "http://sqs/orders" []
unfolding get_queue_url
finds_queue = refl
