-- ===== src/Setup/Repeats.antt =====
-- Provisioning of a topic, once and again.
use kafka_sqs.Base.{
  String, ◌≡◌, refl, inl, inr, Bool, true, false, none, List, [], ◌∷◌, str_eq, arith, Option-cases,
  if◌then◌else◌,
}
use mathlib.Core.Path.{ap, ◌∙◌, sym}
use kafka_sqs.Base.Lists.{any, find}
use kafka_sqs.Base.Select.{any_of_find}
use kafka_sqs.Base.Effect.{value, ok, pure, continue-eq-ok, ◌>>=◌}
use kafka_sqs.Clients.{Runtime}
use kafka_sqs.TopicAdmin.{
  KafkaTopicAdmin, TopicMetadata, TopicConfig, ClusterTopic, is_named, value_of, describe, names_of,
  list_topic_names, create_topic,
}
use kafka_sqs.TopicAdmin.Visible.{Seen, create_topic_ok, list_topic_names_ok}
use kafka_sqs.Setup.{local_spec, create_unless, forget, ensure_topic}

any-names_of :
    {W : Type 0} (run : Runtime W) (self : KafkaTopicAdmin W) (name : String)
    (topics : List (String × ClusterTopic))
    → any (is_named name) topics ≡ true
    → any (λ other. str_eq other name) (names_of run self topics) ≡ true
any-names_of run self name [] h = absurd (cc)
any-names_of run self name ((key, topic) ∷ topics) h =
    ground (arith, any-names_of run self name topics)

-- A described topic is among the topics.
describe_named :
    (name : String) (config : TopicConfig) (topics : List (String × ClusterTopic))
    (m : TopicMetadata)
    → describe name config (value_of (find (is_named name) topics)) ≡ value m
    → any (is_named name) topics ≡ true
describe_named name config topics m h = elim (Option-cases (find (is_named name) topics)) [
  | inl missing ↦
      let no_value : describe name config none ≡ value m =
        ap (λ o. describe name config (value_of o)) (sym missing) ∙ h in
      absurd (cc)
  | inr (t, found) ↦ any_of_find (is_named name) topics {x = t} found
]

module _ {W : Type 0} (run : Runtime W) (admin : KafkaTopicAdmin W) where
  -- The cluster was asked, as the last call, and its answer names the topic.
  pub record Named (name : String) (w' : W) : Type 0 where
    pub topics : List (String × ClusterTopic)
    pub before : W
    pub answers : admin.client.list_topics admin.timeout_seconds before ≡ ok topics w'
    pub there : any (λ other. str_eq other name) (names_of run admin topics) ≡ true

  Seen-Named :
      (name : String) (config : TopicConfig) (m : TopicMetadata) (w' : W)
      → Seen run admin name config m w'
      → Named name w'
  Seen-Named name config m w' seen = record {
    topics = seen.topics;
    before = seen.before;
    answers = seen.answers;
    there =
        any-names_of run admin name seen.topics
          (describe_named name config seen.topics m seen.described);
  }

  create_unless_ok :
      (name : String) (names : List String) (w w1 w' : W)
      → list_topic_names run admin w ≡ ok names w1
      → create_unless run admin name names w1 ≡ ok tt w'
      → Named name w'
  create_unless_ok name names w w1 w' listed h =
      split (any (λ other. str_eq other name) names) refl h
    where
      split :
          (b : Bool)
          → any (λ other. str_eq other name) names ≡ b
          → (if b then pure tt else (create_topic run admin (local_spec name) >>= forget run)) w1
            ≡ ok tt w'
          → Named name w'
      split true e g =
          let (topics, answers, same) = list_topic_names_ok run admin names w w1 listed in
          let last : w1 ≡ w' = cc (g) in
          record {
            topics = topics;
            before = w;
            answers = answers ∙ ap (ok topics) last;
            there = rw same at e;
          }
      split false e g =
          let (m, w2, created, g1) =
            continue-eq-ok (create_topic run admin (local_spec name) w1) _ g in
          let last : w2 ≡ w' = cc (g1) in
          let (seen, count) =
            create_topic_ok run admin (local_spec name) m w1 w' (created ∙ ap (ok m) last) in
          Seen-Named name _ m w' seen

  -- An ensure_topic that returns has seen the topic in the answer of its last call.
  pub ensure_topic_ok :
      (name : String) (w w' : W) → ensure_topic run admin name w ≡ ok tt w' → Named name w'
  unfolding ensure_topic
  ensure_topic_ok name w w' h =
      let (names, w1, listed, h1) = continue-eq-ok (list_topic_names run admin w) _ h in
      create_unless_ok name names w w1 w' listed h1

  -- If a cluster that has answered gives the same answer when it is asked again, then an ensure_topic
  -- after one that returned asks for the topics once, creates nothing and returns.
  pub ensure_topic-ensure_topic :
      (name : String) (w w' : W)
      → ((topics : List (String × ClusterTopic)) (v v' : W)
          → admin.client.list_topics admin.timeout_seconds v ≡ ok topics v'
          → (v'' : W) × (admin.client.list_topics admin.timeout_seconds v' ≡ ok topics v''))
      → ensure_topic run admin name w ≡ ok tt w'
      → (topics : List (String × ClusterTopic)) × (w'' : W) × (admin.client.list_topics
            admin.timeout_seconds w'
          ≡ ok topics w'')
        × (ensure_topic run admin name w' ≡ ok tt w'')
  unfolding ensure_topic list_topic_names
  ensure_topic-ensure_topic name w w' stable h =
      let seen = ensure_topic_ok name w w' h in
      let (w'', again) = stable seen.topics seen.before w' seen.answers in
      (seen.topics, w'', again, rw (again, seen.there) refl)
