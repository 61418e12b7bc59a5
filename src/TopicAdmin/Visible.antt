-- ===== src/TopicAdmin/Visible.antt =====
-- What a creation or a deletion that returns has seen.
use kafka_sqs.Base.{
  ℕ, zero, suc, String, ◌≡◌, refl, ◌∙◌, ap, sym, Bool, true, false, List, ◌==◌, ==_iff, str_eq, leb,
  if◌then◌else◌,
}
use kafka_sqs.Base.Int.{pos}
use kafka_sqs.Base.Lists.{any, find}
use kafka_sqs.Base.Effect.{
  value, Outcome, ok, raise, out_of_fuel, Eff, pure, throw, attempt, continue-eq-ok, lift-eq-ok,
  guarded_ok,
}
use kafka_sqs.Clients.{Runtime}
use kafka_sqs.TopicAdmin.{
  KafkaTopicAdmin, TopicSpec, TopicMetadata, ClusterTopic, TopicConfig, is_named, is_admin_error,
  value_of, describe, describe_topic, names_of, list_topic_names, wait_for, metadata_or_again,
  await_topic, create_topic, gone_or_again, await_absence, delete_topic, partition_count,
}

module _ {W : Type 0} (run : Runtime W) (self : KafkaTopicAdmin W) where
  -- The cluster was asked, as the last call, and described the topic so.
  pub record Seen (name : String) (config : TopicConfig) (m : TopicMetadata) (w' : W) : Type 0 where
    pub topics : List (String × ClusterTopic)
    pub before : W
    pub answers : self.client.list_topics self.timeout_seconds before ≡ ok topics w'
    pub described : describe name config (value_of (find (is_named name) topics)) ≡ value m

  describe_topic_ok :
      (name : String) (config : TopicConfig) (m : TopicMetadata) (w w' : W)
      → describe_topic run self name config w ≡ ok m w'
      → Seen name config m w'
  unfolding describe_topic
  describe_topic_ok name config m w w' h =
      let (topics, v, answers, h1) =
        continue-eq-ok (self.client.list_topics self.timeout_seconds w) _ h in
      let (described, same) =
        lift-eq-ok (describe name config (value_of (find (is_named name) topics))) h1 in
      record {
        topics = topics;
        before = w;
        answers = answers ∙ ap (ok topics) same;
        described = described;
      }

  -- The cluster described the topic with as many partitions as were asked for.
  abbrev pub Created : TopicSpec → TopicMetadata → W → Type 0
  Created spec m w' = Seen spec.name spec.config m w' × (partition_count m ≡ spec.partition_count)

  module _ (spec : TopicSpec) (m : TopicMetadata) (w' : W) (again : Eff W TopicMetadata)
      (later : (v : W) → again v ≡ ok m w' → Created spec m w') where
    counted_ok :
        (n : TopicMetadata) (v v' : W)
        → describe_topic run self spec.name spec.config v ≡ ok n v'
        → metadata_or_again run self spec.partition_count n again v' ≡ ok m w'
        → Created spec m w'
    counted_ok n v v' d h = split (partition_count n == spec.partition_count) refl h
      where
        split :
            (b : Bool)
            → (partition_count n == spec.partition_count) ≡ b
            → (if b then pure n else again) v' ≡ ok m w'
            → Created spec m w'
        split true e g =
            let same : ok n v' ≡ ok m w' = g in
            let shown : n ≡ m = cc in
            (
              describe_topic_ok spec.name spec.config m v w' (d ∙ same),
              sym (ap partition_count shown)
                  ∙ (==_iff (partition_count n) spec.partition_count).0 e,
            )
        split false e g = later v' g

    round_ok :
        (v : W) (o : Outcome W TopicMetadata)
        → describe_topic run self spec.name spec.config v ≡ o
        → attempt o
            (λ e. if is_admin_error e then again else throw e)
            (λ metadata. metadata_or_again run self spec.partition_count metadata again)
          ≡ ok m w'
        → Created spec m w'
    round_ok v (ok n v') d h = counted_ok n v v' d h
    round_ok v (raise e v') d h = split (is_admin_error e) h
      where
        split : (b : Bool) → (if b then again else throw e) v' ≡ ok m w' → Created spec m w'
        split true g = later v' g
        split false g = absurd (cc)
    round_ok v out_of_fuel d h = absurd (cc)

  await_topic_ok :
      (spec : TopicSpec) (fuel deadline : ℕ) (m : TopicMetadata) (w w' : W)
      → await_topic run self spec fuel deadline w ≡ ok m w'
      → Created spec m w'
  unfolding await_topic
  await_topic_ok spec zero deadline m w w' h = absurd (cc)
  await_topic_ok spec (suc fuel) deadline m w w' h =
      let (now, w1) = run.monotonic w in
      let (early, h1) = guarded_ok (leb deadline now) _ _ h in
      round_ok spec m w' _
        (λ v g. await_topic_ok spec fuel deadline m (run.wait (pos 100000) v) w' g) w1
        (describe_topic run self spec.name spec.config w1) refl h1

  -- A create_topic that returns has seen, in the answer of its last call, the topic without a fault
  -- and with as many partitions as were asked for, and returns what describe_topic tells of it.
  pub create_topic_ok :
      (spec : TopicSpec) (m : TopicMetadata) (w w' : W)
      → create_topic run self spec w ≡ ok m w'
      → Created spec m w'
  unfolding create_topic
  create_topic_ok spec m w w' h =
      let (result, w1, _, h1) =
        continue-eq-ok (self.client.create_topics spec self.timeout_seconds w) _ h in
      let (u, w2, _, h2) = continue-eq-ok (wait_for run self result w1) _ h1 in
      await_topic_ok spec (suc self.timeout_seconds) _ m _ w' h2

  -- The cluster was asked, as the last call, and did not name the topic.
  pub record Unseen (name : String) (w' : W) : Type 0 where
    pub topics : List (String × ClusterTopic)
    pub before : W
    pub answers : self.client.list_topics self.timeout_seconds before ≡ ok topics w'
    pub absent : any (λ other. str_eq other name) (names_of run self topics) ≡ false

  pub list_topic_names_ok :
      (names : List String) (w w' : W)
      → list_topic_names run self w ≡ ok names w'
      → (topics : List (String × ClusterTopic)) × (self.client.list_topics self.timeout_seconds w
          ≡ ok topics w')
        × (names ≡ names_of run self topics)
  unfolding list_topic_names
  list_topic_names_ok names w w' h =
      let (topics, v, answers, h1) =
        continue-eq-ok (self.client.list_topics self.timeout_seconds w) _ h in
      let last : v ≡ w' = cc (h1) in (topics, answers ∙ ap (ok topics) last, cc (h1))

  gone_ok :
      (name : String) (w' : W) (again : Eff W (Unit {0}))
      → ((v : W) → again v ≡ ok tt w' → Unseen name w')
      → (names : List String) (v v' : W) → list_topic_names run self v ≡ ok names v'
      → gone_or_again run self name names again v' ≡ ok tt w'
      → Unseen name w'
  gone_ok name w' again later names v v' listed h =
      split (any (λ other. str_eq other name) names) refl h
    where
      split :
          (b : Bool)
          → any (λ other. str_eq other name) names ≡ b
          → (if b then again else pure tt) v' ≡ ok tt w'
          → Unseen name w'
      split true e g = later v' g
      split false e g =
          let (topics, answers, same) = list_topic_names_ok names v v' listed in
          let last : v' ≡ w' = cc (g) in
          record {
            topics = topics;
            before = v;
            answers = answers ∙ ap (ok topics) last;
            absent = rw same at e;
          }

  await_absence_ok :
      (name : String) (fuel deadline : ℕ) (w w' : W)
      → await_absence run self name fuel deadline w ≡ ok tt w'
      → Unseen name w'
  unfolding await_absence
  await_absence_ok name zero deadline w w' h = absurd (cc)
  await_absence_ok name (suc fuel) deadline w w' h =
      let (now, w1) = run.monotonic w in
      let (early, h1) = guarded_ok (leb deadline now) _ _ h in
      let (names, w2, listed, h2) = continue-eq-ok (list_topic_names run self w1) _ h1 in
      gone_ok name w' _ (λ v g. await_absence_ok name fuel deadline (run.wait (pos 100000) v) w' g)
        names w1 w2 listed h2

  -- A delete_topic that returns has seen, in the answer of its last call, that the topic is not there.
  delete_topic_ok :
      (name : String) (w w' : W) → delete_topic run self name w ≡ ok tt w' → Unseen name w'
  unfolding delete_topic
  delete_topic_ok name w w' h =
      let (result, w1, _, h1) =
        continue-eq-ok (self.client.delete_topics name self.timeout_seconds w) _ h in
      let (u, w2, _, h2) = continue-eq-ok (wait_for run self result w1) _ h1 in
      await_absence_ok name (suc self.timeout_seconds) _ _ w' h2
