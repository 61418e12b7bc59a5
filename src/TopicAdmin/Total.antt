-- ===== src/TopicAdmin/Total.antt =====
-- The waits of create_topic and delete_topic end: the fuel that the model gives them is enough.
use kafka_sqs.Base.{ℕ, zero, suc, ◌+◌, ◌≤◌, ◌<◌, String, ◌≡◌, refl, List, arith, ◌==◌, str_eq, leb}
use kafka_sqs.Base.Int.{pos}
use kafka_sqs.Base.Lists.{any}
use kafka_sqs.Base.Finishes.{Finishes, attempt_Finishes, continue_Finishes, if_Finishes}
use kafka_sqs.Base.Effect.{
  Exc, Reply, value, error, Outcome, ok, raise, out_of_fuel, Eff, pure, attempt, continue, lift,
}
use kafka_sqs.Clients.{Runtime}
use kafka_sqs.TopicAdmin.{
  KafkaTopicAdmin, TopicSpec, ClusterTopic, is_admin_error, describe_topic, names_of,
  list_topic_names, wait_for, await_topic, create_topic, await_absence, delete_topic,
  partition_count,
}

-- The clock of the world that an outcome leaves has not gone back behind `t`.
abbrev pub NotBefore : {W A : Type 0} → (W → ℕ) → ℕ → Outcome W A → Type 0
NotBefore time t (ok a w) = t ≤ time w
NotBefore time t (raise e w) = t ≤ time w
NotBefore time t out_of_fuel = Unit

-- Every call of the client returns or raises; `monotonic()` and the client do not put the clock back,
-- and a sleep advances it.
pub record Waits {W : Type 0} (run : Runtime W) (self : KafkaTopicAdmin W) : Type 0 where
  pub creates : (spec : TopicSpec) (n : ℕ) (w : W) → Finishes (self.client.create_topics spec n w)
  pub deletes : (name : String) (n : ℕ) (w : W) → Finishes (self.client.delete_topics name n w)
  pub created :
      (spec : TopicSpec) (n k : ℕ) (w w' v : W) (result : ℕ → Eff W (Unit {0}))
      → self.client.create_topics spec n w ≡ ok result w'
      → Finishes (result k v)
  pub deleted :
      (name : String) (n k : ℕ) (w w' v : W) (result : ℕ → Eff W (Unit {0}))
      → self.client.delete_topics name n w ≡ ok result w'
      → Finishes (result k v)
  pub lists : (n : ℕ) (w : W) → Finishes (self.client.list_topics n w)
  pub time : W → ℕ
  pub reads : (w : W) → (run.monotonic w).0 ≡ time w
  pub keeps : (w : W) → time w ≤ time (run.monotonic w).1
  pub list_keeps : (n : ℕ) (w : W) → NotBefore time (time w) (self.client.list_topics n w)
  pub sleeps : (w : W) → time w < time (run.wait (pos 100000) w)

module _ {W : Type 0} (run : Runtime W) (self : KafkaTopicAdmin W) (waits : Waits run self) where
  wait_for_Finishes :
      (result : ℕ → Eff W (Unit {0})) (w : W)
      → ((k : ℕ) (v : W) → Finishes (result k v))
      → Finishes (wait_for run self result w)
  wait_for_Finishes result w h =
      attempt_Finishes _ _ _ (h self.timeout_seconds w) (λ e v. record { finishes = refl })
        λ _ v. record { finishes = refl }

  -- A call that asks the cluster once, and then at most raises.
  asked_Finishes :
      {A B : Type 0} (f : List (String × ClusterTopic) → Reply A) (handler : Exc → Eff W B)
      (g : A → Eff W B) (w : W)
      → ((e : Exc) (v : W) → waits.time w ≤ waits.time v → Finishes (handler e v))
      → ((a : A) (v : W) → waits.time w ≤ waits.time v → Finishes (g a v))
      → Finishes (
          attempt
            (continue (self.client.list_topics self.timeout_seconds w) (λ topics. lift (f topics)))
            handler
            g)
  asked_Finishes f handler g w hh hg =
      split (self.client.list_topics self.timeout_seconds w) (waits.lists _ w)
        (waits.list_keeps _ w)
    where
      checked :
          (r : Reply _) (v : W)
          → waits.time w ≤ waits.time v
          → Finishes (attempt (lift r v) handler g)
      checked (value a) v h = hg a v h
      checked (error e) v h = hh e v h

      split :
          (o : Outcome W (List (String × ClusterTopic)))
          → Finishes o
          → NotBefore waits.time (waits.time w) o
          → Finishes (attempt (continue o (λ topics. lift (f topics))) handler g)
      split (ok topics v) fin h = checked (f topics) v h
      split (raise e v) fin h = hh e v h
      split out_of_fuel fin h = absurd (cc (fin.finishes))

  await_topic_Finishes :
      (spec : TopicSpec) (fuel deadline : ℕ) (w : W)
      → deadline < waits.time w + fuel
      → 0 < fuel
      → Finishes (await_topic run self spec fuel deadline w)
  unfolding await_topic describe_topic
  await_topic_Finishes spec zero deadline w enough some_fuel = absurd (omega arith)
  await_topic_Finishes spec (suc fuel) deadline w enough some_fuel =
      let (now, w1) = run.monotonic w in
      if_Finishes (leb deadline now) _ _ w1 (λ _. record { finishes = refl })
        λ early.
          let before : waits.time w < deadline = ground (arith, waits.reads w) in
          let again = λ (v : W) (later : waits.time w1 ≤ waits.time v).
            await_topic_Finishes spec fuel deadline (run.wait (pos 100000) v)
              (omega (arith, waits.keeps w, waits.sleeps v)) (omega arith) in
          asked_Finishes _ _ _ w1
            (λ e v later.
              if_Finishes (is_admin_error e) _ _ v (λ _. again v later)
                (λ _. record { finishes = refl }))
            (λ m v later.
              if_Finishes (partition_count m == spec.partition_count) _ _ v
                (λ _. record { finishes = refl }) (λ _. again v later))

  -- create_topic ends if every call of the client does, the clock does not go back and a sleep
  -- advances it.
  create_topic_Finishes : (spec : TopicSpec) (w : W) → Finishes (create_topic run self spec w)
  unfolding create_topic
  create_topic_Finishes spec w =
      continue_Finishes _ _ (waits.creates spec self.timeout_seconds w) λ result w1 h.
        continue_Finishes _ _
          (wait_for_Finishes result w1 (λ k v. waits.created spec _ k w w1 v result h))
          λ _ w2 _.
            await_topic_Finishes spec (suc self.timeout_seconds)
              ((run.monotonic w2).0 + self.timeout_seconds) (run.monotonic w2).1
              (omega (arith, waits.reads w2, waits.keeps w2)) (omega arith)

  await_absence_Finishes :
      (name : String) (fuel deadline : ℕ) (w : W)
      → deadline < waits.time w + fuel
      → 0 < fuel
      → Finishes (await_absence run self name fuel deadline w)
  unfolding await_absence list_topic_names
  await_absence_Finishes name zero deadline w enough some_fuel = absurd (omega arith)
  await_absence_Finishes name (suc fuel) deadline w enough some_fuel =
      let (now, w1) = run.monotonic w in
      if_Finishes (leb deadline now) _ _ w1 (λ _. record { finishes = refl })
        λ early.
          let before : waits.time w < deadline = ground (arith, waits.reads w) in
          named w1 λ names w2 later.
            if_Finishes (any (λ other. str_eq other name) names) _ _ w2
              (λ _.
                await_absence_Finishes name fuel deadline (run.wait (pos 100000) w2)
                  (omega (arith, waits.keeps w, waits.sleeps w2)) (omega arith))
              (λ _. record { finishes = refl })
    where
      split :
          (v : W) (o : Outcome W (List (String × ClusterTopic)))
          (f : List String → Eff W (Unit {0}))
          → Finishes o
          → NotBefore waits.time (waits.time v) o
          → ((names : List String) (v' : W) → waits.time v ≤ waits.time v' → Finishes (f names v'))
          → Finishes (continue (continue o (λ topics. pure (names_of run self topics))) f)
      split v (ok topics v') f fin h k = k _ v' h
      split v (raise e v') f fin h k = record { finishes = refl }
      split v out_of_fuel f fin h k = absurd (cc (fin.finishes))

      named :
          (v : W) {f : List String → Eff W (Unit {0})}
          → ((names : List String) (v' : W) → waits.time v ≤ waits.time v' → Finishes (f names v'))
          → Finishes (continue (list_topic_names run self v) f)
      named v {f} k =
          split v (self.client.list_topics self.timeout_seconds v) f (waits.lists _ v)
            (waits.list_keeps _ v) k

  -- delete_topic ends if every call of the client does, the clock does not go back and a sleep
  -- advances it.
  delete_topic_Finishes : (name : String) (w : W) → Finishes (delete_topic run self name w)
  unfolding delete_topic
  delete_topic_Finishes name w =
      continue_Finishes _ _ (waits.deletes name self.timeout_seconds w) λ result w1 h.
        continue_Finishes _ _
          (wait_for_Finishes result w1 (λ k v. waits.deleted name _ k w w1 v result h))
          λ _ w2 _.
            await_absence_Finishes name (suc self.timeout_seconds)
              ((run.monotonic w2).0 + self.timeout_seconds) (run.monotonic w2).1
              (omega (arith, waits.reads w2, waits.keeps w2)) (omega arith)

  -- create_topic and delete_topic end if every call of the client does, the clock does not go back
  -- and a sleep advances it.
  pub topics_Finishes :
      (spec : TopicSpec) (name : String) (w : W)
      → Finishes (create_topic run self spec w) × Finishes (delete_topic run self name w)
  topics_Finishes spec name w = (create_topic_Finishes spec w, delete_topic_Finishes name w)
