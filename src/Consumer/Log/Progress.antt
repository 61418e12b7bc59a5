-- ===== src/Consumer/Log/Progress.antt =====
-- The offsets alone, whatever is settled.
use kafka_sqs.Base.{ℕ, ◌≤◌, ◌<◌, ◌≡◌, inl, inr, Option, none, some, arith}
use kafka_sqs.Base.Int.{ℤ}
use kafka_sqs.Base.Effect.{Exc, ok, raise}
use kafka_sqs.Contracts.Libraries.{Libraries}
use kafka_sqs.Clients.{Runtime, Message}
use kafka_sqs.Consumer.{ProcessedKafkaRecord, KafkaOrderConsumer}
use kafka_sqs.Consumer.Process.{process_one}
use kafka_sqs.Consumer.Count.{Leaves-map, Leaves-ok, Leaves-raise}
use kafka_sqs.Consumer.Log.{Partition, Steady, Polled, Committed, Serves, IsSafe}
use kafka_sqs.Consumer.Log.Session.{RaisedFrom, process_one-Moved}

module _ {W : Type 0} (p : Partition W) where
  -- The partition with every record taken as settled.
  abbrev offsets : Partition W
  offsets = record p { Settled = λ i w. Unit; Completed = λ id w. Unit; Apart = λ id i. Unit }

  Steady-offsets : {P Q : ℕ → Type 0} (w w' : W) → Steady p P w w' → Steady offsets Q w w'
  Steady-offsets w w' s = record { at = s.at; group = s.group; keeps = λ i q settled. tt }

  Committed-offsets : (m : Message) (w w' : W) → Committed p m w w' → Committed offsets m w w'
  Committed-offsets m w w' c = record { at = c.at; group = c.group; keeps = λ i settled. tt }

  Polled-offsets :
      (lib : Libraries) (polled : Option Message) (w w' : W)
      → Polled p lib w polled w'
      → Polled offsets lib w polled w'
  Polled-offsets lib none w w' s = Steady-offsets w w' s
  Polled-offsets lib (some m) w w' (inr (faulty, s)) = inr (faulty, Steady-offsets w w' s)
  Polled-offsets lib (some m) w w' (inl (sound, next, own, moved, group, keeps)) = inl (
    sound,
    record { apart = λ _ _ _ i lt. tt; settles = λ _ _ v _ done. tt },
    own,
    moved,
    group,
    λ i settled. tt,
  )

  module _ (lib : Libraries) (run : Runtime W) (self : KafkaOrderConsumer W)
      (serves : Serves p lib run self) where
    Serves-offsets : Serves offsets lib run self
    Serves-offsets = record {
      polls = λ timeout w.
          Leaves-map _ (serves.polls timeout w)
            (λ polled w' got. Polled-offsets lib polled w w' got) (λ w' s. Steady-offsets w w' s);
      commits = λ m w.
          Leaves-map _ (serves.commits m w) (λ _ w' c. (Committed-offsets m w w' c.0, c.1))
            (λ w' c. Committed-offsets m w w' c);
      stores = λ event w.
          Leaves-map _ (serves.stores event w) (λ _ w' s. (Steady-offsets w w' s.0, λ _. tt))
            (λ w' s. Steady-offsets w w' s);
      marks = λ id w.
          Leaves-map _ (serves.marks id w) (λ _ w' s. (Steady-offsets w w' s.0, tt))
            (λ w' s. Steady-offsets w w' s);
      discards = λ id w.
          Leaves-map _ (serves.discards id w) (λ _ w' s. Steady-offsets w w' s)
            (λ w' s. Steady-offsets w w' s);
      sends = λ event w.
          Leaves-map _ (serves.sends event w) (λ _ w' s. Steady-offsets w w' s)
            (λ w' s. Steady-offsets w w' s);
      publishes = λ failure w.
          Leaves-map _ (serves.publishes failure w) (λ _ w' s. (Steady-offsets w w' s.0, tt))
            (λ w' s. Steady-offsets w w' s);
      waits = λ d w. Steady-offsets w _ (serves.waits d w);
      ticks = λ w. Steady-offsets w _ (serves.ticks w);
    }

    all_settled : (w : W) → p.committed w ≤ p.position w → IsSafe offsets w
    all_settled w behind = record { settled = λ i lt. tt; behind = behind }

    RaisedFrom-behind : (n : ℕ) (w : W) → RaisedFrom offsets n w → p.committed w ≤ p.position w
    RaisedFrom-behind n w (inl safe) = safe.behind
    RaisedFrom-behind n w (inr (k, low, o)) = omega (arith, o.at, o.behind)

    -- A call that returns leaves the group beyond the position at which it began.
    pub process_one_advances :
        (timeout : ℤ) (w w' : W) (r : ProcessedKafkaRecord)
        → p.committed w ≤ p.position w
        → process_one lib run self timeout w ≡ ok r w'
        → p.position w < p.committed w'
    process_one_advances timeout w w' r behind h =
        (Leaves-ok
          (process_one-Moved offsets lib run self Serves-offsets timeout w (all_settled w behind))
          h).1

    -- A consumer whose group is not ahead of its position and that is called again after an exception,
    -- without a restart: if the next call returns, it has committed beyond every record that the
    -- failed call was given, whether that has been settled or not.
    pub process_one_passes :
        (timeout later : ℤ) (e : Exc) (w w1 w2 : W) (r : ProcessedKafkaRecord) (k : ℕ)
        → p.committed w ≤ p.position w
        → process_one lib run self timeout w ≡ raise e w1
        → k < p.position w1
        → process_one lib run self later w1 ≡ ok r w2
        → k < p.committed w2
    process_one_passes timeout later e w w1 w2 r k behind failed given h =
        let left =
          Leaves-raise
            (process_one-Moved offsets lib run self Serves-offsets timeout w (all_settled w behind))
            failed in
        let moved =
          process_one_advances later w1 w2 r (RaisedFrom-behind (p.position w) w1 left) h in
        omega (arith, given, moved)
