-- ===== src/Consumer/Log/Session.antt =====
-- Runs of a consumer at one partition: its calls of process_one, and its restarts.
use kafka_sqs.Base.{
  ℕ, zero, suc, ◌+◌, ◌≤◌, ◌<◌, ◌≡◌, ◌≢◌, refl, ◌⊎◌, inl, inr, true, Option, none, some, leb, arith,
  Option-cases,
}
use kafka_sqs.Base.Int.{ℤ, pos, leb_ℤ, pos_part}
use kafka_sqs.Base.Effect.{Exc, ok, raise, Eff}
use kafka_sqs.Contracts.Libraries.{Libraries}
use kafka_sqs.Clients.{Runtime, Message}
use kafka_sqs.Consumer.{ProcessedKafkaRecord, KafkaOrderConsumer, is_some}
use kafka_sqs.Consumer.Process.{poll_loop, or_again, handle_polled, handle_message, process_one}
use kafka_sqs.Consumer.Count.{
  Leaves, Leaves-map, continue_Leaves, if_Leaves, Leaves-ok, Leaves-raise,
}
use kafka_sqs.Consumer.Log.{Partition, Any, Steady, IsNext, Polled, Serves, IsSafe, IsOpen}
use kafka_sqs.Consumer.Log.Handled.{Steady-IsSafe, handle_message-Ended}

module _ {W : Type 0} (p : Partition W) where
  -- Where an exception of process_one leaves the partition, from the position at its start.
  abbrev pub RaisedFrom : ℕ → W → Type 0
  RaisedFrom n w = IsSafe p w ⊎ ((k : ℕ) × (n ≤ k) × IsOpen p k w)

  -- What its return leaves: everything is settled, and the group is beyond that position.
  abbrev pub Moved : ℕ → W → Type 0
  Moved n w = IsSafe p w × (n < p.committed w)

  -- The consumer is closed, and a new one joins its group: it begins where the group is.
  pub record Restarts (w w' : W) : Type 0 where
    pub at : p.position w' ≡ p.committed w
    pub group : p.committed w' ≡ p.committed w
    pub keeps : (i : ℕ) → p.Settled i w → p.Settled i w'

module _ {W : Type 0} (p : Partition W) (lib : Libraries) (run : Runtime W)
    (self : KafkaOrderConsumer W) where
  -- Calls of process_one, each after the one before if that returned or gave no record, and otherwise
  -- after a restart. There may be a restart between any two calls.
  pub data Session (w : W) : W → Type 0 where
    begin : Session w w
    processed :
        {v v' : W} (timeout : ℤ) (r : ProcessedKafkaRecord)
        → Session w v
        → process_one lib run self timeout v ≡ ok r v'
        → Session w v'
    waited :
        {v v' : W} (timeout : ℤ) (e : Exc)
        → Session w v
        → process_one lib run self timeout v ≡ raise e v'
        → p.position v' ≡ p.position v
        → Session w v'
    restarted :
        {v v1 v' : W} (timeout : ℤ) (e : Exc)
        → Session w v
        → process_one lib run self timeout v ≡ raise e v1
        → Restarts p v1 v'
        → Session w v'
    reopened : {v v' : W} → Session w v → Restarts p v v' → Session w v'

module _ {W : Type 0} (p : Partition W) (lib : Libraries) (run : Runtime W)
    (self : KafkaOrderConsumer W) (serves : Serves p lib run self) where
  -- What the poll loop leaves: a record that was given just now, an error event, or nothing. `n` is
  -- the position at the start.
  abbrev Arrived : ℕ → Option Message → W → Type 0
  Arrived n none w = IsSafe p w
  Arrived n (some m) w =
      ((m.fault ≡ none) × IsNext p lib m × (n ≤ m.offset) × IsOpen p m.offset w)
      ⊎ ((m.fault ≢ none) × IsSafe p w)

  -- Nothing has been given since the start.
  abbrev Waiting : ℕ → W → Type 0
  Waiting n w = IsSafe p w × (n ≤ p.position w)

  Steady-Waiting : (n : ℕ) (w w' : W) → Steady p (Any p) w w' → Waiting n w → Waiting n w'
  Steady-Waiting n w w' s (safe, low) = (Steady-IsSafe p w w' s safe, omega (arith, low, s.at))

  Polled-Arrived :
      (n : ℕ) (polled : Option Message) (w w' : W)
      → Waiting n w
      → Polled p lib w polled w'
      → Arrived n polled w' × ((polled ≡ none) → Waiting n w')
  Polled-Arrived n none w w' waiting s =
      (Steady-IsSafe p w w' s waiting.0, λ _. Steady-Waiting n w w' s waiting)
  Polled-Arrived n (some m) w w' waiting (inr (faulty, s)) =
      (inr (faulty, Steady-IsSafe p w w' s waiting.0), λ e. absurd (cc))
  Polled-Arrived n (some m) w w' (safe, low) (inl (good, next, own, moved, group, keeps)) =
      let given : IsOpen p m.offset w' = record {
        at = moved;
        settled = λ i lt. keeps i (safe.settled i (omega (arith, own)));
        behind = omega (arith, own, group, safe.behind);
      } in
      (inl (good, next, omega (arith, own, low), given), λ e. absurd (cc))

  or_again-Arrived :
      (n : ℕ) (polled : Option Message) (again : Eff W (Option Message)) (w : W)
      → ((v : W) → Waiting n v → Leaves (again v) (Arrived n) (IsSafe p))
      → Arrived n polled w × ((polled ≡ none) → Waiting n w)
      → Leaves (or_again polled again w) (Arrived n) (IsSafe p)
  or_again-Arrived n none again w later (arrived, waiting) = later w (waiting refl)
  or_again-Arrived n (some m) again w later (arrived, waiting) = record { at = arrived }

  poll_loop-Arrived :
      (n fuel deadline : ℕ) (w : W)
      → Waiting n w
      → Leaves (poll_loop lib run self fuel deadline w) (Arrived n) (IsSafe p)
  unfolding poll_loop
  poll_loop-Arrived n zero deadline w waiting = record { at = tt }
  poll_loop-Arrived n (suc fuel) deadline w waiting =
      let (now, w1) = run.monotonic w in
      let waiting1 = Steady-Waiting n w w1 (serves.ticks w) waiting in
      let (later, w2) = run.monotonic w1 in
      let waiting2 = Steady-Waiting n w1 w2 (serves.ticks w1) waiting1 in
      if_Leaves (leb deadline now) _ _ w1 (λ _. record { at = waiting1.0 })
        λ _.
          if_Leaves (leb deadline later) _ _ w2 (λ _. record { at = waiting2.0 })
            λ _.
              continue_Leaves _ _
                {P = λ polled v. Arrived n polled v × ((polled ≡ none) → Waiting n v)}
                (Leaves-map _ (serves.polls _ w2)
                  (λ polled w3 got. Polled-Arrived n polled w2 w3 waiting2 got)
                  (λ w3 s. Steady-IsSafe p w2 w3 s waiting2.0))
                λ polled w3 arrived.
                  or_again-Arrived n polled _ w3 (poll_loop-Arrived n fuel deadline) arrived

  faulty_raises : (m : Message) → m.fault ≢ none → is_some m.fault ≡ true
  faulty_raises m faulty = elim (Option-cases m.fault) [
    | inl e ↦ absurd (faulty e)
    | inr (f, e) ↦ rw e refl
  ]

  handle_polled-Moved :
      (n : ℕ) (polled : Option Message) (w : W)
      → Arrived n polled w
      → Leaves (handle_polled lib run self polled w) (λ _. Moved p n) (RaisedFrom p n)
  unfolding handle_message
  handle_polled-Moved n none w safe = record { at = inl safe }
  handle_polled-Moved n (some m) w (inl (good, next, low, o)) =
      Leaves-map _ (handle_message-Ended p lib run self serves m w next o)
        (λ _ w' ended. (ended.0, omega (arith, ended.1, low)))
        (λ w' left. elim left [ inl safe ↦ inl safe | inr given ↦ inr (m.offset, low, given) ])
  handle_polled-Moved n (some m) w (inr (faulty, safe)) =
      if_Leaves (is_some m.fault) _ _ w (λ _. record { at = inl safe })
        (λ sound. let raised = faulty_raises m faulty in absurd (cc))

  -- A call of process_one that begins with everything before the position settled ends so if it
  -- returns. If it raises, then everything before the position is settled, or all but the last.
  pub process_one-Moved :
      (timeout : ℤ) (w : W)
      → IsSafe p w
      → Leaves
          (process_one lib run self timeout w)
          (λ _. Moved p (p.position w))
          (RaisedFrom p (p.position w))
  unfolding process_one
  process_one-Moved timeout w safe =
      if_Leaves (leb_ℤ timeout (pos 0)) _ _ w (λ _. record { at = inl safe })
        λ _.
          let (start, w1) = run.monotonic w in
          let waiting = Steady-Waiting (p.position w) w w1 (serves.ticks w) (safe, omega arith) in
          continue_Leaves _ _
            (Leaves-map _
              (poll_loop-Arrived (p.position w) (suc (pos_part timeout)) (start + pos_part timeout)
                w1 waiting)
              (λ polled v got. got) (λ v left. inl left))
            λ polled v arrived. handle_polled-Moved (p.position w) polled v arrived

  RaisedFrom-IsSafe :
      (v v' : W) → RaisedFrom p (p.position v) v' → p.position v' ≡ p.position v → IsSafe p v'
  RaisedFrom-IsSafe v v' (inl safe) still = safe
  RaisedFrom-IsSafe v v' (inr (k, low, o)) still = absurd (omega (arith, low, still, o.at))

  Restarts-IsSafe : (n : ℕ) (v v' : W) → RaisedFrom p n v → Restarts p v v' → IsSafe p v'
  Restarts-IsSafe n v v' (inl safe) r = record {
    settled = λ i lt. r.keeps i (safe.settled i (omega (arith, r.at, safe.behind)));
    behind = omega (arith, r.at, r.group);
  }
  Restarts-IsSafe n v v' (inr (k, low, o)) r = record {
    settled = λ i lt. r.keeps i (o.settled i (omega (arith, r.at, o.behind)));
    behind = omega (arith, r.at, r.group);
  }

  -- In a session that restarts the consumer after every exception that followed a record, every
  -- record before the group's offset is settled.
  pub Session-IsSafe : {w w' : W} → Session p lib run self w w' → IsSafe p w → IsSafe p w'
  Session-IsSafe begin safe = safe
  Session-IsSafe (processed {v} timeout r before h) safe =
      (Leaves-ok (process_one-Moved timeout v (Session-IsSafe before safe)) h).0
  Session-IsSafe (waited {v} {v'} timeout e before h still) safe =
      RaisedFrom-IsSafe v v'
        (Leaves-raise (process_one-Moved timeout v (Session-IsSafe before safe)) h) still
  Session-IsSafe (restarted {v} {v1} {v'} timeout e before h r) safe =
      Restarts-IsSafe _ v1 v'
        (Leaves-raise (process_one-Moved timeout v (Session-IsSafe before safe)) h) r
  Session-IsSafe (reopened {v} {v'} before r) safe =
      Restarts-IsSafe (p.position v) v v' (inl (Session-IsSafe before safe)) r
