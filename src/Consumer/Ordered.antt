-- ===== src/Consumer/Ordered.antt =====
-- The consumer never makes a call out of order, and commits an offset only as the last call.
use text.Mathlib.TextPositions.{eq_refl}
use kafka_sqs.Base.{
  ℕ, zero, suc, ◌-◌, String, ◌≡◌, refl, Bool, true, false, Option, none, some, arith, leb,
  if◌then◌else◌,
}
use kafka_sqs.Base.Int.{pos, min_ℤ}
use kafka_sqs.Base.Lists.{any}
use kafka_sqs.Base.Effect.{Exc, Eff}
use kafka_sqs.Contracts.Event.{Uuid, OrderCreatedEvent}
use kafka_sqs.Contracts.Json.{Json}
use kafka_sqs.Contracts.Libraries.{Libraries}
use kafka_sqs.Clients.{Runtime, Message}
use kafka_sqs.DeadLetter.{DeadLetterFailure}
use kafka_sqs.Consumer.{ProcessedKafkaRecord, KafkaOrderConsumer, is_some}
use kafka_sqs.Consumer.Process.{or_again, publish_to, poll_loop, commit, dead_letter}
use kafka_sqs.Consumer.Watch.{
  Phase, idle, received, applied, publish, published, committed, dead_committed, aborted, violation,
  Call, polled, poll_raised, step, Watched, watched, watched_publisher, watched_runtime,
  same_record, commit_done,
}
use kafka_sqs.Consumer.Ends.{Ends, told_Ends, Ends-mono, attempt_Ends, continue_Ends, if_Ends}

-- No offset is committed, and every call was in order.
abbrev pub is_uncommitted : Phase → Bool
is_uncommitted (committed m) = false
is_uncommitted (dead_committed m) = false
is_uncommitted violation = false
is_uncommitted _ = true

abbrev pub Uncommitted : Phase → Type 0
Uncommitted p = is_uncommitted p ≡ true

same_record_refl : (m : Message) → same_record m m ≡ true
same_record_refl m = rw eq_refl (ground arith)

abbrev pub arrived : Option Message → Phase
arrived none = idle
arrived (some m) = received m

-- The result names the record.
abbrev pub Describes : Message → ProcessedKafkaRecord → Type 0
Describes m r = (r.topic ≡ m.topic) × (r.partition ≡ m.partition) × (r.offset ≡ m.offset)

-- A done commit of `m` leads from `p` to `q`.
abbrev pub Commits : Phase → Message → Phase → Type 0
Commits p m q = (d b : Bool) → step d p (Call.commit m b) ≡ (if b then q else aborted)

pub applied_Commits : (m : Message) (id : Uuid) → Commits (applied m id) m (committed m)
unfolding step
applied_Commits m id d b = rw same_record_refl refl

pub published_Commits : (m : Message) → Commits (published m) m (dead_committed m)
unfolding step
published_Commits m d b = rw same_record_refl refl

-- A phase in which the dead-letter record may be published.
abbrev pub Publishes : Phase → Message → Type 0
Publishes p m =
    (is_uncommitted p ≡ true)
    × ((d b : Bool) → step d p (publish b) ≡ (if b then published m else aborted))

module _ {ℓ} {W : Type ℓ} (lib : Libraries) (run : Runtime W) (self : KafkaOrderConsumer W) where
  pub poll_Ends :
      (fuel deadline : ℕ) (w : W)
      → Ends
          (poll_loop lib
            (watched_runtime run)
            (watched self)
            fuel
            deadline
            (record { world = w; phase = idle }))
          (λ o p. p ≡ arrived o)
          Uncommitted
  unfolding poll_loop step
  poll_Ends zero deadline w = record { at = tt }
  poll_Ends (suc fuel) deadline w =
      let (now, w1) = run.monotonic w in
      let (later, w2) = run.monotonic w1 in
      let wait = min_ℤ self.settings.poll_interval_seconds (pos (deadline - later)) in
      if_Ends (leb deadline now) _ _ _ (λ _. record { at = refl })
        λ _.
          if_Ends (leb deadline later) _ _ _ (λ _. record { at = refl })
            λ _.
              continue_Ends _ _
                (Ends-mono _ (told_Ends d idle polled poll_raised (self.consumer.poll wait w2))
                  (λ o p e. e) (λ p e. rw e refl))
                λ o s e. after o s e (λ w'. poll_Ends fuel deadline w')
    where
      d : Bool
      d = is_some self.downstream

      after :
          (o : Option Message) (s : Watched W)
          → s.phase ≡ step d idle (polled o)
          → ((w' : W)
              → Ends
                  (poll_loop lib
                    (watched_runtime run)
                    (watched self)
                    fuel
                    deadline
                    (record { world = w'; phase = idle }))
                  (λ o' p. p ≡ arrived o')
                  Uncommitted)
          → Ends
              (or_again o (poll_loop lib (watched_runtime run) (watched self) fuel deadline) s)
              (λ o' p. p ≡ arrived o')
              Uncommitted
      after none s e again = rw e (again s.world)
      after (some m) s e again = record { at = e }

  pub commit_Ends :
      (m : Message) (q : Phase) (s : Watched W)
      → Commits s.phase m q
      → Ends (commit lib (watched_runtime run) (watched self) m s) (λ _ p. p ≡ q) Uncommitted
  unfolding commit
  commit_Ends m q s c =
      attempt_Ends _ _ _ (told_Ends d s.phase _ _ (self.consumer.commit m s.world))
        (λ x s' h. record { at = rw h (rw (c d false) refl) })
        λ errors s' h.
          if_Ends (any is_some errors) _ _ s'
            (λ bad. record { at = rw h (rw (c d (commit_done errors)) (rw bad refl)) })
            (λ good. record { at = rw h (rw (c d (commit_done errors)) (rw good refl)) })
    where
      d : Bool
      d = is_some self.downstream

  publish_to_Ends :
      (d : Bool) (m : Message) (publisher : Option (String → DeadLetterFailure → Eff W (Unit {0})))
      (topic : Option String) (failure : DeadLetterFailure) (s : Watched W)
      → Publishes s.phase m
      → Ends
          (publish_to (watched_publisher d publisher) topic failure s)
          (λ _ p. p ≡ published m)
          Uncommitted
  publish_to_Ends d m none topic failure s (open_phase, c) = record { at = open_phase }
  publish_to_Ends d m (some f) none failure s (open_phase, c) = record { at = open_phase }
  publish_to_Ends d m (some f) (some topic) failure s (open_phase, c) =
      Ends-mono _ (told_Ends d s.phase _ _ (f topic failure s.world)) (λ _ p h. rw h (c d true))
        (λ p h. rw h (rw (c d false) refl))

  pub dead_letter_Ends :
      (m : Message) (payload : Json) (e : Exc) (n : ℕ) (event : Option OrderCreatedEvent)
      (dup : Bool) (s : Watched W)
      → Publishes s.phase m
      → Ends
          (dead_letter lib (watched_runtime run) (watched self) m payload e n event dup s)
          (λ r p. (p ≡ dead_committed m) × (r.dead_lettered ≡ true) × Describes m r)
          Uncommitted
  unfolding dead_letter
  dead_letter_Ends m payload e n event dup s open_phase =
      continue_Ends _ _
        (publish_to_Ends _ m self.dead_letter_publisher self.dead_letter_topic _ s open_phase)
        λ _ s1 e1.
          continue_Ends _ _ (commit_Ends m (dead_committed m) s1 (rw e1 (published_Commits m)))
            λ _ s2 e2. record { at = (e2, refl, (refl, refl, refl)) }
