-- ===== src/Consumer/Total.antt =====
-- The loops of `process_one` end: the fuel that the model gives them is enough.
use kafka_sqs.Base.{
  ℕ, zero, suc, ◌+◌, ◌≤◌, ◌<◌, String, ◌≡◌, refl, Bool, true, false, Option, none, some, arith, leb,
  ◌&&◌,
}
use kafka_sqs.Base.Int.{ℤ, pos, negsuc, leb_ℤ, ltb_ℤ, pos_part}
use kafka_sqs.Base.Lists.{any}
use kafka_sqs.Base.Effect.{Exc, Reply, value, error, ok, Eff}
use kafka_sqs.Base.Finishes.{Finishes, attempt_Finishes, continue_Finishes, if_Finishes}
use kafka_sqs.Contracts.Event.{Uuid, OrderCreatedEvent}
use kafka_sqs.Contracts.Json.{Json}
use kafka_sqs.Contracts.Libraries.{Libraries}
use kafka_sqs.Clients.{Runtime, Message}
use kafka_sqs.DeadLetter.{DeadLetterFailure, is_retryable}
use kafka_sqs.OrderStore.{EventStoreResult}
use kafka_sqs.Consumer.{
  ProcessedKafkaRecord, KafkaOrderConsumer, is_some, is_false, decode_event, safe_original_payload,
}
use kafka_sqs.Consumer.Process.{
  or_again, publish_to, send_to, poll_loop, commit, dead_letter, run_attempts, recover,
  finish_effects, can_retry, handle_decoded, handle_message, handle_polled, attempt_fuel,
  process_one,
}

module _ {ℓ} {W : Type ℓ} where
  abbrev SendFinishes : Option (OrderCreatedEvent → Eff W (Unit {0})) → Type ℓ
  SendFinishes none = Unit
  SendFinishes (some send) = (event : OrderCreatedEvent) (w : W) → Finishes (send event w)

  abbrev PublishFinishes : Option (String → DeadLetterFailure → Eff W (Unit {0})) → Type ℓ
  PublishFinishes none = Unit
  PublishFinishes (some publish_failure) =
      (topic : String) (failure : DeadLetterFailure) (w : W)
      → Finishes (publish_failure topic failure w)

  -- Every call of a client returns or raises.
  pub record CallsFinish (self : KafkaOrderConsumer W) : Type ℓ where
    pub store : (event : OrderCreatedEvent) (w : W) → Finishes (self.store.store event w)
    pub mark : (id : Uuid) (w : W) → Finishes (self.store.mark_completed id w)
    pub discard : (id : Uuid) (w : W) → Finishes (self.store.discard id w)
    pub send : SendFinishes self.downstream
    pub publish : PublishFinishes self.dead_letter_publisher
    pub poll : (d : ℤ) (w : W) → Finishes (self.consumer.poll d w)
    pub commit : (m : Message) (w : W) → Finishes (self.consumer.commit m w)

  -- `monotonic()` never goes back, and a `poll` that brings no record takes time.
  pub record ClockRuns (run : Runtime W) (self : KafkaOrderConsumer W) : Type ℓ where
    pub time : W → ℕ
    pub reads : (w : W) → (run.monotonic w).0 ≡ time w
    pub keeps : (w : W) → time w ≤ time (run.monotonic w).1
    pub waits : (d : ℤ) (w w' : W) → self.consumer.poll d w ≡ ok none w' → time w < time w'

  send_to_Finishes :
      (send : Option (OrderCreatedEvent → Eff W (Unit {0}))) (event : OrderCreatedEvent) (w : W)
      → SendFinishes send
      → Finishes (send_to send event w)
  send_to_Finishes none event w h = record { finishes = refl }
  send_to_Finishes (some send) event w h = h event w

  publish_to_Finishes :
      (publisher : Option (String → DeadLetterFailure → Eff W (Unit {0}))) (topic : Option String)
      (failure : DeadLetterFailure) (w : W)
      → PublishFinishes publisher
      → Finishes (publish_to publisher topic failure w)
  publish_to_Finishes none topic failure w h = record { finishes = refl }
  publish_to_Finishes (some f) none failure w h = record { finishes = refl }
  publish_to_Finishes (some f) (some topic) failure w h = h topic failure w

module _ {ℓ} {W : Type ℓ} (lib : Libraries) (run : Runtime W) (self : KafkaOrderConsumer W)
    (calls : CallsFinish self) where
  commit_Finishes : (m : Message) (w : W) → Finishes (commit lib run self m w)
  unfolding commit
  commit_Finishes m w =
      attempt_Finishes _ _ _ (calls.commit m w) (λ e w1. record { finishes = refl })
        λ errors w1.
          if_Finishes (any is_some errors) _ _ w1 (λ _. record { finishes = refl })
            (λ _. record { finishes = refl })

  dead_letter_Finishes :
      (m : Message) (payload : Json) (e : Exc) (n : ℕ) (event : Option OrderCreatedEvent)
      (dup : Bool) (w : W)
      → Finishes (dead_letter lib run self m payload e n event dup w)
  unfolding dead_letter
  dead_letter_Finishes m payload e n event dup w =
      continue_Finishes _ _
        (publish_to_Finishes self.dead_letter_publisher self.dead_letter_topic _ w calls.publish)
        λ _ w1 _. continue_Finishes _ _ (commit_Finishes m w1) λ _ w2 _. record { finishes = refl }

  finish_Finishes :
      (event : OrderCreatedEvent) (r : EventStoreResult) (w : W)
      → Finishes (finish_effects lib run self event r w)
  finish_Finishes event r w =
      if_Finishes r.downstream_required _ _ w
        (λ _.
          continue_Finishes _ _ (send_to_Finishes self.downstream event w calls.send)
            λ _ w1 _. calls.mark event.event_id w1)
        (λ _. record { finishes = refl })

  -- A retry is made only while attempts are left.
  recover_Finishes :
      (m : Message) (payload : Json) (event : OrderCreatedEvent) (n : ℕ) (initial : Option Bool)
      (e : Exc) (retry : Eff W ProcessedKafkaRecord) (w : W)
      → (n < pos_part self.retry_policy.max_attempts → (w' : W) → Finishes (retry w'))
      → Finishes (recover lib run self m payload event n initial e retry w)
  recover_Finishes m payload event n initial e retry w again =
      if_Finishes (can_retry lib run self e n) _ _ w
        (λ more. again (below self.retry_policy.max_attempts more) _)
        λ _.
          if_Finishes (is_some self.dead_letter_publisher) _ _ w
            (λ _.
              continue_Finishes _ _ (calls.discard event.event_id w)
                λ _ w1 _. dead_letter_Finishes m payload e n (some event) (is_false initial) w1)
            (λ _. record { finishes = refl })
    where
      below :
          (max : ℤ)
          → (is_retryable self.retry_policy e && ltb_ℤ (pos n) max) ≡ true
          → n < pos_part max
      below (pos k) h = ground arith
      below (negsuc k) h = absurd (ground arith)

  attempts_Finishes :
      (m : Message) (payload : Json) (event : OrderCreatedEvent) (fuel n : ℕ)
      (initial : Option Bool) (w : W)
      → pos_part self.retry_policy.max_attempts < n + fuel
      → 0 < fuel
      → Finishes (run_attempts lib run self m payload event fuel n initial w)
  unfolding run_attempts
  attempts_Finishes m payload event zero n initial w enough some_fuel = absurd (omega arith)
  attempts_Finishes m payload event (suc fuel) n initial w enough some_fuel =
      let again =
        λ (decided : Option Bool) (left : n + 1 < pos_part self.retry_policy.max_attempts) (w' : W).
          attempts_Finishes m payload event fuel (n + 1) decided w' (omega arith) (omega arith) in
      attempt_Finishes _ _ _ (calls.store event w)
        (λ e w1. recover_Finishes m payload event (n + 1) initial e _ w1 (again initial))
        λ r w1.
          attempt_Finishes _ _ _ (finish_Finishes event r w1)
            (λ e w2. recover_Finishes m payload event (n + 1) _ e _ w2 (again _))
            λ _ w2.
              continue_Finishes _ _ (commit_Finishes m w2) λ _ w3 _. record { finishes = refl }

  message_Finishes : (m : Message) (w : W) → Finishes (handle_message lib run self m w)
  unfolding handle_message
  message_Finishes m w =
      if_Finishes (is_some m.fault) _ _ w (λ _. record { finishes = refl })
        (λ _. decoded (decode_event lib m.payload))
    where
      decoded :
          (d : Reply (Json × OrderCreatedEvent)) → Finishes (handle_decoded lib run self m d w)
      decoded (value (payload, event)) =
          attempts_Finishes m payload event (attempt_fuel lib run self) 0 none w (omega arith)
            (omega arith)
      decoded (error x) =
          if_Finishes (is_some self.dead_letter_publisher) _ _ w
            (λ _. dead_letter_Finishes m (safe_original_payload lib m.payload) x 1 none false w)
            (λ _. record { finishes = refl })

  module _ (clock : ClockRuns run self) where
    poll_Finishes :
        (fuel deadline : ℕ) (w : W)
        → deadline < clock.time w + fuel
        → 0 < fuel
        → Finishes (poll_loop lib run self fuel deadline w)
    unfolding poll_loop
    poll_Finishes zero deadline w enough some_fuel = absurd (omega arith)
    poll_Finishes (suc fuel) deadline w enough some_fuel =
        let (now, w1) = run.monotonic w in
        let (later, w2) = run.monotonic w1 in
        if_Finishes (leb deadline now) _ _ w1 (λ _. record { finishes = refl })
          λ early.
            if_Finishes (leb deadline later) _ _ w2 (λ _. record { finishes = refl })
              λ _. continue_Finishes _ _ (calls.poll _ w2) λ polled w3 e. again polled w3 λ missed.
                let before : clock.time w < deadline = ground (arith, clock.reads w) in
                let spent : clock.time w2 < clock.time w3 = clock.waits _ w2 w3 (rw missed at e) in
                poll_Finishes fuel deadline w3 (omega (arith, clock.keeps w, clock.keeps w1))
                  (omega arith)
      where
        again :
            (polled : Option Message) (w' : W)
            → (polled ≡ none → Finishes (poll_loop lib run self fuel deadline w'))
            → Finishes (or_again polled (poll_loop lib run self fuel deadline) w')
        again none w' h = h refl
        again (some m) w' h = record { finishes = refl }

    -- `process_one` ends, whatever the timeout, if every call of a client does, the clock does not go
    -- back and an empty poll takes time.
    pub process_one_Finishes : (timeout : ℤ) (w : W) → Finishes (process_one lib run self timeout w)
    unfolding process_one
    process_one_Finishes timeout w =
        let (start, w1) = run.monotonic w in
        if_Finishes (leb_ℤ timeout (pos 0)) _ _ w (λ _. record { finishes = refl })
          λ _.
            continue_Finishes _ _
              (poll_Finishes (suc (pos_part timeout)) (start + pos_part timeout) w1
                (omega (arith, clock.reads w, clock.keeps w)) (omega arith))
              λ polled w2 _. arrive polled w2
      where
        arrive :
            (polled : Option Message) (w' : W) → Finishes (handle_polled lib run self polled w')
        arrive none w' = record { finishes = refl }
        arrive (some m) w' = message_Finishes m w'
