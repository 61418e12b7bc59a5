-- ===== src/Consumer/Budget.antt =====
-- How often the retry loop stores an event.
use kafka_sqs.Base.{ℕ, zero, suc, ◌+◌, ◌≤◌, ◌<◌, ◌≡◌, Bool, true, Option, none, some, arith, ◌∙◌}
use kafka_sqs.Base.Int.{ℤ, pos, negsuc, ltb_ℤ}
use kafka_sqs.Base.Lists.{any}
use kafka_sqs.Base.Effect.{Exc, value, Eff}
use kafka_sqs.Contracts.Event.{Uuid, OrderCreatedEvent}
use kafka_sqs.Contracts.Json.{Json}
use kafka_sqs.Contracts.Libraries.{Libraries}
use kafka_sqs.Clients.{Runtime, Message}
use kafka_sqs.DeadLetter.{DeadLetterFailure}
use kafka_sqs.OrderStore.{EventStoreResult}
use kafka_sqs.Consumer.{ProcessedKafkaRecord, KafkaOrderConsumer, is_some, is_false, decode_event}
use kafka_sqs.Consumer.Process.{
  publish_to, send_to, commit, dead_letter, run_attempts, recover, finish_effects, settle,
  can_retry, handle_message, attempt_fuel,
}
use kafka_sqs.Consumer.Count.{Leaves, Keeps, Leaves-map, attempt_Leaves, continue_Leaves, if_Leaves}

-- `count` counts the calls of `store`, returned or raised.
pub record Counts {ℓ} {W : Type ℓ} (run : Runtime W) (self : KafkaOrderConsumer W) (count : W → ℕ)
    : Type ℓ where
  pub stores :
      (event : OrderCreatedEvent) (w : W) → Keeps count (suc (count w)) (self.store.store event w)
  pub marks : (id : Uuid) (w : W) → Keeps count (count w) (self.store.mark_completed id w)
  pub discards : (id : Uuid) (w : W) → Keeps count (count w) (self.store.discard id w)
  pub sends :
      (event : OrderCreatedEvent) (w : W) → Keeps count (count w) (send_to self.downstream event w)
  pub publishes :
      (failure : DeadLetterFailure) (w : W)
      → Keeps count
          (count w)
          (publish_to self.dead_letter_publisher self.dead_letter_topic failure w)
  pub commits : (m : Message) (w : W) → Keeps count (count w) (self.consumer.commit m w)
  pub waits : (d : ℤ) (w : W) → count (run.wait d w) ≡ count w

-- The attempts that a policy allows; the first one is always made.
abbrev pub allowed : ℤ → ℕ
allowed (pos zero) = 1
allowed (pos (suc n)) = suc n
allowed (negsuc n) = 1

below_allowed : (n : ℕ) (max : ℤ) → ltb_ℤ (pos n) max ≡ true → n < allowed max
below_allowed n (pos zero) h = ground arith
below_allowed n (pos (suc k)) h = ground arith
below_allowed n (negsuc k) h = absurd (cc)

module _ {ℓ} {W : Type ℓ} (lib : Libraries) (run : Runtime W) (self : KafkaOrderConsumer W)
    (count : W → ℕ) (counts : Counts run self count) where
  commit-Keeps :
      (m : Message) (n : ℕ) (w : W) → count w ≡ n → Keeps count n (commit lib run self m w)
  unfolding commit
  commit-Keeps m n w e =
      attempt_Leaves _ _ _ (counts.commits m w) (λ x w1 same. record { at = same ∙ e })
        λ errors w1 same.
          if_Leaves (any is_some errors) _ _ w1 (λ _. record { at = same ∙ e })
            (λ _. record { at = same ∙ e })

  finish-Keeps :
      (event : OrderCreatedEvent) (r : EventStoreResult) (n : ℕ) (w : W)
      → count w ≡ n
      → Keeps count n (finish_effects lib run self event r w)
  finish-Keeps event r n w e =
      if_Leaves r.downstream_required _ _ w
        (λ _.
          continue_Leaves _ _
            (Leaves-map _ (counts.sends event w) (λ _ w1 same. same ∙ e) (λ w1 same. same ∙ e))
            λ _ w1 same.
              Leaves-map _ (counts.marks event.event_id w1) (λ _ w2 kept. kept ∙ same)
                (λ w2 kept. kept ∙ same))
        (λ _. record { at = e })

  module _ (before : ℕ) where
    -- The calls since `before`: those that the result tells, within what is allowed.
    abbrev pub Told : ProcessedKafkaRecord → W → Type 0
    Told r w =
        (count w ≡ before + r.attempts)
        × (1 ≤ r.attempts)
        × (r.attempts ≤ allowed self.retry_policy.max_attempts)

    abbrev pub Within : W → Type 0
    Within w = count w ≤ before + allowed self.retry_policy.max_attempts

    settle-Told :
        (m : Message) (event : OrderCreatedEvent) (n : ℕ) (initial : Option Bool) (w : W)
        → count w ≡ before + n
        → 1 ≤ n
        → n ≤ allowed self.retry_policy.max_attempts
        → Leaves (settle lib run self m event n initial w) Told Within
    settle-Told m event n initial w e low high =
        continue_Leaves _ _
          (Leaves-map _ (commit-Keeps m (before + n) w e) (λ _ w1 same. same)
            (λ w1 same. ground arith))
          λ _ w1 same. record { at = (same, low, high) }

    dead_letter-Told :
        (m : Message) (payload : Json) (x : Exc) (n : ℕ) (event : Option OrderCreatedEvent)
        (dup : Bool) (w : W)
        → count w ≡ before + n
        → 1 ≤ n
        → n ≤ allowed self.retry_policy.max_attempts
        → Leaves (dead_letter lib run self m payload x n event dup w) Told Within
    unfolding dead_letter
    dead_letter-Told m payload x n event dup w e low high =
        continue_Leaves _ _
          (Leaves-map _ (counts.publishes _ w) (λ _ w1 same. same ∙ e) (λ w1 same. ground arith))
          λ _ w1 same.
            continue_Leaves _ _
              (Leaves-map _ (commit-Keeps m (before + n) w1 same) (λ _ w2 kept. kept)
                (λ w2 kept. ground arith))
              λ _ w2 kept. record { at = (kept, low, high) }

    recover-Told :
        (m : Message) (payload : Json) (event : OrderCreatedEvent) (n : ℕ) (initial : Option Bool)
        (x : Exc) (retry : Eff W ProcessedKafkaRecord) (w : W)
        → count w ≡ before + n
        → 1 ≤ n
        → n ≤ allowed self.retry_policy.max_attempts
        → ((v : W)
            → count v ≡ before + n
            → n < allowed self.retry_policy.max_attempts
            → Leaves (retry v) Told Within)
        → Leaves (recover lib run self m payload event n initial x retry w) Told Within
    recover-Told m payload event n initial x retry w e low high again =
        if_Leaves (can_retry lib run self x n) _ _ w
          (λ more.
            again _ (counts.waits self.retry_policy.backoff_seconds w ∙ e)
              (below_allowed n self.retry_policy.max_attempts (ground arith)))
          λ _.
            if_Leaves (is_some self.dead_letter_publisher) _ _ w
              (λ _.
                continue_Leaves _ _
                  (Leaves-map _ (counts.discards event.event_id w) (λ _ w1 same. same ∙ e)
                    (λ w1 same. ground arith))
                  λ _ w1 same.
                    dead_letter-Told m payload x n (some event) (is_false initial) w1 same low high)
              (λ _. record { at = ground arith })

    attempts-Told :
        (m : Message) (payload : Json) (event : OrderCreatedEvent) (fuel n : ℕ)
        (initial : Option Bool) (w : W)
        → count w ≡ before + n
        → n < allowed self.retry_policy.max_attempts
        → Leaves (run_attempts lib run self m payload event fuel n initial w) Told Within
    unfolding run_attempts
    attempts-Told m payload event zero n initial w e room = record { at = tt }
    attempts-Told m payload event (suc fuel) n initial w e room =
        let low : 1 ≤ n + 1 = omega arith in
        let high : n + 1 ≤ allowed self.retry_policy.max_attempts = omega arith in
        let again =
          λ (decided : Option Bool) (v : W) (c : count v ≡ before + (n + 1))
              (more : n + 1 < allowed self.retry_policy.max_attempts).
            attempts-Told m payload event fuel (n + 1) decided v c more in
        attempt_Leaves _ _ _
          (Leaves-map _ {P' = λ _ v. count v ≡ before + (n + 1)}
            {Q' = λ v. count v ≡ before + (n + 1)} (counts.stores event w)
            (λ _ w1 same. ground arith) (λ w1 same. ground arith))
          (λ x w1 c. recover-Told m payload event (n + 1) initial x _ w1 c low high (again initial))
          λ r w1 c.
            attempt_Leaves _ _ _ (finish-Keeps event r (before + (n + 1)) w1 c)
              (λ x w2 c2. recover-Told m payload event (n + 1) _ x _ w2 c2 low high (again _))
              (λ _ w2 c2. settle-Told m event (n + 1) _ w2 c2 low high)

  one_allowed : (max : ℤ) → 0 < allowed max
  one_allowed (pos zero) = omega arith
  one_allowed (pos (suc n)) = omega arith
  one_allowed (negsuc n) = omega arith

  -- If `count` counts the calls of store: a delivery of a valid record calls `store` at most as often as the retry policy allows attempts,
  -- however it ends. If it returns, its `attempts` are the calls of `store` that it made, at least one.
  pub handle_message-Told :
      (m : Message) (payload : Json) (event : OrderCreatedEvent) (w : W)
      → decode_event lib m.payload ≡ value (payload, event)
      → Leaves (handle_message lib run self m w) (Told (count w)) (Within (count w))
  unfolding handle_message
  handle_message-Told m payload event w valid =
      if_Leaves (is_some m.fault) _ _ w (λ _. record { at = omega arith })
        (λ _. rw valid (
          attempts-Told (count w) m payload event (attempt_fuel lib run self) 0 none w (omega arith)
            (one_allowed self.retry_policy.max_attempts)))
