-- ===== src/Consumer/Settled.antt =====
-- What a settled record has done to the world, for any facts about the world that the clients bring
-- about and keep.
use kafka_sqs.Base.{
  ℕ, zero, suc, ◌+◌, String, ◌≡◌, refl, Bool, true, false, Option, none, some, List, if◌then◌else◌,
}
use kafka_sqs.Base.Lists.{any}
use kafka_sqs.Base.Effect.{Exc, value, Outcome, ok, raise, out_of_fuel, Eff, continue, attempt}
use kafka_sqs.Contracts.Event.{OrderCreatedEvent}
use kafka_sqs.Contracts.Json.{Json}
use kafka_sqs.Contracts.Libraries.{Libraries}
use kafka_sqs.Clients.{Runtime, Message}
use kafka_sqs.DeadLetter.{DeadLetterFailure}
use kafka_sqs.OrderStore.{EventStoreResult}
use kafka_sqs.Consumer.{ProcessedKafkaRecord, KafkaOrderConsumer, is_some, is_false, decode_event}
use kafka_sqs.Consumer.Process.{
  publish_to, commit, dead_letter, run_attempts, recover, finish_effects, can_retry, handle_message,
  attempt_fuel,
}

module _ {ℓ} {W : Type ℓ} {A : Type 0} where
  abbrev HoldsAt {κ} : Outcome W A → (A → W → Type κ) → Type κ
  HoldsAt (ok a w) P = P a w
  HoldsAt (raise e w) P = Unit
  HoldsAt out_of_fuel P = Unit

  -- If the call returns, then with `P`.
  pub record Returns {κ} (o : Outcome W A) (P : A → W → Type κ) : Type κ where
    pub at : HoldsAt o P

  pub Returns-ok {κ} :
      {P : A → W → Type κ} {o : Outcome W A} → Returns o P → (a : A) (w : W) → o ≡ ok a w → P a w
  Returns-ok {P} r a w e = rw e at r.at

  pub Returns-of_ok {κ} :
      {P : A → W → Type κ} (o : Outcome W A) → ((a : A) (w : W) → o ≡ ok a w → P a w) → Returns o P
  Returns-of_ok (ok a w) h = record { at = h a w refl }
  Returns-of_ok (raise e w) h = record { at = tt }
  Returns-of_ok out_of_fuel h = record { at = tt }

module _ {ℓ κ μ} {W : Type ℓ} {A B : Type 0} {P : A → W → Type κ} {Q : B → W → Type μ} where
  pub continue_Returns :
      (o : Outcome W A) (f : A → Eff W B)
      → Returns o P
      → ((a : A) (w : W) → P a w → Returns (f a w) Q)
      → Returns (continue o f) Q
  continue_Returns (ok a w) f r kf = kf a w r.at
  continue_Returns (raise e w) f r kf = record { at = tt }
  continue_Returns out_of_fuel f r kf = record { at = tt }

  pub attempt_Returns :
      (o : Outcome W A) (h : Exc → Eff W B) (f : A → Eff W B)
      → Returns o P
      → ((e : Exc) (w : W) → Returns (h e w) Q)
      → ((a : A) (w : W) → P a w → Returns (f a w) Q)
      → Returns (attempt o h f) Q
  attempt_Returns (ok a w) h f r kh kf = kf a w r.at
  attempt_Returns (raise e w) h f r kh kf = kh e w
  attempt_Returns out_of_fuel h f r kh kf = record { at = tt }

module _ {ℓ κ} {W : Type ℓ} {A : Type 0} {P : A → W → Type κ} where
  pub if_Returns :
      (b : Bool) (m n : Eff W A) (w : W)
      → (b ≡ true → Returns (m w) P)
      → (b ≡ false → Returns (n w) P)
      → Returns ((if b then m else n) w) P
  if_Returns true m n w hm hn = hm refl
  if_Returns false m n w hm hn = hn refl

module _ {ℓ} {W : Type ℓ} where
  abbrev pub PublishKeeps :
      (W → Type 0) → Option (String → DeadLetterFailure → Eff W (Unit {0})) → Type ℓ
  PublishKeeps P none = Unit
  PublishKeeps P (some publish_failure) =
      (topic : String) (failure : DeadLetterFailure) (w w' : W)
      → publish_failure topic failure w ≡ ok tt w'
      → P w
      → P w'

  -- What the clients establish: `Done` after the effects of an event, `Gone` after its removal.
  pub record Establishes (self : KafkaOrderConsumer W) (event : OrderCreatedEvent)
      (Done Gone : W → Type 0) : Type ℓ where
    pub stored :
        (r : EventStoreResult) (w w' : W)
        → self.store.store event w ≡ ok r w'
        → r.downstream_required ≡ false
        → Done w'
    pub marked : (w w' : W) → self.store.mark_completed event.event_id w ≡ ok tt w' → Done w'
    pub removed : (w w' : W) → self.store.discard event.event_id w ≡ ok tt w' → Gone w'
    pub publish_keeps : PublishKeeps Gone self.dead_letter_publisher
    pub commit_keeps_done :
        (m : Message) (errors : List (Option String)) (w w' : W)
        → self.consumer.commit m w ≡ ok errors w'
        → Done w
        → Done w'
    pub commit_keeps_gone :
        (m : Message) (errors : List (Option String)) (w w' : W)
        → self.consumer.commit m w ≡ ok errors w'
        → Gone w
        → Gone w'

module _ {ℓ} {W : Type ℓ} (lib : Libraries) (run : Runtime W) (self : KafkaOrderConsumer W) where
  commit_Returns :
      (P : W → Type 0) (m : Message) (w : W)
      → ((errors : List (Option String)) (w' : W) → self.consumer.commit m w ≡ ok errors w' → P w')
      → Returns (commit lib run self m w) (λ _ w'. P w')
  unfolding commit
  commit_Returns P m w keeps =
      attempt_Returns _ _ _ (Returns-of_ok (self.consumer.commit m w) keeps)
        (λ e w1. record { at = tt })
        λ errors w1 p.
          if_Returns (any is_some errors) _ _ w1 (λ _. record { at = tt }) (λ _. record { at = p })

  publish_to_Returns :
      (P : W → Type 0) (publisher : Option (String → DeadLetterFailure → Eff W (Unit {0})))
      (topic : Option String) (failure : DeadLetterFailure) (w : W)
      → PublishKeeps P publisher
      → P w
      → Returns (publish_to publisher topic failure w) (λ _ w'. P w')
  publish_to_Returns P none topic failure w keeps p = record { at = tt }
  publish_to_Returns P (some f) none failure w keeps p = record { at = tt }
  publish_to_Returns P (some f) (some topic) failure w keeps p =
      Returns-of_ok (f topic failure w) (λ u w' e. keeps topic failure w w' e p)

  module _ (event : OrderCreatedEvent) (Done Gone : W → Type 0)
      (h : Establishes self event Done Gone) where
    -- A settled event is done, or dead-lettered and gone.
    abbrev pub Outcomes : ProcessedKafkaRecord → W → Type 0
    Outcomes r w = (r.dead_lettered ≡ false → Done w) × (r.dead_lettered ≡ true → Gone w)

    dead_letter_Returns :
        (m : Message) (payload : Json) (e : Exc) (n : ℕ) (dup : Bool) (w : W)
        → Gone w
        → Returns (dead_letter lib run self m payload e n (some event) dup w) Outcomes
    unfolding dead_letter
    dead_letter_Returns m payload e n dup w gone =
        continue_Returns _ _
          (publish_to_Returns Gone self.dead_letter_publisher self.dead_letter_topic _ w
            h.publish_keeps gone)
          λ _ w1 gone1.
            continue_Returns _ _
              (commit_Returns Gone m w1 (λ errors w2 c. h.commit_keeps_gone m errors w1 w2 c gone1))
              λ _ w2 gone2. record { at = (λ d. absurd (cc), λ _. gone2) }

    recover_Returns :
        (m : Message) (payload : Json) (n : ℕ) (initial : Option Bool) (e : Exc)
        (retry : Eff W ProcessedKafkaRecord) (w : W)
        → ((w' : W) → Returns (retry w') Outcomes)
        → Returns (recover lib run self m payload event n initial e retry w) Outcomes
    recover_Returns m payload n initial e retry w again =
        if_Returns (can_retry lib run self e n) _ _ w (λ _. again _)
          λ _.
            if_Returns (is_some self.dead_letter_publisher) _ _ w
              (λ _.
                continue_Returns _ _
                  (Returns-of_ok (self.store.discard event.event_id w) (λ u w1 d. h.removed w w1 d))
                  λ _ w1 gone. dead_letter_Returns m payload e n (is_false initial) w1 gone)
              (λ _. record { at = tt })

    finish_Returns :
        (r : EventStoreResult) (w w' : W)
        → self.store.store event w ≡ ok r w'
        → Returns (finish_effects lib run self event r w') (λ _ w1. Done w1)
    finish_Returns r w w' s =
        if_Returns r.downstream_required _ _ w'
          (λ _. continue_Returns {P = λ _ _. Unit {0}} _ _ (Returns-of_ok _ (λ _ _ _. tt)) λ _ w1 _.
            Returns-of_ok (self.store.mark_completed event.event_id w1)
              (λ u w2 d. h.marked w1 w2 d))
          (λ none_open. record { at = h.stored r w w' s none_open })

    attempts_Returns :
        (m : Message) (payload : Json) (fuel n : ℕ) (initial : Option Bool) (w : W)
        → Returns (run_attempts lib run self m payload event fuel n initial w) Outcomes
    unfolding run_attempts
    attempts_Returns m payload zero n initial w = record { at = tt }
    attempts_Returns m payload (suc fuel) n initial w =
        attempt_Returns _ _ _ (Returns-of_ok (self.store.store event w) (λ r w1 s. s))
          (λ e w1.
            recover_Returns m payload (n + 1) initial e _ w1
              (attempts_Returns m payload fuel (n + 1) initial))
          λ r w1 s.
            attempt_Returns _ _ _ (finish_Returns r w w1 s)
              (λ e w2.
                recover_Returns m payload (n + 1) _ e _ w2
                  (attempts_Returns m payload fuel (n + 1) _))
              λ _ w2 done.
                continue_Returns _ _
                  (commit_Returns Done m w2
                    (λ errors w3 c. h.commit_keeps_done m errors w2 w3 c done))
                  λ _ w3 done3. record { at = (λ _. done3, λ d. absurd (cc)) }

    pub message_Returns :
        (m : Message) (payload : Json) (w : W)
        → decode_event lib m.payload ≡ value (payload, event)
        → Returns (handle_message lib run self m w) Outcomes
    unfolding handle_message
    message_Returns m payload w valid =
        if_Returns (is_some m.fault) _ _ w (λ _. record { at = tt })
          (λ _. rw valid (attempts_Returns m payload (attempt_fuel lib run self) 0 none w))
