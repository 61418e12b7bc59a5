-- ===== src/Consumer/Log.antt =====
-- One partition as the consumer sees it, and what a run of the consumer may rely on at it.
pub mod Handled
pub mod Session
pub mod Progress
use kafka_sqs.Base.{ℕ, suc, ◌≤◌, ◌<◌, ◌≡◌, ◌≢◌, ◌⊎◌, false, Option, none, some, List}
use kafka_sqs.Base.Int.{ℤ}
use kafka_sqs.Base.Lists.{any}
use kafka_sqs.Base.Effect.{value}
use kafka_sqs.Contracts.Event.{Uuid, OrderCreatedEvent}
use kafka_sqs.Contracts.Json.{Json}
use kafka_sqs.Contracts.Libraries.{Libraries}
use kafka_sqs.Clients.{Runtime, Message}
use kafka_sqs.DeadLetter.{DeadLetterFailure}
use kafka_sqs.OrderStore.{EventStoreResult}
use kafka_sqs.Consumer.{KafkaOrderConsumer, is_some, decode_event}
use kafka_sqs.Consumer.Process.{publish_to, send_to}
use kafka_sqs.Consumer.Count.{Leaves}

-- `position` is the offset of the record that the next poll gives, and `committed` the offset of the
-- consumer's group. `Settled i` says that the record at offset `i` has been dealt with, `Completed id`
-- that the event is completed, and `Apart id i` that whatever is done to the event leaves the record
-- at `i` settled if it is.
pub record Partition (W : Type 0) : Type 1 where
  pub position : W → ℕ
  pub committed : W → ℕ
  pub Settled : ℕ → W → Type 0
  pub Completed : Uuid → W → Type 0
  pub Apart : Uuid → ℕ → Type 0

module _ {W : Type 0} (p : Partition W) where
  -- Neither offset has moved, and what was settled of the records in `P` still is.
  pub record Steady (P : ℕ → Type 0) (w w' : W) : Type 0 where
    pub at : p.position w' ≡ p.position w
    pub group : p.committed w' ≡ p.committed w
    pub keeps : (i : ℕ) → P i → p.Settled i w → p.Settled i w'

  abbrev pub Any : ℕ → Type 0
  Any i = Unit {0}

  -- The record is the one at its offset: every earlier one is apart from its event, and it is settled
  -- once its event is completed.
  pub record IsNext (lib : Libraries) (m : Message) : Type 0 where
    pub apart :
        (payload : Json) (event : OrderCreatedEvent)
        → decode_event lib m.payload ≡ value (payload, event)
        → (i : ℕ) → i < m.offset
        → p.Apart event.event_id i
    pub settles :
        (payload : Json) (event : OrderCreatedEvent) (w : W)
        → decode_event lib m.payload ≡ value (payload, event)
        → p.Completed event.event_id w
        → p.Settled m.offset w

  -- A poll gives the record at the position and moves on, or it moves nothing.
  abbrev pub Polled : Libraries → W → Option Message → W → Type 0
  Polled lib w none w' = Steady Any w w'
  Polled lib w (some m) w' =
      ((m.fault ≡ none)
        × IsNext lib m
        × (m.offset ≡ p.position w)
        × (p.position w' ≡ suc m.offset)
        × (p.committed w' ≡ p.committed w)
        × ((i : ℕ) → p.Settled i w → p.Settled i w'))
      ⊎ ((m.fault ≢ none) × Steady Any w w')

  -- A commit may move the group behind the record, also when it raises or reports an error.
  pub record Committed (m : Message) (w w' : W) : Type 0 where
    pub at : p.position w' ≡ p.position w
    pub group : (p.committed w' ≡ p.committed w) ⊎ (p.committed w' ≡ suc m.offset)
    pub keeps : (i : ℕ) → p.Settled i w → p.Settled i w'

  -- What the calls of the consumer's clients do to the partition.
  pub record Serves (lib : Libraries) (run : Runtime W) (self : KafkaOrderConsumer W) : Type 0 where
    pub polls :
        (timeout : ℤ) (w : W) → Leaves (self.consumer.poll timeout w) (Polled lib w) (Steady Any w)
    pub commits :
        (m : Message) (w : W)
        → Leaves
            (self.consumer.commit m w)
            (λ errors w'.
              Committed m w w' × (any is_some errors ≡ false → p.committed w' ≡ suc m.offset))
            (Committed m w)
    pub stores :
        (event : OrderCreatedEvent) (w : W)
        → Leaves
            (self.store.store event w)
            (λ r w'.
              Steady (p.Apart event.event_id) w w'
              × (r.downstream_required ≡ false → p.Completed event.event_id w'))
            (Steady (p.Apart event.event_id) w)
    pub marks :
        (id : Uuid) (w : W)
        → Leaves
            (self.store.mark_completed id w)
            (λ _ w'. Steady (p.Apart id) w w' × p.Completed id w')
            (Steady (p.Apart id) w)
    pub discards :
        (id : Uuid) (w : W)
        → Leaves (self.store.discard id w) (λ _. Steady (p.Apart id) w) (Steady (p.Apart id) w)
    pub sends :
        (event : OrderCreatedEvent) (w : W)
        → Leaves (send_to self.downstream event w) (λ _. Steady Any w) (Steady Any w)
    pub publishes :
        (failure : DeadLetterFailure) (w : W)
        → Leaves
            (publish_to self.dead_letter_publisher self.dead_letter_topic failure w)
            (λ _ w'. Steady Any w w' × p.Settled failure.source_offset w')
            (Steady Any w)
    pub waits : (d : ℤ) (w : W) → Steady Any w (run.wait d w)
    pub ticks : (w : W) → Steady Any w (run.monotonic w).1

  -- Every record before the position is settled, and the group is not beyond it.
  pub record IsSafe (w : W) : Type 0 where
    pub settled : (i : ℕ) → i < p.position w → p.Settled i w
    pub behind : p.committed w ≤ p.position w

  -- The record at `k` has been given, and every record before it is settled.
  pub record IsOpen (k : ℕ) (w : W) : Type 0 where
    pub at : p.position w ≡ suc k
    pub settled : (i : ℕ) → i < k → p.Settled i w
    pub behind : p.committed w ≤ k
