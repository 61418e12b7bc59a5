-- ===== src/Deployment/Partition.antt =====
-- One partition of the topic of a deployed consumer: what is relied on in the brokers, the notified
-- service and the clock, and what is settled of a record.
pub mod AtLeastOnce
use kafka_sqs.Base.{ℕ, suc, ◌<◌, ◌≡◌, ◌≢◌, ◌⊎◌, Bool, true, false, Option, none, some, List, ◌==◌}
use kafka_sqs.Base.Int.{ℤ}
use kafka_sqs.Base.Lists.{any}
use kafka_sqs.Base.Effect.{value}
use kafka_sqs.Contracts.Event.{Uuid, OrderCreatedEvent}
use kafka_sqs.Contracts.Json.{Json}
use kafka_sqs.Contracts.Libraries.{Libraries}
use kafka_sqs.Clients.{Runtime, Message}
use kafka_sqs.DeadLetter.{DeadLetterFailure}
use kafka_sqs.OrderStore.Rows.{Tables}
use kafka_sqs.OrderStore.Idempotent.{Claims}
use kafka_sqs.Consumer.{is_some, decode_event}
use kafka_sqs.Consumer.Process.{publish_to, send_to}
use kafka_sqs.Consumer.Count.{Leaves}
use kafka_sqs.Consumer.Log.{Partition}
use kafka_sqs.Deployment.{World, Surroundings}

-- The topic's partition and the group's offset in it; the event of the valid record at each offset;
-- and which records have an acknowledged dead-letter record.
pub record Topic (E : Type 0) : Type 1 where
  pub position : E → ℕ
  pub committed : E → ℕ
  pub event_at : ℕ → Option Uuid
  pub DeadLettered : ℕ → E → Type 0

-- A clock of the surroundings.
abbrev pub runtime_on_rest : {E : Type 0} → Runtime E → Runtime (World E)
runtime_on_rest run = record {
  monotonic = λ w. let (a, rest) = run.monotonic w.rest in (a, record w { rest = rest });
  uuid4 = λ w. let (a, rest) = run.uuid4 w.rest in (a, record w { rest = rest });
  utc_now = λ w. let (a, rest) = run.utc_now w.rest in (a, record w { rest = rest });
  wait = λ d w. record w { rest = run.wait d w.rest };
}

-- The record does not carry the event.
abbrev pub Differs : Uuid → Option Uuid → Type 0
Differs id none = Unit {0}
Differs id (some other) = (id == other) ≡ false

-- The event is completed in PostgreSQL.
abbrev pub CompletedIn : Option Uuid → Tables → Type 0
CompletedIn none tables = ⊥
CompletedIn (some id) tables = Claims id false tables

module _ {E : Type 0} (t : Topic E) where
  -- A later record of the partition carries the event of this one: deliveries may be duplicates.
  abbrev pub Repeated : ℕ → Type 0
  Repeated i = (j : ℕ) × (id : Uuid) × (i < j) × (t.event_at i ≡ some id) × (t.event_at j ≡ some id)

  -- A record is settled if its event is completed or its dead-letter record acknowledged. For a record
  -- whose event comes again, that is asked of the later one.
  abbrev pub partition : Partition (World E)
  partition = record {
    position = λ w. t.position w.rest;
    committed = λ w. t.committed w.rest;
    Settled = λ i w. CompletedIn (t.event_at i) w.db.tables ⊎ t.DeadLettered i w.rest ⊎ Repeated i;
    Completed = λ id w. Claims id false w.db.tables;
    Apart = λ id i. Differs id (t.event_at i) ⊎ Repeated i;
  }

  -- Neither offset has moved, and dead-letter records stay.
  pub record Stays (e e' : E) : Type 0 where
    pub at : t.position e' ≡ t.position e
    pub group : t.committed e' ≡ t.committed e
    pub keeps : (i : ℕ) → t.DeadLettered i e → t.DeadLettered i e'

  -- The record at the position, behind which the position is now.
  pub record Gives (lib : Libraries) (m : Message) (e e' : E) : Type 0 where
    pub sound : m.fault ≡ none
    pub own : m.offset ≡ t.position e
    pub names :
        (payload : Json) (event : OrderCreatedEvent)
        → decode_event lib m.payload ≡ value (payload, event)
        → t.event_at m.offset ≡ some event.event_id
    pub moved : t.position e' ≡ suc m.offset
    pub group : t.committed e' ≡ t.committed e
    pub keeps : (i : ℕ) → t.DeadLettered i e → t.DeadLettered i e'

  abbrev pub PolledFrom : Libraries → E → Option Message → E → Type 0
  PolledFrom lib e none e' = Stays e e'
  PolledFrom lib e (some m) e' = Gives lib m e e' ⊎ ((m.fault ≢ none) × Stays e e')

  pub record CommittedFrom (m : Message) (e e' : E) : Type 0 where
    pub at : t.position e' ≡ t.position e
    pub group : (t.committed e' ≡ t.committed e) ⊎ (t.committed e' ≡ suc m.offset)
    pub keeps : (i : ℕ) → t.DeadLettered i e → t.DeadLettered i e'

  -- What is relied on: a poll gives the record at the position or none; only polls and commits move
  -- the offsets, a commit to behind its record; and what is published for a record is its dead-letter
  -- record.
  pub record Provides (lib : Libraries) (run : Runtime E) (s : Surroundings E) : Type 0 where
    pub polls :
        (timeout : ℤ) (e : E) → Leaves (s.consumer.poll timeout e) (PolledFrom lib e) (Stays e)
    pub commits :
        (m : Message) (e : E)
        → Leaves
            (s.consumer.commit m e)
            (λ errors e'.
              CommittedFrom m e e' × (any is_some errors ≡ false → t.committed e' ≡ suc m.offset))
            (CommittedFrom m e)
    pub sends :
        (event : OrderCreatedEvent) (e : E)
        → Leaves (send_to s.downstream event e) (λ _. Stays e) (Stays e)
    pub publishes :
        (failure : DeadLetterFailure) (e : E)
        → Leaves
            (publish_to s.dead_letter_publisher s.dead_letter_topic failure e)
            (λ _ e'. Stays e e' × t.DeadLettered failure.source_offset e')
            (Stays e)
    pub waits : (d : ℤ) (e : E) → Stays e (run.wait d e)
    pub ticks : (e : E) → Stays e (run.monotonic e).1
