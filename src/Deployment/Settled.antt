-- ===== src/Deployment/Settled.antt =====
-- What a settled Kafka record has left in PostgreSQL.
use kafka_sqs.Base.{String, ◌≡◌, true, false, not, Option, none, some, List, arith}
use kafka_sqs.Base.Lists.{any, select}
use kafka_sqs.Base.Select.{any-select_removed}
use kafka_sqs.Base.Effect.{value, Outcome, ok, raise, out_of_fuel, Eff}
use kafka_sqs.Contracts.Event.{Uuid, OrderCreatedEvent}
use kafka_sqs.Contracts.Json.{Json}
use kafka_sqs.Contracts.Libraries.{Libraries}
use kafka_sqs.Clients.{Runtime, Message}
use kafka_sqs.DeadLetter.{RetryPolicy, DeadLetterFailure}
use kafka_sqs.Postgres.{Server, Database}
use kafka_sqs.OrderStore.Rows.{Tables, OrderRow, ProcessedRow, has_id, has_source}
use kafka_sqs.OrderStore.{store, mark_completed, discard}
use kafka_sqs.OrderStore.Effects.{DiscardEffect, store_ok, mark_completed_ok, discard_ok}
use kafka_sqs.OrderStore.Idempotent.{Claims, StoreEffect-Claims, CompleteEffect-Claims}
use kafka_sqs.Consumer.{ConsumerSettings, ProcessedKafkaRecord, decode_event}
use kafka_sqs.Consumer.Process.{handle_message}
use kafka_sqs.Consumer.Settled.{Returns-ok, PublishKeeps, Establishes, message_Returns}
use kafka_sqs.Deployment.{
  World, put_db, on_db, put_rest, on_rest, publish_on_rest, Surroundings, deployed,
}

-- No row of the event is left in either table.
abbrev pub Absent : Uuid → Tables → Type 0
Absent id t =
    (os : List OrderRow) × (ps : List ProcessedRow) × (t.orders ≡ some os)
    × (t.processed_events ≡ some ps)
    × (any (has_source id) os ≡ false)
    × (any (has_id id) ps ≡ false)

DiscardEffect-Absent : (id : Uuid) (t t' : Tables) → DiscardEffect id t t' → Absent id t'
DiscardEffect-Absent id t t' (os, ps, eo, ep, e) = (
  select (λ row. not (has_source id row)) os,
  select (λ row. not (has_id id row)) ps,
  ground arith,
  ground arith,
  any-select_removed (has_source id) os,
  any-select_removed (has_id id) ps,
)

module _ {E A : Type 0} where
  pub on_db_ok :
      (m : Eff (Database Tables) A) (a : A) (w w' : World E)
      → on_db m w ≡ ok a w'
      → m w.db ≡ ok a w'.db
  on_db_ok m a w w' h = split (m w.db) h
    where
      split : (o : Outcome (Database Tables) A) → put_db w o ≡ ok a w' → o ≡ ok a w'.db
      split (ok b db) e = ground arith
      split (raise x db) e = absurd (cc)
      split out_of_fuel e = absurd (cc)

  pub on_rest_ok : (m : Eff E A) (a : A) (w w' : World E) → on_rest m w ≡ ok a w' → w'.db ≡ w.db
  on_rest_ok m a w w' h = split (m w.rest) h
    where
      split : (o : Outcome E A) → put_rest w o ≡ ok a w' → w'.db ≡ w.db
      split (ok b rest) e = ground arith
      split (raise x rest) e = absurd (cc)
      split out_of_fuel e = absurd (cc)

module _ {E : Type 0} (lib : Libraries) (run : Runtime (World E)) (server : Server)
    (settings : ConsumerSettings) (topic : String) (policy : RetryPolicy) (s : Surroundings E) where
  publish_keeps :
      (P : World E → Type 0)
      → ((w w' : World E) → w'.db ≡ w.db → P w → P w')
      → (publisher : Option (String → DeadLetterFailure → Eff E (Unit {0})))
      → PublishKeeps P (publish_on_rest publisher)
  publish_keeps P keeps none = tt
  publish_keeps P keeps (some f) =
      λ t failure w w' h p. keeps w w' (on_rest_ok (f t failure) tt w w' h) p

  store_Establishes :
      (event : OrderCreatedEvent)
      → Establishes
          (deployed server settings topic policy s)
          event
          (λ w. Claims event.event_id false w.db.tables)
          (λ w. Absent event.event_id w.db.tables)
  store_Establishes event = record {
    stored = λ r w w' h settled. rw settled at (
        StoreEffect-Claims _ event _ _ r
          (store_ok server event w.db w'.db r (on_db_ok (store server event) r w w' h)));
    marked = λ w w' h. CompleteEffect-Claims _ event.event_id _ _ (
        mark_completed_ok server event.event_id w.db w'.db
          (on_db_ok (mark_completed server event.event_id) tt w w' h));
    removed = λ w w' h. DiscardEffect-Absent event.event_id _ _ (
        discard_ok server event.event_id w.db w'.db
          (on_db_ok (discard server event.event_id) tt w w' h));
    publish_keeps = publish_keeps _ (λ w w' same p. rw same p) s.dead_letter_publisher;
    commit_keeps_done = λ m errors w w' h p. rw (on_rest_ok (s.consumer.commit m) errors w w' h) p;
    commit_keeps_gone = λ m errors w w' h p. rw (on_rest_ok (s.consumer.commit m) errors w w' h) p;
  }

  -- If the handling of a valid record returns, its event is completed in PostgreSQL, so that a later
  -- delivery of it does nothing; or the record is dead-lettered and no row of its event is left in
  -- either table, whatever was there before.
  pub handle_message_settles :
      (m : Message) (payload : Json) (event : OrderCreatedEvent) (w w' : World E)
      (r : ProcessedKafkaRecord)
      → decode_event lib m.payload ≡ value (payload, event)
      → handle_message lib run (deployed server settings topic policy s) m w ≡ ok r w'
      → (r.dead_lettered ≡ false → Claims event.event_id false w'.db.tables)
        × (r.dead_lettered ≡ true → Absent event.event_id w'.db.tables)
  handle_message_settles m payload event w w' r valid h =
      let returns =
        message_Returns lib run (deployed server settings topic policy s) event _ _
          (store_Establishes event) m payload w valid in
      Returns-ok returns r w' h
