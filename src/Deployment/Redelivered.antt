-- ===== src/Deployment/Redelivered.antt =====
-- A later delivery of an event that a deployed consumer has settled.
use kafka_sqs.Base.{ℕ, suc, String, ◌≡◌, refl, true, false, none, ◌∙◌}
use kafka_sqs.Base.Int.{pos_part}
use kafka_sqs.Base.Text.{str_uuid}
use kafka_sqs.Base.Effect.{value, ok}
use kafka_sqs.Contracts.Event.{OrderCreatedEvent}
use kafka_sqs.Contracts.Json.{Json}
use kafka_sqs.Contracts.Libraries.{Libraries}
use kafka_sqs.Clients.{Runtime, Message}
use kafka_sqs.DeadLetter.{RetryPolicy}
use kafka_sqs.Postgres.{Server}
use kafka_sqs.Postgres.Transaction.{IsHealthy}
use kafka_sqs.OrderStore.Lasting.{Passes, Passes-Claims}
use kafka_sqs.OrderStore.Idempotent.{Claims, store-Claims}
use kafka_sqs.Consumer.{ConsumerSettings, ProcessedKafkaRecord, decode_event}
use kafka_sqs.Consumer.Process.{run_attempts, commit, handle_message, record_of}
use kafka_sqs.Deployment.{World, Surroundings, deployed}
use kafka_sqs.Deployment.Valid.{Commits, handle_message-run_attempts}
use kafka_sqs.Deployment.Settled.{handle_message_settles}

module _ {E : Type 0} (lib : Libraries) (run : Runtime (World E)) (server : Server)
    (healthy : IsHealthy server) (settings : ConsumerSettings) (topic : String)
    (policy : RetryPolicy) (s : Surroundings E) where
  -- The record that a duplicate delivery returns.
  abbrev pub duplicate_of : Message → OrderCreatedEvent → ProcessedKafkaRecord
  duplicate_of m event =
      record_of lib run (deployed server settings topic policy s) m (str_uuid event.event_id) true 1
        false

  attempts_duplicate :
      (m : Message) (payload : Json) (event : OrderCreatedEvent) (fuel : ℕ) (w : World E)
      (rest' : E)
      → Claims event.event_id false w.db.tables
      → Commits s m w.rest rest'
      → (w' : World E) × (run_attempts lib run
            (deployed server settings topic policy s)
            m
            payload
            event
            (suc fuel)
            0
            none
            w
          ≡ ok (duplicate_of m event) w')
        × (w'.db.tables ≡ w.db.tables)
        × (w'.rest ≡ rest')
  unfolding run_attempts commit
  attempts_duplicate m payload event fuel w rest' claims (errors, sent, clean) =
      let (db', stored, same) = store-Claims server healthy event false w.db claims in
      (record { db = db'; rest = rest' }, rw stored (rw sent (rw clean refl)), same, refl)

  handle_duplicate :
      (m : Message) (payload : Json) (event : OrderCreatedEvent) (w : World E) (rest' : E)
      → m.fault ≡ none
      → decode_event lib m.payload ≡ value (payload, event)
      → Claims event.event_id false w.db.tables
      → Commits s m w.rest rest'
      → (w' : World E) × (handle_message lib run (deployed server settings topic policy s) m w
          ≡ ok (duplicate_of m event) w')
        × (w'.db.tables ≡ w.db.tables)
        × (w'.rest ≡ rest')
  handle_duplicate m payload event w rest' good valid claims sends =
      let (w', h, same, after) =
        attempts_duplicate m payload event (pos_part policy.max_attempts) w rest' claims sends in
      (
        w',
        handle_message-run_attempts lib run server settings topic policy s m payload event w good
              valid
            ∙ h,
        same,
        after,
      )

  -- If the handling of a valid record returned without dead-lettering it, at whatever server, then a
  -- healthy server recognises a later delivery of its event, whatever calls any workers have made at
  -- the tables in between, if none of them was a discard of that event: if the commit of the delivery
  -- succeeds, it returns as a duplicate after one attempt, changes no row, and does nothing to the
  -- brokers and the notified service but that commit.
  pub handle_message-handle_message :
      (first : Server) (m0 m : Message) (payload0 payload : Json) (event : OrderCreatedEvent)
      (w0 w1 w : World E) (r : ProcessedKafkaRecord) (rest' : E)
      → decode_event lib m0.payload ≡ value (payload0, event)
      → handle_message lib run (deployed first settings topic policy s) m0 w0 ≡ ok r w1
      → r.dead_lettered ≡ false
      → Passes event.event_id w1.db.tables w.db.tables
      → m.fault ≡ none
      → decode_event lib m.payload ≡ value (payload, event)
      → Commits s m w.rest rest'
      → (w' : World E) × (handle_message lib run (deployed server settings topic policy s) m w
          ≡ ok (duplicate_of m event) w')
        × (w'.db.tables ≡ w.db.tables)
        × (w'.rest ≡ rest')
  handle_message-handle_message first m0 m payload0 payload event w0 w1 w r rest' valid0 h alive
        passes good valid sends =
      let settled =
        handle_message_settles lib run first settings topic policy s m0 payload0 event w0 w1 r
          valid0 h in
      let claims = Passes-Claims event.event_id passes (settled.0 alive) in
      handle_duplicate m payload event w rest' good valid claims sends
