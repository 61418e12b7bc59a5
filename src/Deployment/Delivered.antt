-- ===== src/Deployment/Delivered.antt =====
-- The first delivery of an event to a deployed consumer, when nothing fails.
use kafka_sqs.Base.{suc, ℕ, String, ◌≡◌, refl, false, Option, none, some, ◌∙◌}
use mathlib.Core.Path.{ap}
use kafka_sqs.Base.Int.{pos_part}
use kafka_sqs.Base.Text.{str_uuid}
use kafka_sqs.Base.Effect.{value, ok, Eff}
use kafka_sqs.Contracts.Event.{OrderCreatedEvent}
use kafka_sqs.Contracts.Json.{Json}
use kafka_sqs.Contracts.Libraries.{Libraries}
use kafka_sqs.Clients.{Runtime, Message}
use kafka_sqs.DeadLetter.{RetryPolicy}
use kafka_sqs.Postgres.{Server}
use kafka_sqs.Postgres.Transaction.{IsHealthy}
use kafka_sqs.OrderStore.Fresh.{
  Unknown, stored_db, completed_db, store_unknown, mark_completed_unknown,
}
use kafka_sqs.Consumer.{ConsumerSettings, ProcessedKafkaRecord, decode_event}
use kafka_sqs.Consumer.Process.{run_attempts, commit, handle_message, record_of, send_to}
use kafka_sqs.Deployment.{World, send_on_rest, put_rest, Surroundings, deployed}
use kafka_sqs.Deployment.Valid.{Commits, handle_message-run_attempts}

-- The downstream service, if there is one, accepts the event.
abbrev pub Accepts : {E : Type 0} → Surroundings E → OrderCreatedEvent → E → E → Type 0
Accepts s event before after = send_to s.downstream event before ≡ ok tt after

module _ {E : Type 0} where
  send_on_rest_ok :
      (downstream : Option (OrderCreatedEvent → Eff E (Unit {0}))) (event : OrderCreatedEvent)
      (w : World E) (rest' : E)
      → send_to downstream event w.rest ≡ ok tt rest'
      → send_to (send_on_rest downstream) event w ≡ ok tt (record w { rest = rest' })
  send_on_rest_ok none event w rest' h =
      let same : w.rest ≡ rest' = cc (h) in ap (λ rest. ok tt (record w { rest = rest })) same
  send_on_rest_ok (some send) event w rest' h = ap (put_rest w) h

module _ {E : Type 0} (lib : Libraries) (run : Runtime (World E)) (server : Server)
    (healthy : IsHealthy server) (settings : ConsumerSettings) (topic : String)
    (policy : RetryPolicy) (s : Surroundings E) where
  -- The record that a first delivery returns.
  abbrev pub delivered_of : Message → OrderCreatedEvent → ProcessedKafkaRecord
  delivered_of m event =
      record_of lib run (deployed server settings topic policy s) m (str_uuid event.event_id) false
        1 false

  attempts_delivered :
      (m : Message) (payload : Json) (event : OrderCreatedEvent) (fuel : ℕ) (w : World E)
      (rest1 rest2 : E) (u : Unknown event w.db.tables)
      → Accepts s event w.rest rest1
      → Commits s m rest1 rest2
      → run_attempts lib run
          (deployed server settings topic policy s)
          m
          payload
          event
          (suc fuel)
          0
          none
          w
        ≡ ok
            (delivered_of m event)
            (record { db = completed_db server healthy event w.db u; rest = rest2 })
  unfolding run_attempts commit
  attempts_delivered m payload event fuel w rest1 rest2 u accepted (errors, sent, clean) =
      rw (store_unknown server healthy event w.db u) (
        rw
          (send_on_rest_ok s.downstream event
            (record w { db = stored_db server healthy event w.db u }) rest1 accepted)
          (rw (mark_completed_unknown server healthy event w.db u) (rw sent (rw clean refl))))

  -- An event that neither table knows, whose amount and texts the columns take (the texts have no
  -- U+0000), is settled by its first delivery, of a record without a fault that decodes to it, if the
  -- server is healthy, the notified service accepts it and the commit succeeds: the
  -- call returns the record as new after one attempt, the tables have gained exactly the order and a
  -- completed claim, and the surroundings have seen the notification, if there is a service to
  -- notify, and then the commit.
  pub handle_message_delivers :
      (m : Message) (payload : Json) (event : OrderCreatedEvent) (w : World E) (rest1 rest2 : E)
      (u : Unknown event w.db.tables)
      → m.fault ≡ none
      → decode_event lib m.payload ≡ value (payload, event)
      → Accepts s event w.rest rest1
      → Commits s m rest1 rest2
      → handle_message lib run (deployed server settings topic policy s) m w
        ≡ ok
            (delivered_of m event)
            (record { db = completed_db server healthy event w.db u; rest = rest2 })
  handle_message_delivers m payload event w rest1 rest2 u good valid accepted sends =
      handle_message-run_attempts lib run server settings topic policy s m payload event w good
        valid
      ∙ attempts_delivered m payload event (pos_part policy.max_attempts) w rest1 rest2 u accepted
          sends
