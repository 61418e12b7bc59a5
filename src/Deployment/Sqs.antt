-- ===== src/Deployment/Sqs.antt =====
-- The SQS consumer put together with its PostgreSQL store: a message that is delivered again.
use kafka_sqs.Base.{ℕ, String, ◌≡◌, refl, ◌∙◌, Bool, true, false, List, ◌∷◌}
use mathlib.Core.Path.{subst, sym, ap}
use kafka_sqs.Base.Text.{str_uuid}
use kafka_sqs.Base.Effect.{value, ok, lift, continue, continue-eq-ok}
use kafka_sqs.Contracts.Event.{OrderCreatedEvent}
use kafka_sqs.Contracts.Libraries.{Libraries}
use kafka_sqs.Postgres.{Server}
use kafka_sqs.Postgres.Transaction.{IsHealthy}
use kafka_sqs.OrderStore.{store, mark_completed}
use kafka_sqs.OrderStore.Effects.{store_ok, mark_completed_ok}
use kafka_sqs.OrderStore.Lasting.{Passes, Passes-Claims}
use kafka_sqs.OrderStore.Idempotent.{
  Claims, store-Claims, StoreEffect-Claims, CompleteEffect-Claims,
}
use kafka_sqs.SqsConsumer.{
  SqsMessage, SqsClient, parse_body, complete_if, persist, process_first, process_one,
}
use kafka_sqs.Deployment.{World, put_rest, on_db, on_rest, deployed_sqs}
use kafka_sqs.Deployment.Settled.{on_db_ok, on_rest_ok}

module _ {E : Type 0} (lib : Libraries) (queue_url : String) (client : SqsClient E) where
  module _ (server : Server) where
    complete_if-Claims :
        (event : OrderCreatedEvent) (required : Bool) (w w' : World E)
        → Claims event.event_id required w.db.tables
        → complete_if lib (deployed_sqs server queue_url client) required event w ≡ ok tt w'
        → Claims event.event_id false w'.db.tables
    complete_if-Claims event true w w' claims h = CompleteEffect-Claims _ event.event_id _ _ (
        mark_completed_ok server event.event_id w.db w'.db
          (on_db_ok (mark_completed server event.event_id) tt w w' h))
    complete_if-Claims event false w w' claims h =
        let same : w ≡ w' = cc (h) in
        subst (λ v. Claims event.event_id false v.db.tables) same claims

    persist-Claims :
        (message : SqsMessage) (event : OrderCreatedEvent) (id : String) (w w' : World E)
        → persist lib (deployed_sqs server queue_url client) message event w ≡ ok id w'
        → Claims event.event_id false w'.db.tables
    persist-Claims message event id w w' h =
        let (r, w1, stored, h1) = continue-eq-ok (on_db (store server event) w) _ h in
        let (u, w2, completed, h2) =
          continue-eq-ok
            (complete_if lib (deployed_sqs server queue_url client) r.downstream_required event w1)
            _ h1 in
        let (v, w3, deleted, h3) =
          continue-eq-ok (on_rest (client.delete_message queue_url message.receipt_handle) w2) _
            h2 in
        let last : w3 ≡ w' = cc (h3) in
        let claims =
          StoreEffect-Claims _ event _ _ r
            (store_ok server event w.db w1.db r (on_db_ok (store server event) r w w1 stored)) in
        let done = complete_if-Claims event r.downstream_required w1 w2 claims completed in
        subst (λ x. Claims event.event_id false x.db.tables) last
          (rw (on_rest_ok (client.delete_message queue_url message.receipt_handle) v w2 w3 deleted)
            done)

    -- The message that was received is the one that is persisted.
    process_one-persist :
        (n : ℕ) (message : SqsMessage) (others : List SqsMessage) (event : OrderCreatedEvent)
        (w : World E) (v : E)
        → client.receive_message queue_url n w.rest ≡ ok (message ∷ others) v
        → parse_body lib message.body ≡ value event
        → process_one lib (deployed_sqs server queue_url client) n w
          ≡ persist lib (deployed_sqs server queue_url client) message event (record w { rest = v })
    unfolding process_one
    process_one-persist n message others event w v received parsed =
        ap (λ o. continue (put_rest w o) (process_first lib (deployed_sqs server queue_url client)))
          received
        ∙ ap
            (λ r.
              continue (lift r (record w { rest = v }))
                (persist lib (deployed_sqs server queue_url client) message))
            parsed

  module _ (server : Server) (healthy : IsHealthy server) where
    persist_duplicate :
        (message : SqsMessage) (event : OrderCreatedEvent) (w : World E) (rest' : E)
        → Claims event.event_id false w.db.tables
        → client.delete_message queue_url message.receipt_handle w.rest ≡ ok tt rest'
        → (w' : World E) × (persist lib (deployed_sqs server queue_url client) message event w
            ≡ ok (str_uuid event.event_id) w')
          × (w'.db.tables ≡ w.db.tables)
          × (w'.rest ≡ rest')
    persist_duplicate message event w rest' claims deleted =
        let (db', stored, same) = store-Claims server healthy event false w.db claims in
        (record { db = db'; rest = rest' }, rw stored (rw deleted refl), same, refl)

    -- If the SQS consumer returned after it received a message of an event, at whatever server, then a
    -- healthy server recognises a later delivery of that event, whatever calls any workers have made
    -- at the tables in between, if none of them was a discard of that event: if the message is
    -- received and its deletion succeeds, the call returns the same identity, changes no row, and does
    -- nothing to the queue but these two calls.
    pub process_one-process_one :
        (first : Server) (n0 n : ℕ) (m0 m : SqsMessage) (l0 l : List SqsMessage)
        (event : OrderCreatedEvent) (w0 w1 w : World E) (v0 v rest' : E) (id : String)
        → client.receive_message queue_url n0 w0.rest ≡ ok (m0 ∷ l0) v0
        → parse_body lib m0.body ≡ value event
        → process_one lib (deployed_sqs first queue_url client) n0 w0 ≡ ok id w1
        → Passes event.event_id w1.db.tables w.db.tables
        → client.receive_message queue_url n w.rest ≡ ok (m ∷ l) v
        → parse_body lib m.body ≡ value event
        → client.delete_message queue_url m.receipt_handle v ≡ ok tt rest'
        → (w' : World E) × (process_one lib (deployed_sqs server queue_url client) n w
            ≡ ok (str_uuid event.event_id) w')
          × (w'.db.tables ≡ w.db.tables)
          × (w'.rest ≡ rest')
    process_one-process_one first n0 n m0 m l0 l event w0 w1 w v0 v rest' id received0 parsed0 h
          passes received parsed deleted =
        let persisted =
          sym (process_one-persist first n0 m0 l0 event w0 v0 received0 parsed0) ∙ h in
        let settled = persist-Claims first m0 event id (record w0 { rest = v0 }) w1 persisted in
        let claims = Passes-Claims event.event_id passes settled in
        let (w', again, same, after) =
          persist_duplicate m event (record w { rest = v }) rest' claims deleted in
        (w', process_one-persist server n m l event w v received parsed ∙ again, same, after)
