-- ===== src/SqsConsumer/Deletes.antt =====
-- When the SQS consumer deletes a message.
use kafka_sqs.Base.{ℕ, String, ◌≡◌, refl, inl, inr, Bool, true, false, List, [], ◌∷◌}
use mathlib.Core.Path.{subst}
use kafka_sqs.Base.Text.{str_uuid}
use kafka_sqs.Base.Effect.{
  Exc, Reply, value, error, ok, raise, continue, lift, continue-eq-ok, continue-eq-raise,
}
use kafka_sqs.Contracts.Event.{OrderCreatedEvent}
use kafka_sqs.Contracts.Libraries.{Libraries}
use kafka_sqs.OrderStore.{EventStoreResult}
use kafka_sqs.SqsConsumer.{
  SqsMessage, SqsOrderConsumer, timeout_error, parse_body, complete_if, persist, process_first,
  process_one,
}

module _ {W : Type 0} (lib : Libraries) (self : SqsOrderConsumer W) where
  -- The calls of a run that returned `id`: an event was parsed and stored, completed if its work was
  -- open, and only then its message deleted.
  pub record Persisted (id : String) (w' : W) : Type 0 where
    pub message : SqsMessage
    pub event : OrderCreatedEvent
    pub result : EventStoreResult
    pub before : W
    pub after_store : W
    pub after_mark : W
    pub parses : parse_body lib message.body ≡ value event
    pub stores : self.store.store event before ≡ ok result after_store
    pub completes :
        complete_if lib self result.downstream_required event after_store ≡ ok tt after_mark
    pub deletes :
        self.client.delete_message self.queue_url message.receipt_handle after_mark ≡ ok tt w'
    pub names : id ≡ str_uuid event.event_id

  persist_ok :
      (message : SqsMessage) (event : OrderCreatedEvent) (id : String) (w w' : W)
      → parse_body lib message.body ≡ value event
      → persist lib self message event w ≡ ok id w'
      → Persisted id w'
  persist_ok message event id w w' parsed h =
      let (r, w1, stored, h1) = continue-eq-ok (self.store.store event w) _ h in
      let (u, w2, completed, h2) =
        continue-eq-ok (complete_if lib self r.downstream_required event w1) _ h1 in
      let (v, w3, deleted, h3) =
        continue-eq-ok (self.client.delete_message self.queue_url message.receipt_handle w2) _ h2 in
      let last : w3 ≡ w' = cc (h3) in
      record {
        message = message;
        event = event;
        result = r;
        before = w;
        after_store = w1;
        after_mark = w2;
        parses = parsed;
        stores = stored;
        completes = completed;
        deletes = rw last at deleted;
        names = cc (h3);
      }

  first_ok :
      (messages : List SqsMessage) (id : String) (w w' : W)
      → process_first lib self messages w ≡ ok id w'
      → Persisted id w'
  first_ok [] id w w' h = absurd (cc)
  first_ok (message ∷ rest) id w w' h = parsed (parse_body lib message.body) refl h
    where
      parsed :
          (r : Reply OrderCreatedEvent)
          → parse_body lib message.body ≡ r
          → continue (lift r w) (persist lib self message) ≡ ok id w'
          → Persisted id w'
      parsed (value event) e g = persist_ok message event id w w' e g
      parsed (error x) e g = absurd (cc)

  -- A call of `process_one` that returns has stored the event of its message, completed it if its
  -- work was open, and then deleted that message as its last call; it returns the event's identity.
  pub process_one_ok :
      (wait_seconds : ℕ) (id : String) (w w' : W)
      → process_one lib self wait_seconds w ≡ ok id w'
      → Persisted id w'
  unfolding process_one
  process_one_ok n id w w' h =
      let (messages, w1, received, h1) =
        continue-eq-ok (self.client.receive_message self.queue_url n w) _ h in
      first_ok messages id w1 w' h1

  -- The calls of a run that raised `e`: each returned but the last, which raised. Only the last kind
  -- of run has called delete_message, after the event was stored and completed, if its work was open.
  pub data Undeleted (wait_seconds : ℕ) (e : Exc) (w w' : W) : Type 0 where
    receive_failed :
        self.client.receive_message self.queue_url wait_seconds w ≡ raise e w'
        → Undeleted wait_seconds e w w'
    no_message :
        self.client.receive_message self.queue_url wait_seconds w ≡ ok [] w'
        → e ≡ timeout_error
        → Undeleted wait_seconds e w w'
    no_event :
        (message : SqsMessage) (others : List SqsMessage)
        → self.client.receive_message self.queue_url wait_seconds w ≡ ok (message ∷ others) w'
        → parse_body lib message.body ≡ error e
        → Undeleted wait_seconds e w w'
    store_failed :
        (message : SqsMessage) (others : List SqsMessage) (event : OrderCreatedEvent) (w1 : W)
        → self.client.receive_message self.queue_url wait_seconds w ≡ ok (message ∷ others) w1
        → parse_body lib message.body ≡ value event
        → self.store.store event w1 ≡ raise e w'
        → Undeleted wait_seconds e w w'
    mark_failed :
        (message : SqsMessage) (others : List SqsMessage) (event : OrderCreatedEvent)
        (result : EventStoreResult) (w1 w2 : W)
        → self.client.receive_message self.queue_url wait_seconds w ≡ ok (message ∷ others) w1
        → parse_body lib message.body ≡ value event
        → self.store.store event w1 ≡ ok result w2
        → result.downstream_required ≡ true
        → self.store.mark_completed event.event_id w2 ≡ raise e w'
        → Undeleted wait_seconds e w w'
    delete_failed :
        (message : SqsMessage) (others : List SqsMessage) (event : OrderCreatedEvent)
        (result : EventStoreResult) (w1 w2 w3 : W)
        → self.client.receive_message self.queue_url wait_seconds w ≡ ok (message ∷ others) w1
        → parse_body lib message.body ≡ value event
        → self.store.store event w1 ≡ ok result w2
        → complete_if lib self result.downstream_required event w2 ≡ ok tt w3
        → self.client.delete_message self.queue_url message.receipt_handle w3 ≡ raise e w'
        → Undeleted wait_seconds e w w'

  complete_if_raise :
      (required : Bool) (event : OrderCreatedEvent) (e : Exc) (w w' : W)
      → complete_if lib self required event w ≡ raise e w'
      → (required ≡ true) × (self.store.mark_completed event.event_id w ≡ raise e w')
  complete_if_raise true event e w w' h = (refl, h)
  complete_if_raise false event e w w' h = absurd (cc)

  persist_raise :
      (n : ℕ) (message : SqsMessage) (others : List SqsMessage) (event : OrderCreatedEvent)
      (e : Exc) (w w1 w' : W)
      → self.client.receive_message self.queue_url n w ≡ ok (message ∷ others) w1
      → parse_body lib message.body ≡ value event
      → persist lib self message event w1 ≡ raise e w'
      → Undeleted n e w w'
  persist_raise n message others event e w w1 w' received parsed h =
      elim (continue-eq-raise (self.store.store event w1) _ h) [
        | inl failed ↦ store_failed message others event w1 received parsed failed
        | inr (r, w2, stored, h1) ↦
            elim (continue-eq-raise (complete_if lib self r.downstream_required event w2) _ h1) [
              | inl failed ↦
                  let (owed, raised) =
                    complete_if_raise r.downstream_required event e w2 w' failed in
                  mark_failed message others event r w1 w2 received parsed stored owed raised
              | inr (u, w3, completed, h2) ↦
                  elim (continue-eq-raise
                    (self.client.delete_message self.queue_url message.receipt_handle w3) _ h2) [
                      | inl failed ↦
                          delete_failed message others event r w1 w2 w3 received parsed stored
                            completed failed
                      | inr (v, w4, deleted, h3) ↦ absurd (cc)
                    ]
            ]
      ]

  first_raise :
      (n : ℕ) (messages : List SqsMessage) (e : Exc) (w w1 w' : W)
      → self.client.receive_message self.queue_url n w ≡ ok messages w1
      → process_first lib self messages w1 ≡ raise e w'
      → Undeleted n e w w'
  first_raise n [] e w w1 w' received h =
      let same : w1 ≡ w' = cc (h) in
      no_message
        (subst (λ x. self.client.receive_message self.queue_url n w ≡ ok [] x) same received)
        (cc (h))
  first_raise n (message ∷ others) e w w1 w' received h =
      parsed (parse_body lib message.body) refl h
    where
      parsed :
          (r : Reply OrderCreatedEvent)
          → parse_body lib message.body ≡ r
          → continue (lift r w1) (persist lib self message) ≡ raise e w'
          → Undeleted n e w w'
      parsed (value event) p g = persist_raise n message others event e w w1 w' received p g
      parsed (error x) p g =
          let same : w1 ≡ w' = cc (g) in
          let thrown : x ≡ e = cc (g) in
          no_event message others
            (subst (λ y. self.client.receive_message self.queue_url n w ≡ ok (message ∷ others) y)
              same received)
            (subst (λ y. parse_body lib message.body ≡ error y) thrown p)

  -- A call of `process_one` that raises has deleted nothing, unless the raise is that of the deletion:
  -- it raised what its first failing step raised. That is the receipt; the TimeoutError of an empty
  -- answer; the parsing of the first message; its store; its completion, if its work was open; or,
  -- after all of these returned, the deletion of that message, which is the last call.
  pub process_one_raise :
      (wait_seconds : ℕ) (e : Exc) (w w' : W)
      → process_one lib self wait_seconds w ≡ raise e w'
      → Undeleted wait_seconds e w w'
  unfolding process_one
  process_one_raise n e w w' h =
      elim (continue-eq-raise (self.client.receive_message self.queue_url n w) _ h) [
        | inl failed ↦ receive_failed failed
        | inr (messages, w1, received, h1) ↦ first_raise n messages e w w1 w' received h1
      ]
