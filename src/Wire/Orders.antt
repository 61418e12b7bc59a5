-- ===== src/Wire/Orders.antt =====
-- An order from the API to a consumer of the Kafka topic.
use kafka_sqs.Base.{String, ◌≡◌, refl, Bool, true, false, Option, none, some, if◌then◌else◌}
use mathlib.Core.Path.{sym, ap, subst, ◌∙◌}
use kafka_sqs.Base.Int.{ℤ}
use kafka_sqs.Base.Text.{is_empty}
use kafka_sqs.Base.Effect.{Reply, value, Outcome, ok, raise, out_of_fuel, pure, throw, attempt}
use kafka_sqs.Contracts.Event.{OrderCreatedEvent}
use kafka_sqs.Contracts.Factory.{or_text, make_order_created_event}
use kafka_sqs.Contracts.Json.{Json}
use kafka_sqs.Contracts.Libraries.{Libraries}
use kafka_sqs.Clients.{Runtime, Producer}
use kafka_sqs.Publishers.{Encoder, KafkaPublishReceipt, publish_to_kafka}
use kafka_sqs.Publishers.Acknowledged.{Published}
use kafka_sqs.Consumer.{decode_event}
use kafka_sqs.OrderApi.{
  CreateOrderRequest, CreateOrderResponse, accepted, refused, OrderApp, is_publish_error, data_of,
  accepted_for, publish_and_answer, create_order,
}
use kafka_sqs.OrderApi.Accepts.{or_text-Echoes, make_order_ok}
use kafka_sqs.Wire.{Decodes, ReadsBack}
use kafka_sqs.Wire.Kafka.{publish_to_kafka-decode_event}

module _ {W : Type 0} (lib : Libraries) (enc : Encoder) (producer : Producer W) (timeout : ℤ)
    (run : Runtime W) (check : OrderCreatedEvent → Reply (Unit {0}))
    (app : OrderApp W KafkaPublishReceipt) where
  -- The application of the Kafka publisher.
  abbrev pub over_kafka : OrderApp W KafkaPublishReceipt
  over_kafka = record app { publisher = publish_to_kafka lib enc producer timeout }

  -- The record of an accepted order and its event, acknowledged by the last call, and what a consumer
  -- decodes of it.
  pub record Arrives (order : CreateOrderRequest) (correlation : String)
      (body : CreateOrderResponse) (event : OrderCreatedEvent) (w' : W) : Type 0 where
    pub receipt : KafkaPublishReceipt
    pub before : W
    pub sent : Published lib enc producer timeout app.topic event receipt before w'
    pub wire : Json
    pub decoded : decode_event lib (some sent.payload) ≡ value (wire, event)
    pub carries : event.payload ≡ data_of run check over_kafka body.order_id order
    pub event_id : event.event_id ≡ body.event_id
    pub correlation_id : event.correlation_id ≡ correlation

  -- What create_order does before it publishes: the factories answer, and the event is made.
  pub record Made (order : CreateOrderRequest) (header : Option String) (correlation : String)
      (event : OrderCreatedEvent) (w v : W) : Type 0 where
    pub order_id : String
    pub causation : String
    pub w1 : W
    pub w2 : W
    pub w3 : W
    pub chosen : or_text header app.new_correlation_id w ≡ ok correlation w1
    pub numbered : app.new_order_id w1 ≡ ok order_id w2
    pub caused : app.new_causation_id w2 ≡ ok causation w3
    pub built :
        make_order_created_event run check
          (data_of run check over_kafka order_id order)
          none
          (some correlation)
          (some causation)
          none
          w3
        ≡ ok event v

  create_order-publish_and_answer :
      (order : CreateOrderRequest) (header : Option String) (c : String) (event : OrderCreatedEvent)
      (w v : W)
      → Made order header c event w v
      → create_order run check over_kafka order header w
        ≡ publish_and_answer run check over_kafka c event v
  unfolding create_order
  create_order-publish_and_answer order header c event w v made =
      rw made.chosen rw made.numbered rw made.caused rw made.built refl

  Answers_accepted-Arrives :
      (order : CreateOrderRequest) (header : Option String) (correlation : String)
      (event : OrderCreatedEvent) (body : CreateOrderResponse) (v w' : W)
      → event.payload ≡ data_of run check over_kafka body.order_id order
      → event.correlation_id ≡ correlation
      → event.event_id ≡ body.event_id
      → Decodes lib enc (enc.dumps_sorted_unicode (lib.model_dump event))
      → ReadsBack lib enc.dumps_sorted_unicode event
      → (receipt : KafkaPublishReceipt)
      → publish_to_kafka lib enc producer timeout app.topic event v ≡ ok receipt w'
      → Arrives order correlation body event w'
  Answers_accepted-Arrives order header correlation event body v w' carries named id text back
        receipt published =
      let (sent, decoded) =
        publish_to_kafka-decode_event lib enc event text back producer timeout app.topic receipt v
          w' published in
      record {
        receipt = receipt;
        before = v;
        sent = sent;
        wire = back.wire;
        decoded = decoded;
        carries = carries;
        event_id = id;
        correlation_id = named;
      }

  answer_accepted :
      (c correlation : String) (event : OrderCreatedEvent) (body : CreateOrderResponse)
      (o : Outcome W KafkaPublishReceipt) (w' : W)
      → attempt o
          (λ e.
            if is_publish_error e
            then pure (refused 503 "Order event could not be published.")
            else throw e)
          (λ _. pure (accepted_for run check over_kafka c event))
        ≡ ok (accepted correlation body) w'
      → (receipt : KafkaPublishReceipt) × (o ≡ ok receipt w')
        × (c ≡ correlation)
        × (event.payload.order_id ≡ body.order_id)
        × (event.event_id ≡ body.event_id)
  answer_accepted c correlation event body (ok receipt v) w' h = (receipt, cc, cc, cc, cc)
  answer_accepted c correlation event body out_of_fuel w' h = absurd (cc)
  answer_accepted c correlation event body (raise e v) w' h = absurd (failed (is_publish_error e) h)
    where
      failed :
          (b : Bool)
          → (if b then pure (refused 503 "Order event could not be published.") else throw e) v
            ≡ ok (accepted correlation body) w'
          → ⊥
      failed true g = cc
      failed false g = cc

  -- Where fresh correlation IDs are not empty: if POST /orders answers 202 over the Kafka publisher,
  -- and the libraries read back the event that it made, then its last call had a record acknowledged,
  -- and a consumer that is given the payload of that record decodes an event that carries the request
  -- under the order ID, the event ID and the correlation ID of the answer.
  pub create_order-Arrives :
      (order : CreateOrderRequest) (header : Option String) (c correlation : String)
      (event : OrderCreatedEvent) (body : CreateOrderResponse) (w v w' : W)
      → ((u u' : W) (s : String) → app.new_correlation_id u ≡ ok s u' → is_empty s ≡ false)
      → Decodes lib enc (enc.dumps_sorted_unicode (lib.model_dump event))
      → ReadsBack lib enc.dumps_sorted_unicode event
      → Made order header c event w v
      → create_order run check over_kafka order header w ≡ ok (accepted correlation body) w'
      → Arrives order correlation body event w'
  create_order-Arrives order header c correlation event body w v w' full text back made h =
      let (echo, nonempty) =
        or_text-Echoes header app.new_correlation_id c w made.w1 full made.chosen in
      let (same, carries, checks) =
        make_order_ok run check (data_of run check over_kafka made.order_id order) c made.causation
          event made.w3 v nonempty made.built in
      let answered = sym (create_order-publish_and_answer order header c event w v made) ∙ h in
      let (receipt, published, named, numbered, id) =
        answer_accepted c correlation event body _ w' answered in
      Answers_accepted-Arrives order header correlation event body v w'
        (subst (λ x. event.payload ≡ data_of run check over_kafka x order)
          (sym (ap (λ d. d.order_id) carries) ∙ numbered) carries)
        (same ∙ named) id text back receipt published
