-- ===== src/EventPublisher/Orders.antt =====
-- The order API over a publisher that keeps the promise of EventPublisher.
use kafka_sqs.Base.{
  String, ◌≡◌, refl, ◌⊎◌, inl, inr, Bool, true, false, Option, none, some, if◌then◌else◌,
}
use mathlib.Core.Path.{subst}
use kafka_sqs.Base.Text.{is_blank}
use kafka_sqs.Base.Effect.{
  Exc, is_instance, Reply, value, error, Outcome, ok, raise, out_of_fuel, Eff, pure, throw, attempt,
  continue-eq-raise,
}
use kafka_sqs.Contracts.Event.{OrderCreatedEvent}
use kafka_sqs.Contracts.Factory.{or_text, make_order_created_event}
use kafka_sqs.Contracts.Libraries.{Libraries}
use kafka_sqs.Contracts.Validation.{validate_event}
use kafka_sqs.Clients.{Runtime}
use kafka_sqs.Publishers.{event_publish_error}
use kafka_sqs.OrderApi.{
  CreateOrderRequest, Answer, refused, OrderApp, is_publish_error, data_of, accepted_for,
  create_order,
}
use kafka_sqs.EventPublisher.{Promised, EventPublisher}

pub publish_error_is_caught : is_publish_error event_publish_error ≡ true
unfolding is_instance
publish_error_is_caught = refl

-- The application of a publisher.
abbrev pub over :
    {lib : Libraries} {W R : Type 0} → EventPublisher lib W R → OrderApp W R → OrderApp W R
over publisher app = record app { publisher = publisher.publish_order_created }

module _ {W R : Type 0} (lib : Libraries) (publisher : EventPublisher lib W R) (run : Runtime W)
    (check : OrderCreatedEvent → Reply (Unit {0})) (app : OrderApp W R) where
  -- A factory raises it, the making of the event does, or the event is against the contract.
  abbrev RaisedBefore : CreateOrderRequest → Option String → Exc → W → Type 0
  RaisedBefore order header e w' =
      ((v : W) × (or_text header app.new_correlation_id v ≡ raise e w'))
      ⊎ ((v : W) × (app.new_order_id v ≡ raise e w'))
      ⊎ ((v : W) × (app.new_causation_id v ≡ raise e w'))
      ⊎ ((order_id correlation causation : String) × (v : W) × (make_order_created_event run check
              (data_of run check app order_id order) none (some correlation) (some causation) none v
            ≡ raise e w'))
      ⊎ ((event : OrderCreatedEvent) × (validate_event lib event ≡ error e))

  abbrev on_error : Exc → Eff W Answer
  on_error e =
      if is_publish_error e
      then pure (refused 503 "Order event could not be published.")
      else throw e

  -- What passes the handler is the exception itself, and no EventPublishError.
  passes_handler :
      (x e : Exc) (v w' : W) → on_error x v ≡ raise e w' → (is_publish_error x ≡ false) × (x ≡ e)
  passes_handler x e v w' h = split (is_publish_error x) refl h
    where
      split :
          (b : Bool)
          → is_publish_error x ≡ b
          → (if b then pure (refused 503 "Order event could not be published.") else throw x) v
            ≡ raise e w'
          → (is_publish_error x ≡ false) × (x ≡ e)
      split true caught g = absurd (cc)
      split false caught g = (caught, cc)

  answer_error :
      (correlation : String) (event : OrderCreatedEvent) (checked : Reply (Unit {0}))
      (o : Outcome W R) (e : Exc) (w w' : W)
      → validate_event lib event ≡ checked
      → Promised false checked w o
      → attempt o on_error (λ _. pure (accepted_for run check app correlation event)) ≡ raise e w'
      → validate_event lib event ≡ error e
  answer_error correlation event checked (ok r v) e w w' valid kept h = absurd (cc)
  answer_error correlation event checked out_of_fuel e w w' valid kept h = absurd (cc)
  answer_error correlation event (error y) (raise x v) e w w' valid kept h =
      let (_, same) = passes_handler x e v w' h in cc
  answer_error correlation event (value u) (raise x v) e w w' valid kept h =
      let (loose, _) = passes_handler x e v w' h in
      let caught = publish_error_is_caught in absurd (cc)

  -- Over a publisher that keeps the promise of EventPublisher, at a topic that is not blank: what POST
  -- /orders raises was raised by a factory or by the making of the event, or it is the error of the
  -- contract's check of an event. A failure of the broker is no exception of the route.
  create_order_raise :
      (order : CreateOrderRequest) (header : Option String) (e : Exc) (w w' : W)
      → is_blank app.topic ≡ false
      → create_order run check (over publisher app) order header w ≡ raise e w'
      → RaisedBefore order header e w'
  unfolding create_order
  create_order_raise order header e w w' named h =
      elim (continue-eq-raise (or_text header app.new_correlation_id w) _ h) [
        | inl first ↦ inl (w, first)
        | inr (correlation, w1, _, h1) ↦ elim (continue-eq-raise (app.new_order_id w1) _ h1) [
          | inl second ↦ inr (inl (w1, second))
          | inr (order_id, w2, _, h2) ↦ elim (continue-eq-raise (app.new_causation_id w2) _ h2) [
            | inl third ↦ inr (inr (inl (w2, third)))
            | inr (causation, w3, _, h3) ↦
                elim (continue-eq-raise
                  (make_order_created_event run check (data_of run check app order_id order) none
                    (some correlation) (some causation) none w3)
                  _ h3) [
                    | inl made ↦ inr (inr (inr (inl (order_id, correlation, causation, w3, made))))
                    | inr (event, w4, _, h4) ↦ inr (
                        inr (
                          inr (
                            inr (
                              event,
                              answer_error correlation event (validate_event lib event) _ e w4 w'
                                  refl (kept event w4) h4,
                            ))))
                  ]
          ]
        ]
      ]
    where
      kept :
          (event : OrderCreatedEvent) (v : W)
          → Promised false
              (validate_event lib event)
              v
              (publisher.publish_order_created app.topic event v)
      kept event v =
          subst
            (λ b.
              Promised b (validate_event lib event) v
                (publisher.publish_order_created app.topic event v))
            named (publisher.promise app.topic event v)
