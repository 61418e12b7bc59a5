-- ===== src/EventPublisher/Answered.antt =====
-- Every valid request is answered.
use kafka_sqs.Base.{String, ◌≡◌, refl, Bool, true, false, Option, none, some, if◌then◌else◌}
use Prim.Native.String.{[], ◌∷◌}
use mathlib.Core.Path.{subst}
use kafka_sqs.Base.Text.{is_blank, is_empty}
use kafka_sqs.Base.Effect.{value, Outcome, ok, raise, out_of_fuel, Eff, pure, throw, attempt}
use kafka_sqs.Contracts.Event.{OrderCreatedData, OrderCreatedEvent}
use kafka_sqs.Contracts.Factory.{
  has_offset, or_text, ensure_utc_datetime, event_with, make_order_created_event,
}
use kafka_sqs.Contracts.Libraries.{Libraries}
use kafka_sqs.Contracts.Models.{is_full, is_order_data, is_order_event, check_models}
use kafka_sqs.Contracts.Validation.{validate_event}
use kafka_sqs.Clients.{Runtime}
use kafka_sqs.OrderApi.{
  CreateOrderRequest, is_order_request, Answer, refused, OrderApp, is_publish_error, data_of,
  accepted_for, create_order,
}
use kafka_sqs.EventPublisher.{Reported, Promised, EventPublisher}
use kafka_sqs.EventPublisher.Orders.{publish_error_is_caught, over}

is_full_lem : (s : String) → is_empty s ≡ false → is_full s ≡ true
is_full_lem [] h = absurd (cc)
is_full_lem (c ∷ s) h = refl

module _ {W : Type 0} where
  -- A factory always gives a text that is not empty.
  abbrev pub GivesText : Eff W String → Type 0
  GivesText factory =
      (w : W) → (s : String) × (w' : W) × (factory w ≡ ok s w') × (is_empty s ≡ false)

  or_text-GivesText :
      (given : Option String) (fresh : Eff W String)
      → GivesText fresh
      → GivesText (or_text given fresh)
  or_text-GivesText none fresh gives w = gives w
  or_text-GivesText (some s) fresh gives w = split (is_empty s) refl
    where
      split :
          (b : Bool)
          → is_empty s ≡ b
          → (c : String) × (w' : W) × ((if b then fresh else pure s) w ≡ ok c w')
            × (is_empty c ≡ false)
      split true e = gives w
      split false e = (s, w, refl, e)

  module _ (run : Runtime W) (aware : (w : W) → has_offset (run.utc_now w).0.tzinfo ≡ true) where
    made_event : OrderCreatedData → String → String → W → OrderCreatedEvent
    made_event payload c causation w =
        let (now, w1) = run.utc_now w in
        event_with run check_models (run.uuid4 w1).0 now c causation payload

    made_is_order_event :
        (payload : OrderCreatedData) (c causation : String) (w : W)
        → is_order_data payload ≡ true
        → is_empty c ≡ false
        → is_empty causation ≡ false
        → is_order_event (made_event payload c causation w) ≡ true
    unfolding made_event is_order_event
    made_is_order_event payload c causation w good full full' =
        rw (aware w) rw (is_full_lem c full) rw (is_full_lem causation full') good

    -- The factory of events makes an event of data and identifiers that are in order, and the models
    -- accept it.
    make_order_created_event_accepted :
        (payload : OrderCreatedData) (c causation : String) (w : W)
        → is_order_data payload ≡ true
        → is_empty c ≡ false
        → is_empty causation ≡ false
        → (event : OrderCreatedEvent) × (w' : W) × (make_order_created_event run check_models
              payload none
              (some c)
              (some causation)
              none
              w
            ≡ ok event w')
          × (is_order_event event ≡ true)
    unfolding make_order_created_event check_models ensure_utc_datetime made_event
    make_order_created_event_accepted payload c causation w good full full' =
        let valid = made_is_order_event payload c causation w good full full' in
        (
          made_event payload c causation w,
          (run.uuid4 (run.utc_now w).1).1,
          rw (aware w) rw full rw full' rw valid refl,
          valid,
        )

module _ {W R : Type 0} (lib : Libraries) (publisher : EventPublisher lib W R) (run : Runtime W)
    (app : OrderApp W R) where
  abbrev pub Answered : Outcome W Answer → Type 0
  Answered o = (a : Answer) × (w' : W) × (o ≡ ok a w')

  Reported-Answered :
      (c : String) (event : OrderCreatedEvent) (o : Outcome W R)
      → Reported o
      → Answered (
          attempt o
            (λ e.
              if is_publish_error e
              then pure (refused 503 "Order event could not be published.")
              else throw e)
            (λ _. pure (accepted_for run check_models app c event)))
  Reported-Answered c event (ok r w) kept = (_, w, refl)
  Reported-Answered c event (raise e w) kept = (
    refused 503 "Order event could not be published.",
    w,
    rw kept rw publish_error_is_caught refl,
  )
  Reported-Answered c event out_of_fuel kept = absurd kept

  is_order_data-data_of :
      (order_id : String) (order : CreateOrderRequest)
      → is_empty order_id ≡ false
      → is_order_request order ≡ true
      → is_order_data (data_of run check_models app order_id order) ≡ true
  unfolding is_order_data is_order_request
  is_order_data-data_of order_id order full valid = rw (is_full_lem order_id full) valid

  -- POST /orders returns an answer to every request that passes its model, whatever the broker does,
  -- over a publisher that keeps the promise of EventPublisher at a topic that is not blank, if the
  -- factories give texts that are not empty, the clock tells its zone, and the schema accepts the
  -- events that the models accept.
  pub create_order-Answered :
      (order : CreateOrderRequest) (header : Option String) (w : W)
      → is_order_request order ≡ true
      → is_blank app.topic ≡ false
      → GivesText app.new_order_id
      → GivesText app.new_correlation_id
      → GivesText app.new_causation_id
      → ((v : W) → has_offset (run.utc_now v).0.tzinfo ≡ true)
      → ((event : OrderCreatedEvent)
          → is_order_event event ≡ true
          → validate_event lib event ≡ value tt)
      → Answered (create_order run check_models (over publisher app) order header w)
  unfolding create_order
  create_order-Answered order header w valid named numbers correlates causes aware agrees =
      let (c, w1, chosen, full) = or_text-GivesText header app.new_correlation_id correlates w in
      let (order_id, w2, numbered, full_id) = numbers w1 in
      let (causation, w3, caused, full_cause) = causes w2 in
      let (event, w4, made, good) =
        make_order_created_event_accepted run aware (data_of run check_models app order_id order) c
          causation w3 (is_order_data-data_of order_id order full_id valid) full full_cause in
      rw chosen rw numbered rw caused rw made (
        Reported-Answered c event (publisher.publish_order_created app.topic event w4) (
          subst (λ b. Promised b (value tt) w4 (publisher.publish_order_created app.topic event w4))
            named
            (subst
              (λ checked.
                Promised (is_blank app.topic) checked w4
                  (publisher.publish_order_created app.topic event w4))
              (agrees event good) (publisher.promise app.topic event w4))))
