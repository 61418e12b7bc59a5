-- ===== src/OrderApi.antt =====
-- order_api/http_api.py: POST /orders. FastAPI and pydantic are outside: a request arrives validated,
-- and an HTTPException is the answer that FastAPI makes of it.
pub mod Accepts
pub mod Configured
pub mod Started
mod Examples
use kafka_sqs.Base.{ℕ, String, Bool, ◌&&◌, Option, none, some, List, [], ◌∷◌, if◌then◌else◌}
use kafka_sqs.Base.Text.{is_blank}
use kafka_sqs.Base.Effect.{
  Exc, is_instance, Reply, value, error, value_error, Eff, pure, throw, try_except, ◌>>=◌,
}
use kafka_sqs.Contracts.Event.{Uuid, Decimal, OrderCreatedData, OrderCreatedEvent}
use kafka_sqs.Contracts.Factory.{or_text, prefixed_uuid, make_order_created_event}
use kafka_sqs.Contracts.Models.{is_full, is_positive, are_capitals}
use kafka_sqs.Clients.{Runtime}

pub record CreateOrderRequest : Type 0 where
  pub customer_id : String
  pub amount : Decimal
  pub currency : String

-- The checks of its fields, which pydantic makes before the route is called.
unfoldable pub is_order_request : CreateOrderRequest → Bool
unfolding are_capitals
is_order_request order =
    is_full order.customer_id && is_positive order.amount && are_capitals 3 order.currency

pub record CreateOrderResponse : Type 0 where
  pub order_id : String
  pub correlation_id : String
  pub event_id : Uuid

-- 202 with the header X-Correlation-ID and the body, or a status with its detail.
pub data Answer : Type 0 where
  accepted : String → CreateOrderResponse → Answer
  refused : ℕ → String → Answer

-- The application: its publisher, the destination, and the three factories.
pub record OrderApp (W R : Type 0) : Type 0 where
  pub publisher : String → OrderCreatedEvent → Eff W R
  pub topic : String
  pub new_order_id : Eff W String
  pub new_correlation_id : Eff W String
  pub new_causation_id : Eff W String

abbrev pub or_default {ℓ} : {A : Type ℓ} → Option A → A → A
or_default none a = a
or_default (some b) a = b

abbrev pub is_publish_error : Exc → Bool
is_publish_error e = is_instance e ("EventPublishError" ∷ [])

module _ {W R : Type 0} (run : Runtime W) where
  -- create_order_app
  unfoldable pub create_order_app :
      (String → OrderCreatedEvent → Eff W R)
      → String
      → Option (Eff W String)
      → Option (Eff W String)
      → Option (Eff W String)
      → Reply (OrderApp W R)
  unfolding is_blank
  create_order_app publisher topic order_id_factory correlation_id_factory causation_id_factory =
      if is_blank topic
      then error (value_error "Order event topic must not be blank.")
      else value (record {
        publisher = publisher;
        topic = topic;
        new_order_id = or_default order_id_factory (prefixed_uuid run "ORD-");
        new_correlation_id = or_default correlation_id_factory (prefixed_uuid run "checkout-");
        new_causation_id = or_default causation_id_factory (prefixed_uuid run "request-");
      })

module _ {W R : Type 0} (run : Runtime W) (check : OrderCreatedEvent → Reply (Unit {0}))
    (app : OrderApp W R) where
  abbrev pub data_of : String → CreateOrderRequest → OrderCreatedData
  data_of order_id order = record {
    order_id = order_id;
    customer_id = order.customer_id;
    amount = order.amount;
    currency = order.currency;
  }

  abbrev pub accepted_for : String → OrderCreatedEvent → Answer
  accepted_for correlation_id event = accepted correlation_id (record {
    order_id = event.payload.order_id;
    correlation_id = correlation_id;
    event_id = event.event_id;
  })

  -- The publication and the answer.
  abbrev pub publish_and_answer : String → OrderCreatedEvent → Eff W Answer
  publish_and_answer correlation_id event =
      try_except (app.publisher app.topic event)
        (λ e.
          if is_publish_error e
          then pure (refused 503 "Order event could not be published.")
          else throw e)
        (λ _. pure (accepted_for correlation_id event))

  unfoldable pub create_order : CreateOrderRequest → Option String → Eff W Answer
  unfolding make_order_created_event
  create_order order correlation_header = do
    correlation_id ← or_text correlation_header app.new_correlation_id
    order_id ← app.new_order_id
    causation_id ← app.new_causation_id
    event ←
        make_order_created_event run check (data_of order_id order) none (some correlation_id)
          (some causation_id) none
    publish_and_answer correlation_id event
