-- ===== src/Contracts/Factory.antt =====
-- messaging/contracts/factory.py, and ensure_utc_datetime of models.py: building an event.
use kafka_sqs.Base.{String, ◌<>◌, Bool, true, false, Option, none, some, if◌then◌else◌}
use kafka_sqs.Base.Text.{is_empty, str_uuid}
use kafka_sqs.Base.Effect.{Reply, value, error, value_error, Eff, pure, lift, reads, ◌>>=◌, ◌>>◌}
use kafka_sqs.Contracts.Event.{Uuid, Datetime, Tzinfo, OrderCreatedData, OrderCreatedEvent}
use kafka_sqs.Clients.{Runtime}

abbrev pub has_offset : Option Tzinfo → Bool
has_offset none = false
has_offset (some tz) = elim tz.utcoffset [ none ↦ false | some minutes ↦ true ]

unfoldable pub ensure_utc_datetime : Datetime → Reply Datetime
ensure_utc_datetime t =
    if has_offset t.tzinfo
    then value t
    else error (value_error "Event timestamps must include timezone information.")

-- a or b(), on an optional text and on an optional value that is never false
abbrev pub or_text {ℓ} : {W : Type ℓ} → Option String → Eff W String → Eff W String
or_text none other = other
or_text (some s) other = if is_empty s then other else pure s

abbrev pub or_value {ℓ} : {W A : Type ℓ} → Option A → Eff W A → Eff W A
or_value none other = other
or_value (some a) other = pure a

-- f"{prefix}{uuid4()}"
abbrev pub prefixed_uuid {ℓ} : {W : Type ℓ} → Runtime W → String → Eff W String
prefixed_uuid run prefix = do id ← reads run.uuid4; pure (prefix <> str_uuid id)

-- `check` is what pydantic's constructors raise for these fields.
module _ {W : Type 0} (run : Runtime W) (check : OrderCreatedEvent → Reply (Unit {0})) where
  abbrev pub event_with : Uuid → Datetime → String → String → OrderCreatedData → OrderCreatedEvent
  event_with id timestamp correlation_id causation_id payload = record {
    event_id = id;
    event_type = "order.created";
    event_version = 1;
    occurred_at = timestamp;
    correlation_id = correlation_id;
    causation_id = causation_id;
    producer = "order-api";
    payload = payload;
  }

  unfoldable pub make_order_created_event :
      OrderCreatedData
      → Option Uuid
      → Option String
      → Option String
      → Option Datetime
      → Eff W OrderCreatedEvent
  unfolding ensure_utc_datetime
  make_order_created_event payload event_id correlation_id causation_id occurred_at = do
    now ← or_value occurred_at (reads run.utc_now)
    timestamp ← lift (ensure_utc_datetime now)
    id ← or_value event_id (reads run.uuid4)
    correlation ← or_text correlation_id (prefixed_uuid run "checkout-")
    causation ← or_text causation_id (prefixed_uuid run "request-")
    lift (check (event_with id timestamp correlation causation payload))
    pure (event_with id timestamp correlation causation payload)
