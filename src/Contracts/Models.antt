-- ===== src/Contracts/Models.antt =====
-- The fields of messaging/contracts/models.py, which pydantic checks when an event is made. That a
-- value has the type of its field is the typing of OrderCreatedEvent.
use Prim.Native.Nat.{ℕ, zero, suc}
use Prim.Native.Char.{code}
use Prim.Native.String.{String, [] as text_nil, ◌∷◌ as text_cons}
use kafka_sqs.Base.{Bool, true, false, ◌&&◌, ◌==◌, str_eq, leb, [], ◌∷◌, if◌then◌else◌}
use kafka_sqs.Base.Int.{pos, ltb_ℤ}
use kafka_sqs.Base.Effect.{Exc, Reply, value, error}
use kafka_sqs.Contracts.Event.{Decimal, OrderCreatedData, OrderCreatedEvent}
use kafka_sqs.Contracts.Factory.{has_offset}

-- Field(min_length=1)
abbrev pub is_full : String → Bool
is_full text_nil = false
is_full (text_cons c s) = true

-- Field(gt=0)
abbrev pub is_positive : Decimal → Bool
is_positive amount = ltb_ℤ (pos 0) amount.digits

abbrev is_capital : ℕ → Bool
is_capital c = leb 65 c && leb c 90

-- Field(pattern=r"^[A-Z]{3}$"): `n` capital letters and no more.
unfoldable pub are_capitals : ℕ → String → Bool
are_capitals zero text_nil = true
are_capitals zero (text_cons c s) = false
are_capitals (suc n) text_nil = false
are_capitals (suc n) (text_cons c s) = is_capital (code c) && are_capitals n s

-- OrderCreatedData
unfoldable pub is_order_data : OrderCreatedData → Bool
unfolding are_capitals
is_order_data d =
    is_full d.order_id && is_full d.customer_id && is_positive d.amount && are_capitals 3 d.currency

-- OrderCreatedEvent, over EventEnvelope
unfoldable pub is_order_event : OrderCreatedEvent → Bool
unfolding is_order_data
is_order_event e =
    str_eq e.event_type "order.created"
    && (e.event_version == 1)
    && has_offset e.occurred_at.tzinfo
    && is_full e.correlation_id
    && is_full e.causation_id
    && str_eq e.producer "order-api"
    && is_order_data e.payload

abbrev pub model_error : Exc
model_error = record { classes = "ValidationError" ∷ "ValueError" ∷ "Exception" ∷ []; text = "" }

-- What the constructor of OrderCreatedEvent raises.
unfoldable pub check_models : OrderCreatedEvent → Reply (Unit {0})
unfolding is_order_event
check_models e = if is_order_event e then value tt else error model_error
