-- ===== src/Contracts/Event.antt =====
-- messaging/contracts/models.py: the typed event envelope and its payload.
use kafka_sqs.Base.{ℕ, String, Option}
use kafka_sqs.Base.Int.{ℤ}

-- A 128-bit number; `str_uuid` prints it.
abbrev pub Uuid : Type 0
Uuid = ℕ

-- A finite `float` by the decimal that `str` prints, digits / 10 ^ places, and a `Decimal`.
pub record Decimal : Type 0 where
  pub digits : ℤ
  pub places : ℕ

-- A `datetime`: microseconds since some origin on its own clock, and its `utcoffset()` in minutes,
-- which a time zone may leave `None`.
pub record Tzinfo : Type 0 where
  pub utcoffset : Option ℤ

pub record Datetime : Type 0 where
  pub ticks : ℕ
  pub tzinfo : Option Tzinfo

pub record OrderCreatedData : Type 0 where
  pub order_id : String
  pub customer_id : String
  pub amount : Decimal
  pub currency : String

-- The field `data` of the source is `payload` here.
pub record OrderCreatedEvent : Type 0 where
  pub event_id : Uuid
  pub event_type : String
  pub event_version : ℕ
  pub occurred_at : Datetime
  pub correlation_id : String
  pub causation_id : String
  pub producer : String
  pub payload : OrderCreatedData
