-- ===== src/Clients.antt =====
-- The outside of the program, as its code sees it: the runtime (clocks, random UUIDs, waiting) and
-- confluent-kafka's producer and consumer. `W` is the state of the outside world.
use kafka_sqs.Base.{ℕ, String, Option, List}
use kafka_sqs.Base.Int.{ℤ}
use kafka_sqs.Base.Effect.{Eff}
use kafka_sqs.Contracts.Event.{Uuid, Datetime}
use kafka_sqs.Contracts.Libraries.{Bytes}

-- Durations are whole microseconds.
pub record Runtime {ℓ} (W : Type ℓ) : Type ℓ where
  pub monotonic : W → ℕ × W
  pub uuid4 : W → Uuid × W
  pub utc_now : W → Datetime × W
  -- Event().wait(seconds)
  pub wait : ℤ → W → W

-- A record of a topic, or an error event. `timestamp` is the second part of `message.timestamp()`.
pub record Message : Type 0 where
  pub topic : String
  pub partition : ℕ
  pub offset : ℕ
  pub key : Option Bytes
  pub payload : Option Bytes
  pub fault : Option String
  pub timestamp : Option ℤ

-- The arguments of `produce`.
pub record ProducerRecord : Type 0 where
  pub topic : String
  pub key : Bytes
  pub payload : Bytes
  pub headers : List (String × Bytes)

-- A call of `on_delivery`.
pub data Report : Type 0 where
  delivered : Message → Report
  failed : String → Report

-- What `flush` returns, with the delivery reports that it served.
pub record Flushed : Type 0 where
  pub remaining : ℕ
  pub reports : List Report

pub record Producer {ℓ} (W : Type ℓ) : Type ℓ where
  pub produce : ProducerRecord → Eff W (Unit {0})
  pub flush : ℤ → Eff W Flushed

-- The `error` of each partition that a commit answers for.
pub record ConsumerClient {ℓ} (W : Type ℓ) : Type ℓ where
  pub subscribe : List String → Eff W (Unit {0})
  pub poll : ℤ → Eff W (Option Message)
  pub commit : Message → Eff W (List (Option String))
  pub close : Eff W (Unit {0})
