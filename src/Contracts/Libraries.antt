-- ===== src/Contracts/Libraries.antt =====
-- What the program takes from Python's codecs, `json`, jsonschema and pydantic.
use kafka_sqs.Base.{ℕ, String, List}
use kafka_sqs.Base.Effect.{Reply}
use kafka_sqs.Contracts.Event.{OrderCreatedEvent}
use kafka_sqs.Contracts.Json.{Json}

abbrev pub Bytes : Type 0
Bytes = List ℕ

-- A step of a jsonschema error path: a list position or a property name.
pub data PathPart : Type 0 where
  index : ℕ → PathPart
  name : String → PathPart

-- jsonschema's `ValidationError`, as far as the program reads it.
pub record SchemaError : Type 0 where
  pub absolute_path : List PathPart
  pub message : String
  pub validator : String

pub record Codec : Type 0 where
  -- value.decode("utf-8"), and with errors="replace"
  pub decode : Bytes → Reply String
  pub decode_replace : Bytes → String
  pub loads : String → Reply Json
  pub dumps : Json → String

pub record Libraries : Type 0 where
  pub codec : Codec
  pub open codec use *
  -- Draft202012Validator(order-created-v1.json, format_checker=FormatChecker()).iter_errors
  pub iter_errors : Json → List SchemaError
  -- dict(payload) of a value that is no `dict`
  pub dict_of_other : Json → Reply Json
  -- OrderCreatedEvent.model_validate_json and event.model_dump(mode="json")
  pub model_validate_json : String → Reply OrderCreatedEvent
  pub model_dump : OrderCreatedEvent → Json
