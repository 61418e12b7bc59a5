-- ===== src/Contracts/Json.antt =====
-- JSON values as Python objects: `None`, `bool`, numbers, `str`, `list` and `dict`.
use kafka_sqs.Base.{String, Bool, true, false}
use kafka_sqs.Contracts.Event.{Decimal}

mutual
  pub data Json : Type 0 where
    null : Json
    bool : Bool → Json
    number : Decimal → Json
    text : String → Json
    array : Items → Json
    object : Fields → Json

  pub data Items : Type 0 where
    nil : Items
    cons : Json → Items → Items

  pub data Fields : Type 0 where
    end : Fields
    field : String → Json → Fields → Fields

-- isinstance(value, dict)
abbrev pub is_object : Json → Bool
is_object (object fs) = true
is_object _ = false
