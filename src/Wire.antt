-- ===== src/Wire.antt =====
-- The wire between the publishers of messaging/event_publishers.py and the consumers of
-- order_processing: what the consumers read of an event that was sent. json, pydantic and the codec
-- are parameters, and what is relied on in them is stated for the event at hand.
pub mod Kafka
pub mod Sqs
pub mod Orders
pub mod Stored
mod Examples
use kafka_sqs.Base.{String, ◌≡◌, refl, true}
use mathlib.Core.Path.{sym, ap, ◌∙◌}
use kafka_sqs.Base.Effect.{value}
use kafka_sqs.Contracts.Event.{OrderCreatedEvent}
use kafka_sqs.Contracts.Json.{Json, is_object}
use kafka_sqs.Contracts.Libraries.{Libraries}
use kafka_sqs.Contracts.Validation.{
  check_wire, validate_event, validate_mapping, parse_order_created_event,
}
use kafka_sqs.Publishers.{Encoder}

-- bytes.decode("utf-8") of str.encode("utf-8").
abbrev pub Decodes : Libraries → Encoder → String → Type 0
Decodes lib enc s = lib.decode (enc.encode s) ≡ value s

-- `loads` of the text that `dumps` makes of the event's dictionary is a dictionary, `wire`, which has
-- the same items in the order of the text: jsonschema finds the same in it, and the model reads it as
-- the event.
pub record ReadsBack (lib : Libraries) (dumps : Json → String) (event : OrderCreatedEvent)
    : Type 0 where
  pub wire : Json
  pub loads : lib.loads (dumps (lib.model_dump event)) ≡ value wire
  pub is_dict : is_object wire ≡ true
  pub same_errors : lib.iter_errors wire ≡ lib.iter_errors (lib.model_dump event)
  pub reads : lib.model_validate_json (lib.dumps wire) ≡ value event

module _ (lib : Libraries) (dumps : Json → String) (event : OrderCreatedEvent)
    (back : ReadsBack lib dumps event) where
  wire_is_valid : validate_event lib event ≡ value tt → validate_mapping lib back.wire ≡ value tt
  unfolding validate_event validate_mapping check_wire
  wire_is_valid valid = rw back.is_dict rw back.same_errors valid

  -- The consumers read the dictionary of a valid event as that event.
  pub parse_order_created_event-wire :
      validate_event lib event ≡ value tt → parse_order_created_event lib back.wire ≡ value event
  unfolding parse_order_created_event
  parse_order_created_event-wire valid = rw (wire_is_valid valid) rw back.is_dict back.reads
