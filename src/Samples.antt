-- ===== src/Samples.antt =====
-- Values that the examples share.
use kafka_sqs.Base.{none, some, [], ◌∷◌}
use kafka_sqs.Base.Int.{pos}
use kafka_sqs.Base.Effect.{value, error, value_error}
use kafka_sqs.Contracts.Event.{OrderCreatedEvent}
use kafka_sqs.Contracts.Json.{object, end}
use kafka_sqs.Contracts.Libraries.{Libraries}
use kafka_sqs.Clients.{Message}
use kafka_sqs.Consumer.{ConsumerSettings}

abbrev pub order : OrderCreatedEvent
order = record {
  event_id = 7;
  event_type = "order.created";
  event_version = 1;
  occurred_at = record { ticks = 0; tzinfo = some (record { utcoffset = some (pos 0) }) };
  correlation_id = "checkout-1";
  causation_id = "request-1";
  producer = "order-api";
  payload = record {
    order_id = "ORD-1";
    customer_id = "CUS-1";
    amount = record { digits = pos 500; places = 0 };
    currency = "INR";
  };
}

-- Libraries that read every payload as that event.
abbrev pub sim_libraries : Libraries
sim_libraries = record {
  codec = record {
    decode = λ bytes. value "";
    decode_replace = λ bytes. "";
    loads = λ s. value (object end);
    dumps = λ j. "";
  };
  iter_errors = λ j. [];
  dict_of_other = λ j. error (value_error "");
  model_validate_json = λ s. value order;
  model_dump = λ e. object end;
}

abbrev pub message : Message
message = record {
  topic = "orders.created";
  partition = 2;
  offset = 41;
  key = none;
  payload = some (123 ∷ 125 ∷ []);
  fault = none;
  timestamp = none;
}

abbrev pub sim_settings : ConsumerSettings
sim_settings = record {
  bootstrap_servers = "localhost:9092";
  group_id = "orders";
  client_id = "order-app-consumer";
  offset_reset = "earliest";
  poll_interval_seconds = pos 200000;
}
