-- ===== src/ControlStore/Examples.antt =====
-- Pausing Kafka on a fresh table.
use kafka_sqs.Base.{◌≡◌, refl, true, false, some, none, [], ◌∷◌}
use kafka_sqs.Base.Effect.{ok}
use kafka_sqs.Postgres.{Database}
use kafka_sqs.Postgres.Transaction.{healthy_server}
use kafka_sqs.ControlStore.{
  ControlRow, Controls, initialize, validate_broker, is_broker, update_rows, set_paused, states,
}

abbrev sqs_row : ControlRow
sqs_row = record { broker = "sqs"; paused = false; updated_at = 0 }

abbrev before : Database Controls
before = record {
  tables = some (sqs_row ∷ record { broker = "kafka"; paused = false; updated_at = 0 } ∷ []);
  calls = 5;
}

abbrev after : Database Controls
after = record {
  tables = some (sqs_row ∷ record { broker = "kafka"; paused = true; updated_at = 5 } ∷ []);
  calls = 8;
}

initialize_creates_rows :
    initialize healthy_server (record { tables = none; calls = 0 }) ≡ ok tt before
unfolding initialize
initialize_creates_rows = refl

pauses_kafka : set_paused healthy_server "kafka" true before ≡ ok tt after
unfolding set_paused update_rows validate_broker is_broker
pauses_kafka = refl

lists_states :
    states healthy_server after
    ≡ ok (("sqs", false) ∷ ("kafka", true) ∷ []) (record after { calls = 11 })
unfolding states
lists_states = refl
