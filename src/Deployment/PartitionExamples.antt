-- ===== src/Deployment/PartitionExamples.antt =====
-- A partition whose first record carries an order, and whose other records are no events. At the
-- server the first two connections fail: the store of the order, and the discard after it.
use kafka_sqs.Base.{
  ℕ, zero, suc, ◌<◌, ◌≡◌, refl, ◌⊎◌, inl, inr, true, false, Option, none, some, List, [], ◌∷◌, ◌-◌,
  ◌==◌, ==_iff, str_eq, ltb, arith, if◌then◌else◌,
}
use kafka_sqs.Base.Int.{pos}
use kafka_sqs.Base.Lists.{any}
use kafka_sqs.Base.Text.{str_uuid}
use kafka_sqs.Base.Effect.{value, error, value_error, ok, raise, is_instance}
use kafka_sqs.Contracts.Event.{Uuid, OrderCreatedEvent}
use kafka_sqs.Contracts.Json.{Json, object, end}
use kafka_sqs.Contracts.Libraries.{Libraries}
use kafka_sqs.Contracts.Validation.{parse_order_created_event}
use kafka_sqs.Clients.{Runtime, Message}
use kafka_sqs.DeadLetter.{is_retryable}
use kafka_sqs.Postgres.{Server}
use kafka_sqs.Postgres.Transaction.{healthy_server}
use kafka_sqs.OrderStore.Rows.{
  database_error, completed, new_claim, new_order, insert_claim, insert_order, amount_column,
  hundredths, update_completed, complete_rows,
}
use kafka_sqs.OrderStore
use kafka_sqs.Samples.{order, message, sim_libraries, sim_settings}
use kafka_sqs.Consumer.{ProcessedKafkaRecord, KafkaOrderConsumer, decode_event}
use kafka_sqs.Consumer.Process.{default_policy, process_one}
use kafka_sqs.Consumer.Log.{IsSafe}
use kafka_sqs.Consumer.Log.Session.{Session, begin, processed, restarted}
use kafka_sqs.Deployment.{World, Surroundings, deployed}
use kafka_sqs.Deployment.Partition.{
  Topic, runtime_on_rest, CompletedIn, Repeated, partition, Provides,
}
use kafka_sqs.Deployment.Partition.AtLeastOnce.{deployed-Serves, Session-Settled}
use kafka_sqs.Consumer.Log.Progress.{process_one_passes}
use kafka_sqs.Workers.{StopEvent, is_kafka_timeout, worker_loop}

-- The rounds left until the stop event is set, the offsets, and the dead-lettered offsets.
record Broker : Type 0 where
  rounds : ℕ
  position : ℕ
  committed : ℕ
  dead : List ℕ

abbrev payload_at : ℕ → Option (List ℕ)
payload_at zero = some (123 ∷ 125 ∷ [])
payload_at (suc n) = none

abbrev event_at : ℕ → Option Uuid
event_at zero = some 7
event_at (suc n) = none

abbrev message_at : ℕ → Message
message_at n = record message { offset = n; payload = payload_at n }

-- json.loads refuses the empty text.
abbrev libraries : Libraries
libraries = record sim_libraries {
  codec = record sim_libraries.codec {
    decode = λ bytes. value "{}";
    loads = λ s. if str_eq s "{}" then value (object end) else error (value_error "");
  };
}

abbrev surroundings : Surroundings Broker
surroundings = record {
  downstream = none;
  dead_letter_publisher =
      some (λ topic failure b. ok tt (record b { dead = failure.source_offset ∷ b.dead }));
  dead_letter_topic = some "orders.dlq";
  consumer = record {
    subscribe = λ topics b. ok tt b;
    poll = λ d b. ok (some (message_at b.position)) (record b { position = suc b.position });
    commit = λ m b. ok [] (record b { committed = suc m.offset });
    close = λ b. ok tt b;
  };
}

abbrev clock : Runtime Broker
clock = record {
  monotonic = λ b. (0, b);
  uuid4 = λ b. (1, b);
  utc_now = λ b. (order.occurred_at, b);
  wait = λ d b. b;
}

abbrev topic : Topic Broker
topic = record {
  position = λ b. b.position;
  committed = λ b. b.committed;
  event_at = event_at;
  DeadLettered = λ i b. any (λ j. j == i) b.dead ≡ true;
}

names_event :
    (n : ℕ) (payload : Json) (event : OrderCreatedEvent)
    → decode_event libraries (payload_at n) ≡ value (payload, event)
    → event_at n ≡ some event.event_id
unfolding decode_event parse_order_created_event
names_event zero payload event h = cc (h)
names_event (suc n) payload event h = absurd (cc)

same_offset : (n : ℕ) → (n == n) ≡ true
same_offset n = (==_iff n n).1 refl

topic_Provides : Provides topic libraries clock surroundings
topic_Provides = record {
  polls = λ timeout b. record {
    at = inl (record {
      sound = refl;
      own = refl;
      names = names_event b.position;
      moved = refl;
      group = refl;
      keeps = λ i dead. dead;
    });
  };
  commits = λ m b. record {
    at = (record { at = refl; group = inr refl; keeps = λ i dead. dead }, λ clean. refl);
  };
  sends = λ event b. record { at = record { at = refl; group = refl; keeps = λ i dead. dead } };
  publishes = λ failure b. record {
    at = (
      record { at = refl; group = refl; keeps = λ i dead. ground arith },
      ground (arith, same_offset failure.source_offset),
    );
  };
  waits = λ d b. record { at = refl; group = refl; keeps = λ i dead. dead };
  ticks = λ b. record { at = refl; group = refl; keeps = λ i dead. dead };
}

abbrev waking_server : Server
waking_server = record healthy_server {
  connect = λ n. if ltb n 2 then some (database_error "OperationalError") else none;
}

abbrev consumer : KafkaOrderConsumer (World Broker)
consumer = deployed waking_server sim_settings "orders.created" default_policy surroundings

abbrev at_start : World Broker
at_start = record {
  db = record { tables = record { orders = some []; processed_events = some [] }; calls = 0 };
  rest = record { rounds = 3; position = 0; committed = 0; dead = [] };
}

abbrev after_failure : World Broker
after_failure = record {
  db = record at_start.db { calls = 2 };
  rest = record at_start.rest { position = 1 };
}

abbrev after_restart : World Broker
after_restart = record after_failure { rest = at_start.rest }

abbrev after_order : World Broker
after_order = record {
  db = record {
    tables = record {
      orders = some (new_order 2 order (record { digits = pos 50000; places = 2 }) ∷ []);
      processed_events = some (
          record (new_claim 2 7 "order.created") { status = completed; processed_at = some 6 }
          ∷ []);
    };
    calls = 9;
  };
  rest = record at_start.rest { position = 1; committed = 1 };
}

fails_first :
    process_one libraries (runtime_on_rest clock) consumer (pos 2000000) at_start
    ≡ raise (database_error "OperationalError") after_failure
unfolding process_one decode_event parse_order_created_event is_retryable is_instance
    OrderStore.store OrderStore.discard
fails_first = refl

abbrev stored_record : ProcessedKafkaRecord
stored_record = record {
  event_id = str_uuid 7;
  topic = "orders.created";
  partition = 2;
  offset = 0;
  group_id = "orders";
  duplicate = false;
  attempts = 1;
  dead_lettered = false;
}

stores_again :
    process_one libraries (runtime_on_rest clock) consumer (pos 2000000) after_restart
    ≡ ok stored_record after_order
unfolding process_one decode_event parse_order_created_event is_retryable is_instance
    OrderStore.store OrderStore.mark_completed insert_claim insert_order amount_column hundredths
    update_completed complete_rows
stores_again = refl

-- The failure, a restart, and the same record again.
abbrev one_restart :
    Session (partition topic) libraries (runtime_on_rest clock) consumer at_start after_order
one_restart =
    processed (pos 2000000) stored_record
      (restarted (pos 2000000) (database_error "OperationalError") begin fails_first
        (record { at = refl; group = refl; keeps = λ i settled. settled }))
      stores_again

at_start-IsSafe : IsSafe (partition topic) at_start
at_start-IsSafe = record { settled = λ i lt. absurd (omega arith); behind = omega arith }

Session-Settled_example :
    CompletedIn (some 7) after_order.db.tables
    ⊎ (any (λ j. j == 0) after_order.rest.dead ≡ true)
    ⊎ Repeated topic 0
Session-Settled_example =
    Session-Settled topic libraries clock waking_server sim_settings "orders.created" default_policy
      surroundings topic_Provides one_restart at_start-IsSafe 0 (omega arith)

-- The stop event is set after the rounds that are left.
abbrev stop : StopEvent (World Broker)
stop = record {
  is_set =
      λ w. (w.rest.rounds == 0, record w { rest = record w.rest { rounds = w.rest.rounds - 1 } });
  wait = λ d w. w;
}

-- The worker does not restart its consumer. It goes on with the next record, dead-letters that, and
-- commits behind both: the order is in no table and in no dead-letter record.
worker_skips_record :
    worker_loop stop
      (λ w. ok false w)
      (is_kafka_timeout stop)
      (process_one libraries (runtime_on_rest clock) consumer (pos 2000000))
      3
      (record at_start { rest = record at_start.rest { rounds = 2 } })
    ≡ ok tt (record after_failure {
      rest = record { rounds = 0; position = 2; committed = 2; dead = 1 ∷ [] };
    })
unfolding worker_loop process_one decode_event parse_order_created_event is_retryable is_instance
    OrderStore.store OrderStore.discard
worker_skips_record = refl

-- The next call after the failure dead-letters the second record and commits it.
abbrev after_second : World Broker
after_second = record after_failure {
  rest = record at_start.rest { position = 2; committed = 2; dead = 1 ∷ [] };
}

abbrev dead_record : ProcessedKafkaRecord
dead_record = record stored_record { event_id = "unknown"; offset = 1; dead_lettered = true }

goes_on :
    process_one libraries (runtime_on_rest clock) consumer (pos 2000000) after_failure
    ≡ ok dead_record after_second
unfolding process_one decode_event parse_order_created_event
goes_on = refl

process_one_passes_example : ◌<◌ 0 after_second.rest.committed
process_one_passes_example =
    process_one_passes (partition topic) libraries (runtime_on_rest clock) consumer
      (deployed-Serves topic libraries clock waking_server sim_settings "orders.created"
        default_policy surroundings topic_Provides)
      (pos 2000000) (pos 2000000) (database_error "OperationalError") at_start after_failure
      after_second dead_record 0 (omega arith) fails_first (omega arith) goes_on
