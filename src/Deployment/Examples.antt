-- ===== src/Deployment/Examples.antt =====
-- A deployed consumer on small databases.
use kafka_sqs.Base.{ℕ, ◌+◌, ◌≡◌, refl, Bool, true, false, none, some, [], ◌∷◌, ◌==◌, if◌then◌else◌}
use kafka_sqs.Base.Int.{pos}
use kafka_sqs.Base.Text.{str_uuid}
use kafka_sqs.Base.Effect.{value, ok}
use kafka_sqs.Contracts.Json.{object, end}
use kafka_sqs.Contracts.Validation.{parse_order_created_event}
use kafka_sqs.Clients.{Runtime}
use kafka_sqs.DeadLetter.{is_retryable}
use kafka_sqs.Postgres.{Server}
use kafka_sqs.Postgres.Transaction.{healthy_server, healthy_server-IsHealthy}
use kafka_sqs.OrderStore.Rows.{
  OrderRow, ProcessedRow, completed, database_error, delete_orders, delete_claims, insert_claim,
  insert_order, amount_column, hundredths, update_completed, complete_rows,
}
use kafka_sqs.OrderStore
use kafka_sqs.OrderStore.Idempotent.{Claims}
use kafka_sqs.Consumer.{ProcessedKafkaRecord, decode_event}
use kafka_sqs.Consumer.Process.{default_policy, handle_message}
use kafka_sqs.Samples.{order, message, sim_libraries, sim_settings}
use kafka_sqs.Deployment.{World, Surroundings, deployed}
use kafka_sqs.Deployment.Settled.{Absent, handle_message_settles}
use kafka_sqs.Contracts.Event.{OrderCreatedEvent}
use kafka_sqs.OrderStore.Rows.{new_order, new_claim}
use kafka_sqs.OrderStore.Consistent.{stored}
use kafka_sqs.OrderStore.Lasting.{Passes, same, then_ran}
use kafka_sqs.OrderStore.Fresh.{Unknown, completed_db}
use kafka_sqs.Deployment.Delivered.{delivered_of, handle_message_delivers}
use kafka_sqs.Deployment.Redelivered.{duplicate_of, handle_message-handle_message}

-- `rest` is the number of dead-letter records and of commits.
abbrev counting : Surroundings (ℕ × ℕ)
counting = record {
  downstream = none;
  dead_letter_publisher = some (λ topic failure (dead, commits). ok tt (dead + 1, commits));
  dead_letter_topic = some "orders.dlq";
  consumer = record {
    subscribe = λ topics w. ok tt w;
    poll = λ d w. ok none w;
    commit = λ m (dead, commits). ok [] (dead, commits + 1);
    close = λ w. ok tt w;
  };
}

abbrev runtime : Runtime (World (ℕ × ℕ))
runtime = record {
  monotonic = λ w. (0, w);
  uuid4 = λ w. (1, w);
  utc_now = λ w. (order.occurred_at, w);
  wait = λ d w. w;
}

-- A server whose first connection fails, and which then works.
abbrev flaky_server : Server
flaky_server = record healthy_server {
  connect = λ n. if n == 0 then some (database_error "OperationalError") else none;
}

abbrev completed_row : ProcessedRow
completed_row = record {
  event_id = 7;
  event_type = "order.created";
  status = completed;
  first_seen_at = 0;
  processed_at = some 1;
}

abbrev order_row : OrderRow
order_row = record {
  order = record {
    order_id = "ORD-1";
    customer_id = "CUS-1";
    amount = record { digits = pos 50000; places = 2 };
    currency = "INR";
    source_event_id = 7;
    correlation_id = "checkout-1";
  };
  created_at = 0;
}

abbrev completed_world : World (ℕ × ℕ)
completed_world = record {
  db = record {
    tables = record {
      orders = some (order_row ∷ []);
      processed_events = some (completed_row ∷ []);
    };
    calls = 0;
  };
  rest = (0, 0);
}

abbrev emptied_world : World (ℕ × ℕ)
emptied_world = record {
  db = record { tables = record { orders = some []; processed_events = some [] }; calls = 5 };
  rest = (1, 1);
}

abbrev dead_record : ProcessedKafkaRecord
dead_record = record {
  event_id = "00000000-0000-0000-0000-000000000007";
  topic = "orders.created";
  partition = 2;
  offset = 41;
  group_id = "orders";
  duplicate = false;
  attempts = 1;
  dead_lettered = true;
}

-- A redelivery of a completed event, met by one failed connection, removes the order.
completed_order_lost :
    handle_message sim_libraries runtime
      (deployed flaky_server sim_settings "orders.created" default_policy counting)
      message
      completed_world
    ≡ ok dead_record emptied_world
unfolding handle_message decode_event parse_order_created_event is_retryable OrderStore.store
    OrderStore.discard delete_orders delete_claims str_uuid
completed_order_lost = refl

message_is_valid : decode_event sim_libraries message.payload ≡ value (object end, order)
unfolding decode_event parse_order_created_event
message_is_valid = refl

handle_message_settles_example :
    (◌≡◌ {A = Bool} true false → Claims 7 false emptied_world.db.tables)
    × (◌≡◌ {A = Bool} true true → Absent 7 emptied_world.db.tables)
handle_message_settles_example =
    handle_message_settles sim_libraries runtime flaky_server sim_settings "orders.created"
      default_policy counting message (object end) order completed_world emptied_world dead_record
      message_is_valid completed_order_lost

-- The first delivery, at a healthy server.
abbrev fresh_world : World (ℕ × ℕ)
fresh_world = record {
  db = record { tables = record { orders = some []; processed_events = some [] }; calls = 0 };
  rest = (0, 0);
}

abbrev stored_world : World (ℕ × ℕ)
stored_world = record {
  db = record {
    tables = record {
      orders = some (order_row ∷ []);
      processed_events = some (record completed_row { processed_at = some 4 } ∷ []);
    };
    calls = 7;
  };
  rest = (0, 1);
}

abbrev new_record : ProcessedKafkaRecord
new_record = record dead_record { dead_lettered = false }

stores_order :
    handle_message sim_libraries runtime
      (deployed healthy_server sim_settings "orders.created" default_policy counting)
      message
      fresh_world
    ≡ ok new_record stored_world
unfolding handle_message decode_event parse_order_created_event is_retryable OrderStore.store
    OrderStore.mark_completed str_uuid insert_claim insert_order amount_column hundredths
    update_completed complete_rows
stores_order = refl

-- Another worker stores another order in between.
abbrev other_order : OrderCreatedEvent
other_order = record order { event_id = 8; payload = record order.payload { order_id = "ORD-2" } }

abbrev shared_world : World (ℕ × ℕ)
shared_world = record stored_world {
  db = record {
    tables = record {
      orders = some (new_order 7 other_order order_row.amount ∷ order_row ∷ []);
      processed_events =
          some
            (new_claim 7 8 "order.created" ∷ record completed_row { processed_at = some 4 } ∷ []);
    };
    calls = 11;
  };
}

stores_other :
    OrderStore.store healthy_server other_order stored_world.db
    ≡ ok (record { is_new = true; downstream_required = true }) shared_world.db
unfolding OrderStore.store insert_claim insert_order amount_column hundredths
stores_other = refl

shared_Passes : Passes 7 stored_world.db.tables shared_world.db.tables
shared_Passes =
    then_ran healthy_server stored_world.db shared_world.db same refl
      (stored other_order (record { is_new = true; downstream_required = true }) stores_other) tt

handle_message-handle_message_example :
    (w' : World (ℕ × ℕ)) × (handle_message sim_libraries runtime
        (deployed healthy_server sim_settings "orders.created" default_policy counting)
        message
        shared_world
      ≡ ok
          (duplicate_of sim_libraries runtime healthy_server healthy_server-IsHealthy sim_settings
            "orders.created" default_policy counting message order)
          w')
    × (w'.db.tables ≡ shared_world.db.tables)
    × (w'.rest ≡ (0, 2))
handle_message-handle_message_example =
    handle_message-handle_message sim_libraries runtime healthy_server healthy_server-IsHealthy
      sim_settings "orders.created" default_policy counting healthy_server message message
      (object end) (object end) order fresh_world stored_world shared_world new_record (0, 2)
      message_is_valid stores_order refl shared_Passes refl message_is_valid ([], refl, refl)

fresh_Unknown : Unknown order fresh_world.db.tables
unfolding amount_column hundredths
fresh_Unknown = record {
  os = [];
  ps = [];
  amount = order_row.amount;
  orders = refl;
  claims = refl;
  no_claim = refl;
  no_order = refl;
  no_source = refl;
  clean = refl;
  fits = refl;
}

handle_message_delivers_example :
    handle_message sim_libraries runtime
      (deployed healthy_server sim_settings "orders.created" default_policy counting)
      message
      fresh_world
    ≡ ok
        (delivered_of sim_libraries runtime healthy_server healthy_server-IsHealthy sim_settings
          "orders.created" default_policy counting message order)
        (record {
          db =
              completed_db healthy_server healthy_server-IsHealthy order fresh_world.db
                fresh_Unknown;
          rest = (0, 1);
        })
handle_message_delivers_example =
    handle_message_delivers sim_libraries runtime healthy_server healthy_server-IsHealthy
      sim_settings "orders.created" default_policy counting message (object end) order fresh_world
      (0, 0) (0, 1) fresh_Unknown refl message_is_valid refl ([], refl, refl)
