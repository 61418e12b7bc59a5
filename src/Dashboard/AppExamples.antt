-- ===== src/Dashboard/AppExamples.antt =====
-- The start of the dashboard, with a schema name that is refused and with the defaults.
use kafka_sqs.Base.{◌<>◌, ℕ, suc, String, ◌≡◌, refl, Option, none, some, [], str_eq, if◌then◌else◌}
use kafka_sqs.Base.Text.{strip, is_blank}
use kafka_sqs.Base.Effect.{Outcome, ok, raise, out_of_fuel, value_error}
use kafka_sqs.Clients.{Runtime, Producer}
use kafka_sqs.LabConfig.{Environment, from_environment, setting}
use kafka_sqs.OrderStore.{make_store, is_schema_name}
use kafka_sqs.PublisherConfig.{producer_config}
use kafka_sqs.Publishers.{Encoder}
use kafka_sqs.Publishers.Construct.{kafka_event_publisher, event_producer}
use kafka_sqs.OrderApi.{create_order_app}
use kafka_sqs.Setup.{get_queue_url}
use kafka_sqs.Samples.{order, sim_libraries}
use kafka_sqs.Dashboard.App.{LabSqs, LabClients, LocalLabApp, create_local_lab_app}

abbrev runtime : Runtime ℕ
runtime = record {
  monotonic = λ w. (0, w);
  uuid4 = λ w. (7, w);
  utc_now = λ w. (order.occurred_at, w);
  wait = λ d w. w;
}

abbrev encoder : Encoder
encoder = record {
  encode = λ s. [];
  dumps_sorted = λ j. "";
  dumps_sorted_unicode = λ j. "";
  isoformat = λ t. "";
}

abbrev producer : Producer ℕ
producer = record {
  produce = λ item n. ok tt n;
  flush = λ timeout n. ok (record { remaining = 0; reports = [] }) n;
}

abbrev sqs : LabSqs ℕ
sqs = record {
  queues = record {
    create_queue = λ name attributes n. ok name n;
    get_queue_arn = λ url n. ok url n;
    get_queue_url = λ name n. ok ("http://queues/" <> name) n;
  };
  sender = record {
    send_message =
        λ request n. ok (record { message_id = "1"; md5_of_body = ""; sequence_number = none }) n;
  };
}

-- The world counts what is initialized.
abbrev clients : LabClients ℕ
clients = record {
  build_sqs_client = λ settings n. ok sqs n;
  topic_admin = λ servers n.
      ok
        (record {
          timeout_seconds = 10000000;
          client = record {
            create_topics = λ spec d k. ok (λ t v. ok tt v) k;
            delete_topics = λ name d k. ok (λ t v. ok tt v) k;
            list_topics = λ d k. ok [] k;
          };
        })
        n;
  connect = λ entries n. ok producer n;
  initialize_store = λ store n. ok tt (suc n);
  initialize_controls = λ n. ok tt (suc n);
}

-- The topic and the queue that the mounted applications publish to, and the initializations.
abbrev mounted : Outcome ℕ (LocalLabApp ℕ) → Option (String × String × ℕ)
mounted (ok app n) = some (app.kafka_app.topic, app.sqs_app.topic, n)
mounted (raise e n) = none
mounted out_of_fuel = none

mounts_both :
    mounted (create_local_lab_app runtime sim_libraries encoder (λ j. "") clients (λ name. none) 0)
    ≡ some ("orders.created.local", "http://queues/orders-created-local", 3)
unfolding create_local_lab_app from_environment setting strip is_blank make_store is_schema_name
    kafka_event_publisher event_producer producer_config create_order_app get_queue_url
mounts_both = refl

abbrev dashed_schema : Environment
dashed_schema name = if str_eq name "SQS_SCHEMA" then some "sqs-lab" else none

-- Neither store is initialized.
refuses_schema :
    create_local_lab_app runtime sim_libraries encoder (λ j. "") clients dashed_schema 0
    ≡ raise (value_error "Unsafe PostgreSQL schema name.") 0
unfolding create_local_lab_app from_environment setting strip make_store is_schema_name
    get_queue_url
refuses_schema = refl
