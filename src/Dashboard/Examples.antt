-- ===== src/Dashboard/Examples.antt =====
-- A lab whose Kafka is down, and the control route on the pause controls.
use kafka_sqs.Base.{◌≡◌, refl, inl, inr, true, false, some, [], ◌∷◌}
use kafka_sqs.Base.Effect.{runtime_error, ok, raise}
use kafka_sqs.Base.Text.{str_int}
use kafka_sqs.Postgres.{Database}
use kafka_sqs.Postgres.Transaction.{healthy_server}
use kafka_sqs.ControlStore.{Controls, set_paused, states}
use kafka_sqs.LabConfig.{defaults}
use kafka_sqs.Dashboard.{
  LabServices, up, down, HealthReport, refused, safe_error, take_text, resources_of, health,
  change_consumer_state,
}
use kafka_sqs.Dashboard.Health.{Answers, health-Answers}
use kafka_sqs.Dashboard.Control.{with_controls}

abbrev start : Database Controls
start = record {
  tables = some (record { broker = "kafka"; paused = false; updated_at = 0 } ∷ []);
  calls = 5;
}

abbrev lab : LabServices (Database Controls)
lab = with_controls healthy_server (record {
  describe_topic = λ name w. raise (runtime_error "no broker") w;
  queue_depth = λ w. ok (some "4") w;
  kafka_order_count = λ w. ok 2 w;
  sqs_order_count = λ w. ok 3 w;
  kafka_orders = λ n w. ok [] w;
  sqs_orders = λ n w. ok [] w;
  set_paused = λ broker paused w. ok tt w;
  states = λ w. ok [] w;
})

abbrev degraded : HealthReport
degraded = record {
  ready = false;
  kafka = record { status = down; detail = "RuntimeError: no broker" };
  sqs = record { status = up; detail = "orders-created-local · 4 ready" };
  postgres = record { status = up; detail = "order-app · 5 processed orders" };
  consumers = ("kafka", false) ∷ [];
  resources = resources_of defaults;
}

reports_broker_down : health lab defaults start ≡ ok degraded (record start { calls = 8 })
unfolding health safe_error take_text states str_int
reports_broker_down = refl

health-Answers_example :
    Answers lab defaults degraded.kafka degraded.sqs degraded.postgres
      (states healthy_server start)
      (health lab defaults start)
unfolding str_int safe_error take_text
health-Answers_example =
    health-Answers lab defaults degraded.kafka degraded.sqs degraded.postgres start start start
      start (inr (runtime_error "no broker", refl, refl)) (inl (some "4", refl, refl))
      (inl (5, refl, refl))

abbrev after : Database Controls
after = record {
  tables = some (record { broker = "kafka"; paused = true; updated_at = 5 } ∷ []);
  calls = 8;
}

refuses_unknown :
    change_consumer_state lab defaults "kafka" "stop" start
    ≡ ok (refused 404 "Unknown consumer control.") start
unfolding change_consumer_state
refuses_unknown = refl
