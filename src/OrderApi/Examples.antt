-- ===== src/OrderApi/Examples.antt =====
-- Runs of POST /orders with a publisher that counts, and with one that is down.
use kafka_sqs.Base.{ℕ, suc, String, ◌≡◌, refl, false, none, some}
use mathlib.Core.Path.{subst}
use kafka_sqs.Base.Text.{is_empty}
use kafka_sqs.Base.Effect.{Eff, ok, raise, value, is_instance}
use kafka_sqs.Contracts.Factory.{make_order_created_event}
use kafka_sqs.Base.{[]}
use kafka_sqs.Clients.{Runtime, Producer}
use kafka_sqs.LabConfig.{Environment}
use kafka_sqs.OrderApi.Started.{start, Starts, create_configured_order_app-Starts}
use kafka_sqs.Publishers.{Encoder, event_publish_error}
use kafka_sqs.Samples.{order, sim_libraries}
use kafka_sqs.OrderApi.{CreateOrderRequest, Answer, accepted, refused, OrderApp, create_order}
use kafka_sqs.OrderApi.Accepts.{Answers, create_order-Answers}

abbrev runtime : Runtime ℕ
runtime = record {
  monotonic = λ w. (0, w);
  uuid4 = λ w. (7, w);
  utc_now = λ w. (order.occurred_at, w);
  wait = λ d w. w;
}

abbrev app_over : Eff ℕ ℕ → OrderApp ℕ ℕ
app_over publication = record {
  publisher = λ topic event. publication;
  topic = "orders.created";
  new_order_id = λ w. ok "ORD-1" w;
  new_correlation_id = λ w. ok "checkout-7" w;
  new_causation_id = λ w. ok "request-7" w;
}

abbrev app : OrderApp ℕ ℕ
app = app_over (λ n. ok n (suc n))

abbrev request : CreateOrderRequest
request = record { customer_id = "CUS-1"; amount = order.payload.amount; currency = "INR" }

abbrev answer : Answer
answer = accepted "shop-1" (record { order_id = "ORD-1"; correlation_id = "shop-1"; event_id = 7 })

accepts_request :
    create_order runtime (λ event. value tt) app request (some "shop-1") 0 ≡ ok answer 1
unfolding create_order make_order_created_event
accepts_request = refl

refuses_without_broker :
    create_order runtime
      (λ event. value tt)
      (app_over (λ n. raise event_publish_error n))
      request
      none
      0
    ≡ ok (refused 503 "Order event could not be published.") 0
unfolding create_order make_order_created_event is_instance
refuses_without_broker = refl

fresh_is_full : (v v' : ℕ) (s : String) → app.new_correlation_id v ≡ ok s v' → is_empty s ≡ false
fresh_is_full v v' s h =
    let same : "checkout-7" ≡ s = cc (h) in subst (λ x. is_empty x ≡ false) same refl

create_order-Answers_example :
    Answers runtime (λ event. value tt) app request (some "shop-1") answer 1
create_order-Answers_example =
    create_order-Answers runtime (λ event. value tt) app request (some "shop-1") answer 0 1
      fresh_is_full accepts_request

abbrev encoder : Encoder
encoder = record {
  encode = λ s. [];
  dumps_sorted = λ j. "";
  dumps_sorted_unicode = λ j. "";
  isoformat = λ t. "";
}

-- Every record is counted, and none is reported.
abbrev producer : Producer ℕ
producer = record {
  produce = λ item n. ok tt (suc n);
  flush = λ timeout n. ok (record { remaining = 0; reports = [] }) n;
}

abbrev environment : Environment
environment name = some " orders.created "

create_configured_order_app-Starts_example :
    Starts runtime
      (λ entries n. ok producer (suc n))
      sim_libraries
      encoder
      environment
      0
      (start runtime (λ entries n. ok producer (suc n)) sim_libraries encoder environment 0)
create_configured_order_app-Starts_example =
    create_configured_order_app-Starts runtime (λ entries n. ok producer (suc n)) sim_libraries
      encoder environment 0
