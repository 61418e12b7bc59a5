-- ===== src/Dashboard.antt =====
-- local_lab/dashboard_api.py: the routes of the dashboard. FastAPI
-- is outside: an HTTPException is the answer that it makes of it. The page is not modelled.
pub mod Health
pub mod Control
pub mod App
mod Examples
mod AppExamples
use Prim.Native.String.{[] as text_nil, ◌∷◌ as text_cons}
use kafka_sqs.Base.{
  ℕ, zero, suc, ◌+◌, String, ◌<>◌, Bool, true, false, not, ◌&&◌, ◌||◌, Option, none, some, List, [],
  ◌∷◌, map, str_eq, if◌then◌else◌,
}
use kafka_sqs.Base.Int.{ℤ, pos}
use kafka_sqs.Base.Text.{strip, str_int, str_uuid}
use kafka_sqs.Base.Effect.{
  Exc, type_name, Reply, value, error, Eff, pure, throw, lift, try_except, ◌>>=◌, ◌>>◌,
}
use kafka_sqs.Contracts.Event.{Decimal, OrderCreatedEvent}
use kafka_sqs.Clients.{Runtime}
use kafka_sqs.OrderStore.Rows.{StoredOrder}
use kafka_sqs.TopicAdmin.{TopicMetadata, partition_count}
use kafka_sqs.LabConfig.{LocalLabConfig}
use kafka_sqs.OrderApi.{OrderApp, create_order_app}

-- What the routes use of the services. `describe_topic` and `order_count` are those of
-- KafkaTopicAdmin and PostgresOrderStore, `queue_depth` is the attribute ApproximateNumberOfMessages.
pub record LabServices (W : Type 0) : Type 0 where
  pub describe_topic : String → Eff W TopicMetadata
  pub queue_depth : Eff W (Option String)
  pub kafka_order_count : Eff W ℕ
  pub sqs_order_count : Eff W ℕ
  pub kafka_orders : ℤ → Eff W (List StoredOrder)
  pub sqs_orders : ℤ → Eff W (List StoredOrder)
  pub set_paused : String → Bool → Eff W (Unit {0})
  pub states : Eff W (List (String × Bool))

pub data Status : Type 0 where
  up down : Status

pub record Service : Type 0 where
  pub status : Status
  pub detail : String

pub record HealthReport : Type 0 where
  pub ready : Bool
  pub kafka : Service
  pub sqs : Service
  pub postgres : Service
  pub consumers : List (String × Bool)
  pub resources : List (String × String)

-- s[:n]
unfoldable pub take_text : ℕ → String → String
take_text zero s = text_nil
take_text (suc n) text_nil = text_nil
take_text (suc n) (text_cons c s) = text_cons c (take_text n s)

-- _safe_error
unfoldable pub safe_error : Exc → String
unfolding take_text
safe_error e = type_name e <> (": " <> take_text 120 e.text)

abbrev pub is_up : Service → Bool
is_up s = elim s.status [ up ↦ true | down ↦ false ]

abbrev or_zero : Option String → String
or_zero none = "0"
or_zero (some n) = n

abbrev pub resources_of : LocalLabConfig → List (String × String)
resources_of settings =
    ("kafka_topic", settings.kafka_topic)
    ∷ ("kafka_dlq_topic", settings.kafka_dlq_topic)
    ∷ ("kafka_consumer_group", settings.kafka_consumer_group)
    ∷ ("sqs_queue", settings.sqs_queue_name)
    ∷ ("sqs_dlq", settings.sqs_dlq_name)
    ∷ ("kafka_schema", settings.kafka_schema)
    ∷ ("sqs_schema", settings.sqs_schema)
    ∷ ("console_url", settings.console_url)
    ∷ ("adminer_url", settings.adminer_url)
    ∷ []

-- The dictionary of an order, `F` the floats.
pub record OrderJson (F : Type 0) : Type 0 where
  pub order_id : String
  pub customer_id : String
  pub amount : F
  pub currency : String
  pub event_id : String
  pub correlation_id : String

-- _order_json
unfoldable pub order_json : {F : Type 0} → (Decimal → F) → StoredOrder → OrderJson F
order_json to_float order = record {
  order_id = order.order_id;
  customer_id = order.customer_id;
  amount = to_float order.amount;
  currency = strip order.currency;
  event_id = str_uuid order.source_event_id;
  correlation_id = order.correlation_id;
}

-- The answer of the control route: the broker with its state, or a status with its detail.
pub data ControlAnswer : Type 0 where
  changed : String → Bool → ControlAnswer
  refused : ℕ → String → ControlAnswer

abbrev pub is_control : String → String → Bool
is_control broker action =
    (str_eq broker "kafka" || str_eq broker "sqs")
    && (str_eq action "pause" || str_eq action "resume")

module _ {W : Type 0} (services : LabServices W) (settings : LocalLabConfig) where
  -- try: services[name] = {"status": "up", ...} except Exception: services[name] = {"status": "down", ...}
  abbrev pub probe : {A : Type 0} → Eff W A → (A → String) → Eff W Service
  probe call detail =
      try_except call (λ e. pure (record { status = down; detail = safe_error e }))
        (λ a. pure (record { status = up; detail = detail a }))

  abbrev pub topic_detail : TopicMetadata → String
  topic_detail metadata =
      metadata.name <> (" · " <> (str_int (partition_count metadata) <> " partitions"))

  abbrev pub queue_detail : Option String → String
  queue_detail depth = settings.sqs_queue_name <> (" · " <> (or_zero depth <> " ready"))

  abbrev pub orders_detail : ℕ → String
  orders_detail total = "order-app · " <> (str_int total <> " processed orders")

  -- kafka_store.order_count() + sqs_store.order_count()
  abbrev pub total_orders : Eff W ℕ
  total_orders = do
    kafka ← services.kafka_order_count
    sqs ← services.sqs_order_count
    pure (kafka + sqs)

  abbrev pub report : Service → Service → Service → List (String × Bool) → HealthReport
  report kafka sqs postgres consumers = record {
    ready = is_up kafka && is_up sqs && is_up postgres;
    kafka = kafka;
    sqs = sqs;
    postgres = postgres;
    consumers = consumers;
    resources = resources_of settings;
  }

  unfoldable pub health : Eff W HealthReport
  unfolding safe_error
  health = do
    kafka ← probe (services.describe_topic settings.kafka_topic) topic_detail
    sqs ← probe services.queue_depth queue_detail
    postgres ← probe total_orders orders_detail
    consumers ← services.states
    pure (report kafka sqs postgres consumers)

  unfoldable pub change_consumer_state : String → String → Eff W ControlAnswer
  change_consumer_state broker action =
      if is_control broker action
      then (do
        services.set_paused broker (str_eq action "pause")
        pure (changed broker (str_eq action "pause")))
      else pure (refused 404 "Unknown consumer control.")

  -- `list_orders()` has the limit 25.
  unfoldable pub state :
      {F : Type 0} → (Decimal → F) → Eff W (List (OrderJson F) × List (OrderJson F))
  unfolding order_json
  state to_float = do
    kafka ← services.kafka_orders (pos 25)
    sqs ← services.sqs_orders (pos 25)
    pure (map (order_json to_float) kafka, map (order_json to_float) sqs)
