-- ===== src/SqsConsumer/Examples.antt =====
-- A queue of one message, and a store that fails or works.
use kafka_sqs.Base.{String, ◌≡◌, refl, true, List, [], ◌∷◌}
use kafka_sqs.Base.Text.{str_uuid}
use kafka_sqs.Base.Effect.{Eff, ok, raise, runtime_error}
use kafka_sqs.Contracts.Event.{OrderCreatedEvent}
use kafka_sqs.Contracts.Validation.{parse_order_created_event}
use kafka_sqs.OrderStore.{EventStoreResult}
use kafka_sqs.Samples.{sim_libraries}
use kafka_sqs.SqsConsumer.{SqsMessage, SqsOrderConsumer, parse_body, process_one}
use kafka_sqs.SqsConsumer.Deletes.{Undeleted, Persisted, process_one_ok, process_one_raise}

abbrev queued : SqsMessage
queued = record { body = "{}"; receipt_handle = "handle-1" }

abbrev consumer_over :
    (OrderCreatedEvent → Eff (List SqsMessage) EventStoreResult)
    → SqsOrderConsumer (List SqsMessage)
consumer_over store = record {
  client = record {
    receive_message = λ url seconds w. ok w w;
    delete_message = λ url handle w. ok tt [];
  };
  queue_url = "http://localhost:4566/orders";
  store = record { store = store; mark_completed = λ id w. ok tt w; discard = λ id w. ok tt w };
}

abbrev working : SqsOrderConsumer (List SqsMessage)
working = consumer_over (λ event w. ok (record { is_new = true; downstream_required = true }) w)

abbrev failing : SqsOrderConsumer (List SqsMessage)
failing = consumer_over (λ event w. raise (runtime_error "no database") w)

abbrev order_name : String
order_name = "00000000-0000-0000-0000-000000000007"

deletes_stored_message : process_one sim_libraries working 20 (queued ∷ []) ≡ ok order_name []
unfolding process_one parse_body parse_order_created_event str_uuid
deletes_stored_message = refl

process_one_ok_example : Persisted sim_libraries working order_name []
process_one_ok_example =
    process_one_ok sim_libraries working 20 order_name (queued ∷ []) [] deletes_stored_message

leaves_refused_message :
    process_one sim_libraries failing 20 (queued ∷ [])
    ≡ raise (runtime_error "no database") (queued ∷ [])
unfolding process_one parse_body parse_order_created_event
leaves_refused_message = refl

process_one_raise_example :
    Undeleted sim_libraries failing 20 (runtime_error "no database") (queued ∷ []) (queued ∷ [])
process_one_raise_example =
    process_one_raise sim_libraries failing 20 (runtime_error "no database") (queued ∷ [])
      (queued ∷ []) leaves_refused_message
