-- ===== src/Deployment/SqsExamples.antt =====
-- A message that the SQS consumer receives twice.
use kafka_sqs.Base.{◌≡◌, refl, some, List, [], ◌∷◌}
use kafka_sqs.Base.Text.{str_uuid}
use kafka_sqs.Base.Effect.{value, ok}
use kafka_sqs.Contracts.Validation.{parse_order_created_event}
use kafka_sqs.Postgres.Transaction.{healthy_server, healthy_server-IsHealthy}
use kafka_sqs.OrderStore.Rows.{
  completed, insert_claim, insert_order, amount_column, hundredths, update_completed, complete_rows,
  new_claim, new_order, delete_orders, delete_claims,
}
use kafka_sqs.OrderStore
use kafka_sqs.OrderStore.Consistent.{discarded}
use kafka_sqs.OrderStore.Lasting.{Passes, same, then_ran}
use kafka_sqs.Samples.{order, sim_libraries}
use kafka_sqs.SqsConsumer.{SqsMessage, SqsClient, parse_body, process_one}
use kafka_sqs.Deployment.{World, deployed_sqs}
use kafka_sqs.Deployment.Sqs.{process_one-process_one}
use kafka_sqs.Base.Int.{pos}

abbrev queued : SqsMessage
queued = record { body = "{}"; receipt_handle = "handle-1" }

-- The queue shows what it holds, and is empty after a deletion.
abbrev client : SqsClient (List SqsMessage)
client = record {
  receive_message = λ url seconds w. ok w w;
  delete_message = λ url handle w. ok tt [];
}

abbrev before : World (List SqsMessage)
before = record {
  db = record { tables = record { orders = some []; processed_events = some [] }; calls = 0 };
  rest = queued ∷ [];
}

abbrev after : World (List SqsMessage)
after = record {
  db = record {
    tables = record {
      orders = some (new_order 0 order (record { digits = pos 50000; places = 2 }) ∷ []);
      processed_events = some (
          record (new_claim 0 7 "order.created") { status = completed; processed_at = some 4 }
          ∷ []);
    };
    calls = 7;
  };
  rest = [];
}

stores_message :
    process_one sim_libraries (deployed_sqs healthy_server "orders" client) 2 before
    ≡ ok (str_uuid 7) after
unfolding process_one parse_body parse_order_created_event OrderStore.store
    OrderStore.mark_completed insert_claim insert_order amount_column hundredths update_completed
    complete_rows
stores_message = refl

queued_is_valid : parse_body sim_libraries queued.body ≡ value order
unfolding parse_body parse_order_created_event
queued_is_valid = refl

-- Another worker discards another event in between.
abbrev again : World (List SqsMessage)
again = record { db = record after.db { calls = 11 }; rest = queued ∷ [] }

discards_other : OrderStore.discard healthy_server 9 after.db ≡ ok tt again.db
unfolding OrderStore.discard delete_orders delete_claims
discards_other = refl

again_Passes : Passes 7 after.db.tables again.db.tables
again_Passes = then_ran healthy_server after.db again.db same refl (discarded 9 discards_other) refl

process_one-process_one_example :
    (w' : World (List SqsMessage)) × (process_one sim_libraries
        (deployed_sqs healthy_server "orders" client)
        2
        again
      ≡ ok (str_uuid 7) w')
    × (w'.db.tables ≡ again.db.tables)
    × (w'.rest ≡ [])
process_one-process_one_example =
    process_one-process_one sim_libraries "orders" client healthy_server healthy_server-IsHealthy
      healthy_server 2 2 queued queued [] [] order before after again (queued ∷ []) (queued ∷ []) []
      (str_uuid 7) refl queued_is_valid stores_message again_Passes refl queued_is_valid refl
