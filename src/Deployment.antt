-- ===== src/Deployment.antt =====
-- local_lab/consumer_worker.py: the Kafka consumer put together with its PostgreSQL store. The world
-- is the database and `rest`, in which the brokers and the notified service live.
pub mod Settled
pub mod Valid
pub mod Redelivered
pub mod Delivered
pub mod Sqs
pub mod Partition
mod Examples
mod SqsExamples
mod PartitionExamples
use kafka_sqs.Base.{false, String, Option, none, some}
use kafka_sqs.Base.Int.{ℤ}
use kafka_sqs.Base.Effect.{Exc, Outcome, ok, raise, out_of_fuel, Eff}
use kafka_sqs.Contracts.Event.{OrderCreatedEvent}
use kafka_sqs.Clients.{Runtime, ConsumerClient}
use kafka_sqs.DeadLetter.{RetryPolicy, DeadLetterFailure}
use kafka_sqs.Postgres.{Server, Database}
use kafka_sqs.OrderStore.Rows.{Tables}
use kafka_sqs.OrderStore
use kafka_sqs.Consumer.{ConsumerSettings, KafkaOrderConsumer, OrderStore as Store}
use kafka_sqs.SqsConsumer.{SqsClient, SqsOrderConsumer}

pub record World (E : Type 0) : Type 0 where
  pub db : Database Tables
  pub rest : E

module _ {E A : Type 0} where
  abbrev pub put_db : World E → Outcome (Database Tables) A → Outcome (World E) A
  put_db w (ok a db) = ok a (record w { db = db })
  put_db w (raise e db) = raise e (record w { db = db })
  put_db w out_of_fuel = out_of_fuel

  abbrev pub on_db : Eff (Database Tables) A → Eff (World E) A
  on_db m w = put_db w (m w.db)

  abbrev pub put_rest : World E → Outcome E A → Outcome (World E) A
  put_rest w (ok a rest) = ok a (record w { rest = rest })
  put_rest w (raise e rest) = raise e (record w { rest = rest })
  put_rest w out_of_fuel = out_of_fuel

  abbrev pub on_rest : Eff E A → Eff (World E) A
  on_rest m w = put_rest w (m w.rest)

module _ {E : Type 0} where
  abbrev pub send_on_rest :
      Option (OrderCreatedEvent → Eff E (Unit {0}))
      → Option (OrderCreatedEvent → Eff (World E) (Unit {0}))
  send_on_rest none = none
  send_on_rest (some send) = some (λ event. on_rest (send event))

  abbrev pub publish_on_rest :
      Option (String → DeadLetterFailure → Eff E (Unit {0}))
      → Option (String → DeadLetterFailure → Eff (World E) (Unit {0}))
  publish_on_rest none = none
  publish_on_rest (some publish_failure) =
      some (λ topic failure. on_rest (publish_failure topic failure))

-- PostgresOrderStore(...)
abbrev pub store_on_db : {E : Type 0} → Server → Store (World E)
store_on_db server = record {
  store = λ event. on_db (OrderStore.store server event);
  mark_completed = λ id. on_db (OrderStore.mark_completed server id);
  discard = λ id. on_db (OrderStore.discard server id);
}

-- The brokers and the service that a consumer is given.
pub record Surroundings (E : Type 0) : Type 0 where
  pub downstream : Option (OrderCreatedEvent → Eff E (Unit {0}))
  pub dead_letter_publisher : Option (String → DeadLetterFailure → Eff E (Unit {0}))
  pub dead_letter_topic : Option String
  pub consumer : ConsumerClient E

-- KafkaOrderConsumer(settings, topic, PostgresOrderStore(...), ...)
abbrev pub deployed :
    {E : Type 0}
    → Server
    → ConsumerSettings
    → String
    → RetryPolicy
    → Surroundings E
    → KafkaOrderConsumer (World E)
deployed server settings topic policy s = record {
  settings = settings;
  topic = topic;
  store = store_on_db server;
  downstream = send_on_rest s.downstream;
  retry_policy = policy;
  dead_letter_publisher = publish_on_rest s.dead_letter_publisher;
  dead_letter_topic = s.dead_letter_topic;
  consumer = record {
    subscribe = λ topics. on_rest (s.consumer.subscribe topics);
    poll = λ timeout. on_rest (s.consumer.poll timeout);
    commit = λ m. on_rest (s.consumer.commit m);
    close = on_rest s.consumer.close;
  };
  closed = false;
}

-- SqsOrderConsumer(client, queue_url, PostgresOrderStore(...))
abbrev pub deployed_sqs : {E : Type 0} → Server → String → SqsClient E → SqsOrderConsumer (World E)
deployed_sqs server queue_url client = record {
  client = record {
    receive_message = λ url seconds. on_rest (client.receive_message url seconds);
    delete_message = λ url handle. on_rest (client.delete_message url handle);
  };
  queue_url = queue_url;
  store = store_on_db server;
}
