-- ===== src/Workers/Main.antt =====
-- main of local_lab/consumer_worker.py. argparse has read the broker, and a signal handler sets the
-- stop event; a worker makes its parts from the settings.
use kafka_sqs.Base.{ℕ, String}
use kafka_sqs.Base.Effect.{Eff, lift, ◌>>=◌}
use kafka_sqs.Contracts.Libraries.{Libraries}
use kafka_sqs.Clients.{Runtime, ConsumerClient}
use kafka_sqs.DeadLetter.{DeadLetterFailure}
use kafka_sqs.LabConfig.{LocalLabConfig, Environment, from_environment}
use kafka_sqs.SqsConsumer.{SqsClient}
use kafka_sqs.Workers.{StopEvent, PauseControls, WorkerStore, run_kafka_worker, run_sqs_worker}

-- choices=("kafka", "sqs")
pub data WorkerBroker : Type 0 where
  kafka_broker : WorkerBroker
  sqs_broker : WorkerBroker

-- PostgresOrderStore with the schema of the broker, ConsumerControlStore, the publish_failure of
-- KafkaDeadLetterPublisher, the client of confluent-kafka, build_sqs_client and get_queue_url.
pub record WorkerParts (W : Type 0) : Type 0 where
  pub kafka_store : LocalLabConfig → WorkerStore W
  pub sqs_store : LocalLabConfig → WorkerStore W
  pub controls : LocalLabConfig → PauseControls W
  pub publish_failure : LocalLabConfig → String → DeadLetterFailure → Eff W (Unit {0})
  pub make_client : LocalLabConfig → Eff W (ConsumerClient W)
  pub build_sqs_client : LocalLabConfig → Eff W (SqsClient W)
  pub get_queue_url : SqsClient W → String → Eff W String

module _ {W : Type 0} (lib : Libraries) (run : Runtime W) (stop : StopEvent W)
    (parts : WorkerParts W) where
  -- if args.broker == "kafka": ...
  abbrev pub run_worker : WorkerBroker → LocalLabConfig → ℕ → Eff W (Unit {0})
  run_worker kafka_broker settings fuel =
      run_kafka_worker lib run stop (parts.controls settings) (parts.kafka_store settings) settings
        (parts.publish_failure settings) (parts.make_client settings) fuel
  run_worker sqs_broker settings fuel = do
    client ← parts.build_sqs_client settings
    run_sqs_worker lib run stop (parts.controls settings) (parts.sqs_store settings) settings client
        (parts.get_queue_url client) fuel

  unfoldable pub main : WorkerBroker → Environment → ℕ → Eff W (Unit {0})
  unfolding from_environment run_kafka_worker run_sqs_worker
  main broker env fuel = do settings ← lift (from_environment env); run_worker broker settings fuel
