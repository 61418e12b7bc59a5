-- ===== src/Workers.antt =====
-- local_lab/consumer_worker.py: the two workers. The stop event, which a signal handler sets, the
-- pause controls and the stores are interfaces; printing and argparse are left out.
pub mod Pausing
pub mod Stopping
pub mod Main
mod Examples
use kafka_sqs.Base.{
  ℕ, zero, suc, String, Bool, true, false, Option, none, some, List, [], ◌∷◌, if◌then◌else◌,
}
use kafka_sqs.Base.Int.{ℤ, pos}
use kafka_sqs.Base.Effect.{
  Exc, is_instance, Outcome, ok, raise, out_of_fuel, Eff, pure, throw, reads, try_except, continue,
  ◌>>=◌, ◌>>◌,
}
use kafka_sqs.Contracts.Libraries.{Libraries}
use kafka_sqs.Clients.{Runtime, ConsumerClient}
use kafka_sqs.DeadLetter.{DeadLetterFailure}
use kafka_sqs.Consumer.{ConsumerSettings, ProcessedKafkaRecord, OrderStore, KafkaOrderConsumer}
use kafka_sqs.Consumer.Process.{make_consumer, close}
use kafka_sqs.Consumer.Process as KafkaProcess
use kafka_sqs.SqsConsumer
use kafka_sqs.SqsConsumer.{SqsClient}
use kafka_sqs.LabConfig.{LocalLabConfig}

-- threading.Event
pub record StopEvent (W : Type 0) : Type 0 where
  pub is_set : W → Bool × W
  pub wait : ℤ → W → W

-- What the workers use of ConsumerControlStore.
pub record PauseControls (W : Type 0) : Type 0 where
  pub initialize : Eff W (Unit {0})
  pub is_paused : String → Eff W Bool

-- A store with its `initialize`.
pub record WorkerStore (W : Type 0) : Type 0 where
  pub initialize : Eff W (Unit {0})
  pub store : OrderStore W

module _ {W : Type 0} (stop : StopEvent W) where
  abbrev pub wait_stop : ℤ → Eff W (Unit {0})
  wait_stop seconds w = pure tt (stop.wait seconds w)

  -- The `try` statement of a round: a timeout goes on at once, any other exception after a second.
  abbrev pub process_round :
      {R : Type 0} → (Exc → Bool) → Eff W R → Eff W (Unit {0}) → Eff W (Unit {0})
  process_round is_timeout process_one again =
      try_except process_one
        (λ e. if is_timeout e then again else (wait_stop (pos 1000000) >> again)) (λ _. again)

  -- while not stop.is_set(): ... on fuel, since a worker runs for as long as nobody stops it.
  unfoldable pub worker_loop :
      {R : Type 0} → Eff W Bool → (Exc → Bool) → Eff W R → ℕ → Eff W (Unit {0})
  worker_loop is_paused is_timeout process_one zero = λ w. out_of_fuel
  worker_loop is_paused is_timeout process_one (suc fuel) = do
    stopped ← reads stop.is_set
    if stopped then pure tt else do
      paused ← is_paused
      let again = worker_loop is_paused is_timeout process_one fuel
      if paused
          then (wait_stop (pos 500000) >> again)
          else process_round is_timeout process_one again

  abbrev pub is_kafka_timeout : Exc → Bool
  is_kafka_timeout e = is_instance e ("OrderConsumerTimeout" ∷ [])

  abbrev pub is_sqs_timeout : Exc → Bool
  is_sqs_timeout e = is_instance e ("TimeoutError" ∷ [])

  -- with consumer: block
  abbrev pub closing : Eff W (KafkaOrderConsumer W) → Outcome W (Unit {0}) → Outcome W (Unit {0})
  closing close (ok u w) = continue (close w) (λ _. ok tt)
  closing close (raise e w) = continue (close w) (λ _. raise e)
  closing close out_of_fuel = out_of_fuel

  abbrev pub with_consumer : Eff W (KafkaOrderConsumer W) → Eff W (Unit {0}) → Eff W (Unit {0})
  with_consumer close block w = closing close (block w)

-- ConsumerSettings(bootstrap_servers, group_id)
abbrev pub settings_for : LocalLabConfig → ConsumerSettings
settings_for config = record {
  bootstrap_servers = config.kafka_bootstrap_servers;
  group_id = config.kafka_consumer_group;
  client_id = "order-app-consumer";
  offset_reset = "earliest";
  poll_interval_seconds = pos 200000;
}

module _ {W : Type 0} (lib : Libraries) (run : Runtime W) (stop : StopEvent W)
    (controls : PauseControls W) (store : WorkerStore W) (config : LocalLabConfig) where
  -- `publish_failure` is that of the KafkaDeadLetterPublisher, and `make_client` gives the client of
  -- confluent-kafka.
  unfoldable pub run_kafka_worker :
      (String → DeadLetterFailure → Eff W (Unit {0}))
      → Eff W (ConsumerClient W)
      → ℕ
      → Eff W (Unit {0})
  unfolding worker_loop make_consumer close
  run_kafka_worker publish_failure make_client fuel = do
    store.initialize
    controls.initialize
    consumer ←
        make_consumer (settings_for config) config.kafka_topic store.store none none
          (some publish_failure) (some config.kafka_dlq_topic) none make_client
    with_consumer stop (close consumer) (
        worker_loop stop (controls.is_paused "kafka") (is_kafka_timeout stop)
          (KafkaProcess.process_one lib run consumer (pos 2000000)) fuel)

  -- `get_queue_url` is that of resource_setup.py, for a client of boto3.
  unfoldable pub run_sqs_worker : SqsClient W → (String → Eff W String) → ℕ → Eff W (Unit {0})
  unfolding worker_loop
  run_sqs_worker client get_queue_url fuel = do
    queue_url ← get_queue_url config.sqs_queue_name
    store.initialize
    controls.initialize
    worker_loop stop (controls.is_paused "sqs") (is_sqs_timeout stop)
        (SqsConsumer.process_one lib
          (record { client = client; queue_url = queue_url; store = store.store }) 2)
        fuel
