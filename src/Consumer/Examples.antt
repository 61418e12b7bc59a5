-- ===== src/Consumer/Examples.antt =====
-- Runs of the consumer on a small world, and the theorems at that world.
use kafka_sqs.Base.{ℕ, suc, ◌<◌, ◌≡◌, refl, true, false, Option, none, some, List, [], ◌∷◌, arith}
use native.Mathlib.Nat.{le_refl}
use kafka_sqs.Base.Int.{pos}
use kafka_sqs.Base.Effect.{Outcome, ok}
use kafka_sqs.Samples.{order, sim_libraries, message, sim_settings}
use kafka_sqs.Clients.{Runtime, Message}
use kafka_sqs.Contracts.Validation.{parse_order_created_event}
use kafka_sqs.Consumer.{decode_event, ProcessedKafkaRecord, KafkaOrderConsumer}
use kafka_sqs.Consumer.Process.{default_policy, process_one}
use kafka_sqs.Consumer.Watch.{watched, watched_runtime, idle}
use kafka_sqs.Consumer.Ends.{Ends}
use kafka_sqs.Consumer.Attempts.{process_one_Ends, Settled}
use kafka_sqs.Consumer.Ordered.{Uncommitted}
use kafka_sqs.Consumer.Total.{CallsFinish, ClockRuns, process_one_Finishes}
use kafka_sqs.Base.Finishes.{Finishes}
use kafka_sqs.Base.Effect.{value, raise, runtime_error, is_instance}
use kafka_sqs.Contracts.Json.{object, end}
use kafka_sqs.DeadLetter.{is_retryable}
use kafka_sqs.Consumer.{order_consumer_error}
use kafka_sqs.Consumer.Process.{handle_message}
use kafka_sqs.Consumer.Count.{Leaves}
use kafka_sqs.Consumer.Budget.{Counts, Told, Within, handle_message-Told}

-- A broker with records to deliver, a clock, and the committed offsets.
record Sim : Type 0 where
  now : ℕ
  inbox : List Message
  offsets : List ℕ

abbrev sim_runtime : Runtime Sim
sim_runtime = record {
  monotonic = λ w. (w.now, w);
  uuid4 = λ w. (1, w);
  utc_now = λ w. (order.occurred_at, w);
  wait = λ d w. w;
}

poll_sim : List Message → Sim → Outcome Sim (Option Message)
poll_sim [] w = ok none (record w { now = suc w.now })
poll_sim (m ∷ rest) w = ok (some m) (record w { inbox = rest })

abbrev sim_consumer : KafkaOrderConsumer Sim
sim_consumer = record {
  settings = sim_settings;
  topic = "orders.created";
  store = record {
    store = λ event w. ok (record { is_new = true; downstream_required = true }) w;
    mark_completed = λ id w. ok tt w;
    discard = λ id w. ok tt w;
  };
  downstream = some (λ event w. ok tt w);
  retry_policy = default_policy;
  dead_letter_publisher = none;
  dead_letter_topic = none;
  consumer = record {
    subscribe = λ topics w. ok tt w;
    poll = λ d w. poll_sim w.inbox w;
    commit = λ m w. ok [] (record w { offsets = m.offset ∷ w.offsets });
    close = λ w. ok tt w;
  };
  closed = false;
}

abbrev sim_start : Sim
sim_start = record { now = 0; inbox = message ∷ []; offsets = [] }

offsets_of : Outcome Sim ProcessedKafkaRecord → List ℕ
offsets_of (ok r w) = w.offsets
offsets_of _ = []

commits_the_offset :
    offsets_of (process_one sim_libraries sim_runtime sim_consumer (pos 1000000) sim_start)
    ≡ 41 ∷ []
unfolding offsets_of process_one poll_sim decode_event parse_order_created_event
commits_the_offset = refl

process_one_Ends_example :
    Ends
      (process_one sim_libraries
        (watched_runtime sim_runtime)
        (watched sim_consumer)
        (pos 1000000)
        (record { world = sim_start; phase = idle }))
      (λ r p. (m : Message) × Settled m r p)
      Uncommitted
process_one_Ends_example =
    process_one_Ends sim_libraries sim_runtime sim_consumer (pos 1000000) sim_start

poll_sim_Finishes : (l : List Message) (w : Sim) → Finishes (poll_sim l w)
unfolding poll_sim
poll_sim_Finishes [] w = record { finishes = refl }
poll_sim_Finishes (m ∷ rest) w = record { finishes = refl }

sim_CallsFinish : CallsFinish sim_consumer
sim_CallsFinish = record {
  store = λ event w. record { finishes = refl };
  mark = λ id w. record { finishes = refl };
  discard = λ id w. record { finishes = refl };
  send = λ event w. record { finishes = refl };
  publish = tt;
  poll = λ d w. poll_sim_Finishes w.inbox w;
  commit = λ m w. record { finishes = refl };
}

poll_sim_waits : (l : List Message) (w w' : Sim) → poll_sim l w ≡ ok none w' → w.now < w'.now
unfolding poll_sim
poll_sim_waits [] w w' h = ground arith
poll_sim_waits (m ∷ rest) w w' h = absurd (ground arith)

sim_ClockRuns : ClockRuns sim_runtime sim_consumer
sim_ClockRuns = record {
  time = λ w. w.now;
  reads = λ w. refl;
  keeps = λ w. le_refl w.now;
  waits = λ d w w' h. poll_sim_waits w.inbox w w' h;
}

process_one_Finishes_example :
    Finishes (process_one sim_libraries sim_runtime sim_consumer (pos 1000000) sim_start)
process_one_Finishes_example =
    process_one_Finishes sim_libraries sim_runtime sim_consumer sim_CallsFinish sim_ClockRuns
      (pos 1000000) sim_start

-- The world is the number of calls of `store`, which never succeeds.
abbrev failing_consumer : KafkaOrderConsumer ℕ
failing_consumer = record {
  settings = sim_settings;
  topic = "orders.created";
  store = record {
    store = λ event n. raise (runtime_error "no connection") (suc n);
    mark_completed = λ id n. ok tt n;
    discard = λ id n. ok tt n;
  };
  downstream = none;
  retry_policy = record {
    max_attempts = pos 3;
    backoff_seconds = pos 0;
    retryable_errors = "RuntimeError" ∷ [];
  };
  dead_letter_publisher = none;
  dead_letter_topic = none;
  consumer = record {
    subscribe = λ topics n. ok tt n;
    poll = λ d n. ok none n;
    commit = λ m n. ok [] n;
    close = λ n. ok tt n;
  };
  closed = false;
}

abbrev still_runtime : Runtime ℕ
still_runtime = record {
  monotonic = λ n. (0, n);
  uuid4 = λ n. (1, n);
  utc_now = λ n. (order.occurred_at, n);
  wait = λ d n. n;
}

gives_up_after_three :
    handle_message sim_libraries still_runtime failing_consumer message 0
    ≡ raise order_consumer_error 3
unfolding handle_message decode_event parse_order_created_event is_retryable is_instance
gives_up_after_three = refl

failing_Counts : Counts still_runtime failing_consumer (λ n. n)
failing_Counts = record {
  stores = λ event n. record { at = refl };
  marks = λ id n. record { at = refl };
  discards = λ id n. record { at = refl };
  sends = λ event n. record { at = refl };
  publishes = λ failure n. record { at = refl };
  commits = λ m n. record { at = refl };
  waits = λ d n. refl;
}

message_is_valid : decode_event sim_libraries message.payload ≡ value (object end, order)
unfolding decode_event parse_order_created_event
message_is_valid = refl

handle_message-Told_example :
    Leaves
      (handle_message sim_libraries still_runtime failing_consumer message 0)
      (Told sim_libraries still_runtime failing_consumer (λ n. n) failing_Counts 0)
      (Within sim_libraries still_runtime failing_consumer (λ n. n) failing_Counts 0)
handle_message-Told_example =
    handle_message-Told sim_libraries still_runtime failing_consumer (λ n. n) failing_Counts message
      (object end) order 0 message_is_valid
