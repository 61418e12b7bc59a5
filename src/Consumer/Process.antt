-- ===== src/Consumer/Process.antt =====
-- order_processing/kafka_order_consumer.py: __init__, `process_one`, `_commit`, `_dead_letter`
-- and `close`. The poll loop and the retry loop take fuel.
use kafka_sqs.Base.{
  ℕ, zero, suc, ◌+◌, ◌-◌, String, Bool, true, false, not, ◌&&◌, Option, none, some, [], ◌∷◌, leb,
  if◌then◌else◌,
}
use kafka_sqs.Base.Int.{ℤ, pos, leb_ℤ, ltb_ℤ, min_ℤ, pos_part}
use kafka_sqs.Base.Text.{is_blank, str_uuid}
use kafka_sqs.Base.Lists.{any}
use kafka_sqs.Base.Effect.{
  Exc, Reply, value, error, out_of_fuel, Eff, pure, throw, reads, try_except, ◌>>=◌, ◌>>◌,
  value_error,
}
use kafka_sqs.Contracts.Event.{OrderCreatedEvent}
use kafka_sqs.Contracts.Json.{Json}
use kafka_sqs.Contracts.Libraries.{Libraries}
use kafka_sqs.Clients.{Runtime, Message, ConsumerClient}
use kafka_sqs.DeadLetter.{RetryPolicy, is_retryable, DeadLetterFailure}
use kafka_sqs.OrderStore.{EventStoreResult}
use kafka_sqs.Consumer.{
  order_consumer_error, order_consumer_timeout, ConsumerSettings, ProcessedKafkaRecord, OrderStore,
  KafkaOrderConsumer, is_some, is_false, first_decision, decode_event, safe_original_payload,
  failure_of,
}

-- `raise AssertionError`
abbrev pub assertion_error : Exc
assertion_error = record { classes = "AssertionError" ∷ "Exception" ∷ []; text = "" }

-- RetryPolicy(retryable_errors=(DownstreamNotificationError,))
abbrev pub default_policy : RetryPolicy
default_policy = record {
  max_attempts = pos 1;
  backoff_seconds = pos 0;
  retryable_errors = "DownstreamNotificationError" ∷ [];
}

abbrev or_default : Option RetryPolicy → RetryPolicy
or_default none = default_policy
or_default (some policy) = policy

abbrev differ : Bool → Bool → Bool
differ true b = not b
differ false b = b

module _ {ℓ} {W : Type ℓ} where
  abbrev client_or : Option (ConsumerClient W) → Eff W (ConsumerClient W) → Eff W (ConsumerClient W)
  client_or none make_client = make_client
  client_or (some client) make_client = pure client

  -- __init__, with the client that `consumer or Consumer(settings.as_confluent_config())` gives:
  -- `make_client` is used where no client is supplied.
  unfoldable pub make_consumer :
      ConsumerSettings
      → String
      → OrderStore W
      → Option (OrderCreatedEvent → Eff W (Unit {0}))
      → Option RetryPolicy
      → Option (String → DeadLetterFailure → Eff W (Unit {0}))
      → Option String
      → Option (ConsumerClient W)
      → Eff W (ConsumerClient W)
      → Eff W (KafkaOrderConsumer W)
  unfolding is_blank
  make_consumer settings topic store downstream policy publisher dlq_topic supplied make_client =
      if is_blank topic
      then throw (value_error "Kafka topic must not be blank.")
      else if differ (is_some publisher) (is_some dlq_topic)
      then throw
          (value_error "dead_letter_publisher and dead_letter_topic must be provided together.")
      else do
        client ← client_or supplied make_client
        client.subscribe (topic ∷ [])
        pure (record {
          settings = settings;
          topic = topic;
          store = store;
          downstream = downstream;
          retry_policy = or_default policy;
          dead_letter_publisher = publisher;
          dead_letter_topic = dlq_topic;
          consumer = client;
          closed = false;
        })

  abbrev set_closed : KafkaOrderConsumer W → KafkaOrderConsumer W
  set_closed self = record self { closed = true }

  -- The object after the call, if the client's `close` does not raise.
  unfoldable pub close : KafkaOrderConsumer W → Eff W (KafkaOrderConsumer W)
  close self = if self.closed then pure self else (do self.consumer.close; pure (set_closed self))

module _ {ℓ} {W : Type ℓ} where
  -- if message is not None: break
  abbrev pub or_again : Option Message → Eff W (Option Message) → Eff W (Option Message)
  or_again none again = again
  or_again (some message) again = pure (some message)

  -- The two assertions of `_dead_letter`, and the publication.
  abbrev pub publish_to :
      Option (String → DeadLetterFailure → Eff W (Unit {0}))
      → Option String
      → DeadLetterFailure
      → Eff W (Unit {0})
  publish_to none topic failure = throw assertion_error
  publish_to (some publish_failure) none failure = throw assertion_error
  publish_to (some publish_failure) (some topic) failure = publish_failure topic failure

  abbrev pub send_to :
      Option (OrderCreatedEvent → Eff W (Unit {0})) → OrderCreatedEvent → Eff W (Unit {0})
  send_to none event = pure tt
  send_to (some send) event = send event

module _ {ℓ} {W : Type ℓ} (lib : Libraries) (run : Runtime W) (self : KafkaOrderConsumer W) where
  -- while monotonic() < deadline: ...
  unfoldable pub poll_loop : ℕ → ℕ → Eff W (Option Message)
  poll_loop zero deadline = λ w. out_of_fuel
  poll_loop (suc fuel) deadline = do
    now ← reads run.monotonic
    if leb deadline now then pure none else do
      later ← reads run.monotonic
      if leb deadline later then pure none else do
        polled ←
            self.consumer.poll (min_ℤ self.settings.poll_interval_seconds (pos (deadline - later)))
        or_again polled (poll_loop fuel deadline)

  -- _commit
  unfoldable pub commit : Message → Eff W (Unit {0})
  commit message =
      try_except (self.consumer.commit message) (λ e. throw order_consumer_error)
        (λ errors. if any is_some errors then throw order_consumer_error else pure tt)

  abbrev pub record_of : Message → String → Bool → ℕ → Bool → ProcessedKafkaRecord
  record_of message event_id duplicate attempts dead_lettered = record {
    event_id = event_id;
    topic = message.topic;
    partition = message.partition;
    offset = message.offset;
    group_id = self.settings.group_id;
    duplicate = duplicate;
    attempts = attempts;
    dead_lettered = dead_lettered;
  }

  abbrev pub id_or_unknown : Option OrderCreatedEvent → String
  id_or_unknown none = "unknown"
  id_or_unknown (some event) = str_uuid event.event_id

  -- _dead_letter
  unfoldable pub dead_letter :
      Message → Json → Exc → ℕ → Option OrderCreatedEvent → Bool → Eff W ProcessedKafkaRecord
  unfolding commit failure_of
  dead_letter message original_payload e attempts event duplicate = do
    publish_to self.dead_letter_publisher self.dead_letter_topic
        (failure_of lib message original_payload e attempts event)
    commit message
    pure (record_of message (id_or_unknown event) duplicate attempts true)

  -- The work of a stored event that is still open.
  abbrev pub finish_effects : OrderCreatedEvent → EventStoreResult → Eff W (Unit {0})
  finish_effects event result =
      if result.downstream_required
      then (do send_to self.downstream event; self.store.mark_completed event.event_id)
      else pure tt

  abbrev pub can_retry : Exc → ℕ → Bool
  can_retry e attempts =
      is_retryable self.retry_policy e && ltb_ℤ (pos attempts) self.retry_policy.max_attempts

  -- The handler of an exception that the effects raise; `retry` is the rest of the loop.
  abbrev pub recover :
      Message
      → Json
      → OrderCreatedEvent
      → ℕ
      → Option Bool
      → Exc
      → Eff W ProcessedKafkaRecord
      → Eff W ProcessedKafkaRecord
  recover message payload event attempts initial e retry =
      if can_retry e attempts
      then (λ w. retry (run.wait self.retry_policy.backoff_seconds w))
      else if is_some self.dead_letter_publisher
      then (do
        self.store.discard event.event_id
        dead_letter message payload e attempts (some event) (is_false initial))
      else throw order_consumer_error

  abbrev pub settle : Message → OrderCreatedEvent → ℕ → Option Bool → Eff W ProcessedKafkaRecord
  settle message event attempts initial = do
    commit message
    pure (record_of message (str_uuid event.event_id) (is_false initial) attempts false)

  -- while True: attempts += 1 ...
  unfoldable pub run_attempts :
      Message → Json → OrderCreatedEvent → ℕ → ℕ → Option Bool → Eff W ProcessedKafkaRecord
  unfolding commit dead_letter
  run_attempts message payload event zero attempts initial = λ w. out_of_fuel
  run_attempts message payload event (suc fuel) attempts initial =
      let retry = run_attempts message payload event fuel (attempts + 1) in
      try_except (self.store.store event)
        (λ e. recover message payload event (attempts + 1) initial e (retry initial))
        (λ result.
          let decided = first_decision initial result.is_new in
          try_except (finish_effects event result)
            (λ e. recover message payload event (attempts + 1) decided e (retry decided))
            (λ _. settle message event (attempts + 1) decided))

  -- One round more than the attempts that the policy allows.
  abbrev pub attempt_fuel : ℕ
  attempt_fuel = suc (pos_part self.retry_policy.max_attempts)

  abbrev pub handle_decoded :
      Message → Reply (Json × OrderCreatedEvent) → Eff W ProcessedKafkaRecord
  handle_decoded message (value (payload, event)) =
      run_attempts message payload event attempt_fuel 0 none
  handle_decoded message (error e) =
      if is_some self.dead_letter_publisher
      then dead_letter message (safe_original_payload lib message.payload) e 1 none false
      else throw order_consumer_error

  unfoldable pub handle_message : Message → Eff W ProcessedKafkaRecord
  unfolding run_attempts dead_letter
  handle_message message =
      if is_some message.fault
      then throw order_consumer_error
      else handle_decoded message (decode_event lib message.payload)

  abbrev pub handle_polled : Option Message → Eff W ProcessedKafkaRecord
  handle_polled none = throw order_consumer_timeout
  handle_polled (some message) = handle_message message

  unfoldable pub process_one : ℤ → Eff W ProcessedKafkaRecord
  unfolding poll_loop handle_message
  process_one timeout =
      if leb_ℤ timeout (pos 0)
      then throw (value_error "timeout_seconds must be greater than zero.")
      else do
        start ← reads run.monotonic
        polled ← poll_loop (suc (pos_part timeout)) (start + pos_part timeout)
        handle_polled polled
