-- ===== src/Deployment/Valid.antt =====
-- The handling of a valid record by a deployed consumer.
use kafka_sqs.Base.{String, ◌≡◌, false, Option, none, suc, List, ◌∙◌, if◌then◌else◌}
use mathlib.Core.Path.{ap}
use kafka_sqs.Base.Int.{pos_part}
use kafka_sqs.Base.Lists.{any}
use kafka_sqs.Base.Effect.{value, ok, throw}
use kafka_sqs.Contracts.Event.{OrderCreatedEvent}
use kafka_sqs.Contracts.Json.{Json}
use kafka_sqs.Contracts.Libraries.{Libraries}
use kafka_sqs.Clients.{Runtime, Message}
use kafka_sqs.DeadLetter.{RetryPolicy}
use kafka_sqs.Postgres.{Server}
use kafka_sqs.Consumer.{
  ConsumerSettings, KafkaOrderConsumer, order_consumer_error, is_some, decode_event,
}
use kafka_sqs.Consumer.Process.{run_attempts, handle_message, handle_decoded}
use kafka_sqs.Deployment.{World, Surroundings, deployed}

-- The commit of the record succeeds, and is all that happens to the surroundings.
abbrev pub Commits : {E : Type 0} → Surroundings E → Message → E → E → Type 0
Commits s m before after =
    (errors : List (Option String)) × (s.consumer.commit m before ≡ ok errors after)
    × (any is_some errors ≡ false)

module _ {E : Type 0} (lib : Libraries) (run : Runtime (World E)) (server : Server)
    (settings : ConsumerSettings) (topic : String) (policy : RetryPolicy) (s : Surroundings E) where
  abbrev consumer : KafkaOrderConsumer (World E)
  consumer = deployed server settings topic policy s

  -- A valid record is attempted.
  pub handle_message-run_attempts :
      (m : Message) (payload : Json) (event : OrderCreatedEvent) (w : World E)
      → m.fault ≡ none
      → decode_event lib m.payload ≡ value (payload, event)
      → handle_message lib run consumer m w
        ≡ run_attempts lib run consumer m payload event
            (suc (pos_part policy.max_attempts))
            0
            none
            w
  unfolding handle_message
  handle_message-run_attempts m payload event w good valid =
      ap
        (λ fault.
          (if is_some fault
              then throw order_consumer_error
              else handle_decoded lib run consumer m (decode_event lib m.payload))
            w)
        good
      ∙ ap (λ decoded. handle_decoded lib run consumer m decoded w) valid
