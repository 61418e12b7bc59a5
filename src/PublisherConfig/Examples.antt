-- ===== src/PublisherConfig/Examples.antt =====
-- The configuration of the order API, and a duration that loses a millisecond.
use kafka_sqs.Base.{◌≡◌, refl, true, [], ◌∷◌}
use kafka_sqs.Base.Int.{pos}
use kafka_sqs.Base.Effect.{value, error}
use kafka_sqs.PublisherConfig.{
  word, flag, number, milliseconds, default_config, short_delivery, producer_config,
}

-- 1.001 * 1_000 is 1000.9999999999999 as a float.
milliseconds_of_float : milliseconds (pos 1001000) ≡ pos 1000
unfolding milliseconds
milliseconds_of_float = refl

milliseconds_of_default : milliseconds (pos 15000000) ≡ pos 15000
unfolding milliseconds
milliseconds_of_default = refl

milliseconds_of_fraction : milliseconds (pos 1500) ≡ pos 1
unfolding milliseconds
milliseconds_of_fraction = refl

default_is_accepted :
    producer_config (default_config "kafka:9092")
    ≡ value (
        ("bootstrap.servers", word "kafka:9092")
        ∷ ("client.id", word "order-app-event-producer")
        ∷ ("enable.idempotence", flag true)
        ∷ ("acks", word "all")
        ∷ ("delivery.timeout.ms", number (pos 15000))
        ∷ ("request.timeout.ms", number (pos 5000))
        ∷ ("linger.ms", number (pos 0))
        ∷ [])
unfolding producer_config milliseconds
default_is_accepted = refl

refuses_short_delivery :
    producer_config
      (record (default_config "kafka:9092") { delivery_timeout_seconds = pos 5000000 })
    ≡ error short_delivery
unfolding producer_config
refuses_short_delivery = refl
