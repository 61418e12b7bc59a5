-- ===== src/PublisherConfig.antt =====
-- KafkaPublisherConfig of messaging/event_publishers.py. A duration is the float that is nearest to a
-- whole number of microseconds, below 2 ^ 52 seconds.
mod Examples
use kafka_sqs.Base.{
  ℕ, zero, suc, ◌+◌, ◌*◌, ◌/◌, ◌%◌, ◌^◌, ltb, leb, String, Bool, true, List, [], ◌∷◌, if◌then◌else◌,
}
use kafka_sqs.Base.Int.{ℤ, pos, negsuc, leb_ℤ}
use kafka_sqs.Base.Effect.{Exc, Reply, value, error, value_error}

pub record KafkaPublisherConfig : Type 0 where
  pub bootstrap_servers : String
  pub client_id : String
  pub delivery_timeout_seconds : ℤ
  pub request_timeout_seconds : ℤ
  pub linger_ms : ℤ

-- KafkaPublisherConfig(bootstrap_servers)
abbrev pub default_config : String → KafkaPublisherConfig
default_config bootstrap_servers = record {
  bootstrap_servers = bootstrap_servers;
  client_id = "order-app-event-producer";
  delivery_timeout_seconds = pos 15000000;
  request_timeout_seconds = pos 5000000;
  linger_ms = pos 0;
}

pub data ProducerValue : Type 0 where
  word : String → ProducerValue
  flag : Bool → ProducerValue
  number : ℤ → ProducerValue

-- -n
abbrev pub negate : ℕ → ℤ
negate zero = pos 0
negate (suc n) = negsuc n

-- The natural number nearest to a / b, and the even one of two.
abbrev nearest : ℕ → ℕ → ℕ
nearest a b =
    let q = a / b in
    let twice = 2 * (a % b) in if ltb twice b then q else if ltb b twice then q + 1 else q + q % 2

-- The binary places of the float nearest to a / b, which has 53 binary digits.
abbrev binary_places : ℕ → ℕ → ℕ → ℕ
binary_places zero a b = zero
binary_places (suc fuel) a b =
    let more = binary_places fuel (2 * a) b in if leb (2 ^ 52 * b) a then zero else suc more

-- A product by 1000 of a float's digits loses 9 or 10 of them.
abbrev lost_places : ℕ → ℕ
lost_places product = if ltb product (2 ^ 62) then 9 else 10

abbrev rounded : ℕ → ℕ
rounded product = let unit = 2 ^ lost_places product in nearest product unit * unit

-- int(seconds * 1_000) of the float that is nearest to `n` microseconds: the product is rounded to a
-- float, and what is left of a millisecond is dropped. A microsecond has 72 places.
abbrev whole_milliseconds : ℕ → ℕ
whole_milliseconds n =
    let places = binary_places 72 n 1000000 in
    rounded (nearest (n * 2 ^ places) 1000000 * 1000) / 2 ^ places

unfoldable pub milliseconds : ℤ → ℤ
milliseconds (pos n) = pos (whole_milliseconds n)
milliseconds (negsuc n) = negate (whole_milliseconds (suc n))

abbrev pub short_delivery : Exc
short_delivery =
    value_error "delivery_timeout_seconds must be greater than request_timeout_seconds."

-- The dictionary that as_confluent_config builds.
abbrev pub producer_entries : KafkaPublisherConfig → List (String × ProducerValue)
producer_entries self =
    ("bootstrap.servers", word self.bootstrap_servers)
    ∷ ("client.id", word self.client_id)
    ∷ ("enable.idempotence", flag true)
    ∷ ("acks", word "all")
    ∷ ("delivery.timeout.ms", number (milliseconds self.delivery_timeout_seconds))
    ∷ ("request.timeout.ms", number (milliseconds self.request_timeout_seconds))
    ∷ ("linger.ms", number self.linger_ms)
    ∷ []

-- as_confluent_config
unfoldable pub producer_config : KafkaPublisherConfig → Reply (List (String × ProducerValue))
unfolding milliseconds
producer_config self =
    if leb_ℤ self.delivery_timeout_seconds self.request_timeout_seconds
    then error short_delivery
    else value (producer_entries self)
