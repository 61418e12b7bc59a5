-- ===== src/LabConfig/Examples.antt =====
-- An environment that overrides one setting, and one that blanks it.
use kafka_sqs.Base.{String, ◌≡◌, refl, none, some, str_eq, if◌then◌else◌}
use kafka_sqs.Base.Text.{strip}
use kafka_sqs.Base.Effect.{value, error}
use kafka_sqs.LabConfig.{defaults, Environment, blank_error, setting, from_environment}
use kafka_sqs.LabConfig.Environment.{Settles, from_environment-Settles}

abbrev with_topic : String → Environment
with_topic topic name = if str_eq name "KAFKA_TOPIC" then some topic else none

reads_topic :
    from_environment (with_topic " orders ") ≡ value (record defaults { kafka_topic = "orders" })
unfolding from_environment setting strip
reads_topic = refl

refuses_blank_topic : from_environment (with_topic "  ") ≡ error (blank_error "KAFKA_TOPIC")
unfolding from_environment setting strip
refuses_blank_topic = refl

from_environment-Settles_example :
    Settles (with_topic " orders ") (from_environment (with_topic " orders "))
from_environment-Settles_example = from_environment-Settles (with_topic " orders ")
