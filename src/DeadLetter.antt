-- ===== src/DeadLetter.antt =====
-- order_processing/retry_and_dead_letter.py: the retry policy and the evidence of a failure.
use kafka_sqs.Base.{ℕ, String, Bool, Option, none, some, List, if◌then◌else◌}
use kafka_sqs.Base.Int.{ℤ, pos, leb_ℤ, ltb_ℤ}
use kafka_sqs.Base.Effect.{Exc, is_instance, Reply, value, error, value_error}
use kafka_sqs.Contracts.Json.{Json, null, number, text, object, end, field}

pub record RetryPolicy : Type 0 where
  pub max_attempts : ℤ
  pub backoff_seconds : ℤ
  pub retryable_errors : List String

-- __post_init__
unfoldable pub make_retry_policy : ℤ → ℤ → List String → Reply RetryPolicy
make_retry_policy max_attempts backoff_seconds retryable_errors =
    if leb_ℤ max_attempts (pos 0)
    then error (value_error "max_attempts must be greater than zero.")
    else if ltb_ℤ backoff_seconds (pos 0)
    then error (value_error "backoff_seconds must not be negative.")
    else value (record {
      max_attempts = max_attempts;
      backoff_seconds = backoff_seconds;
      retryable_errors = retryable_errors;
    })

unfoldable pub is_retryable : RetryPolicy → Exc → Bool
unfolding is_instance
is_retryable self e = is_instance e self.retryable_errors

pub record DeadLetterFailure : Type 0 where
  pub source_topic : String
  pub source_partition : ℕ
  pub source_offset : ℕ
  pub key : Option String
  pub event_id : Option String
  pub correlation_id : Option String
  pub attempts : ℕ
  pub error_type : String
  pub error_message : String
  pub original_payload : Json

abbrev text_or_null : Option String → Json
text_or_null none = null
text_or_null (some s) = text s

abbrev int : ℕ → Json
int n = number (record { digits = pos n; places = 0 })

-- The new dead-letter ID and the time of failure come from outside.
unfoldable pub to_wire_dict : DeadLetterFailure → String → String → Json
to_wire_dict self dead_letter_id failed_at = object (
    field "dead_letter_id" (text dead_letter_id) (
      field "failed_at" (text failed_at) (
        field "source_topic" (text self.source_topic) (
          field "source_partition" (int self.source_partition) (
            field "source_offset" (int self.source_offset) (
              field "key" (text_or_null self.key) (
                field "event_id" (text_or_null self.event_id) (
                  field "correlation_id" (text_or_null self.correlation_id) (
                    field "attempts" (int self.attempts) (
                      field "error_type" (text self.error_type) (
                        field "error_message" (text self.error_message)
                          (field "original_payload" self.original_payload end))))))))))))
