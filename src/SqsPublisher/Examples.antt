-- ===== src/SqsPublisher/Examples.antt =====
-- A publication to a queue, in order of a group.
use kafka_sqs.Base.{◌≡◌, refl, none, some, List, [], ◌∷◌}
use kafka_sqs.Base.Text.{is_blank}
use kafka_sqs.Base.Effect.{ok}
use kafka_sqs.Contracts.Validation.{validate_event}
use kafka_sqs.Samples.{order, sim_libraries}
use kafka_sqs.SqsPublisher.{SqsPublishReceipt, SendRequest, SqsSender, send_request, publish_to_sqs}

abbrev receipt : SqsPublishReceipt
receipt = record { message_id = "m-1"; md5_of_body = "d41d8cd9"; sequence_number = some "1" }

abbrev client : SqsSender (List SendRequest)
client = record { send_message = λ request w. ok receipt (request ∷ w) }

abbrev sent : SendRequest
sent = send_request sim_libraries (λ j. "{}") client "http://queue" order (some "ORD-1") none

publish_to_queue :
    publish_to_sqs sim_libraries (λ j. "{}") client "http://queue" order (some "ORD-1") none []
    ≡ ok receipt (sent ∷ [])
unfolding publish_to_sqs validate_event is_blank
publish_to_queue = refl
