-- ===== src/SqsPublisher/Sends.antt =====
-- What a publication to SQS has sent.
use kafka_sqs.Base.{String, ◌≡◌, Bool, true, false, Option, if◌then◌else◌}
use mathlib.Core.Path.{subst, sym}
use kafka_sqs.Base.Text.{is_blank}
use kafka_sqs.Base.Effect.{
  value, Outcome, ok, raise, out_of_fuel, pure, throw, lift, attempt, continue-eq-ok, lift-eq-ok,
  guarded_ok,
}
use kafka_sqs.Contracts.Event.{OrderCreatedEvent}
use kafka_sqs.Contracts.Json.{Json}
use kafka_sqs.Contracts.Libraries.{Libraries}
use kafka_sqs.Contracts.Validation.{validate_event}
use kafka_sqs.Publishers.{event_publish_error}
use kafka_sqs.SqsPublisher.{SqsPublishReceipt, SqsSender, is_refusal, send_request, publish_to_sqs}

module _ {W : Type 0} where
  refusal_raises :
      (o : Outcome W SqsPublishReceipt) (r : SqsPublishReceipt) (w' : W)
      → attempt o (λ e. if is_refusal e then throw event_publish_error else throw e) (λ a. pure a)
        ≡ ok r w'
      → o ≡ ok r w'
  refusal_raises (ok a w) r w' h = h
  refusal_raises (raise e w) r w' h = refused (is_refusal e) h
    where
      refused :
          (b : Bool)
          → (if b then throw event_publish_error else throw e) w ≡ ok r w'
          → raise e w ≡ ok r w'
      refused true g = absurd (cc)
      refused false g = absurd (cc)
  refusal_raises out_of_fuel r w' h = absurd (cc)

module _ {W : Type 0} (lib : Libraries) (dumps_sorted : Json → String) (client : SqsSender W) where
  -- A publication to SQS that returns names a queue that is not blank and an event that satisfies
  -- the contract; its one call of the client sent the request of the event, whose answer is the
  -- receipt.
  pub publish_to_sqs_ok :
      (destination : String) (event : OrderCreatedEvent) (group deduplication : Option String)
      (r : SqsPublishReceipt) (w w' : W)
      → publish_to_sqs lib dumps_sorted client destination event group deduplication w ≡ ok r w'
      → (is_blank destination ≡ false)
        × (validate_event lib event ≡ value tt)
        × (client.send_message
              (send_request lib dumps_sorted client destination event group deduplication)
              w
            ≡ ok r w')
  unfolding publish_to_sqs
  publish_to_sqs_ok destination event group deduplication r w w' h =
      let (named, h1) = guarded_ok (is_blank destination) _ _ h in
      let (u, v, checked, h2) = continue-eq-ok (lift (validate_event lib event) w) _ h1 in
      let (valid, same) = lift-eq-ok (validate_event lib event) checked in
      let request = send_request lib dumps_sorted client destination event group deduplication in
      let sent = refusal_raises (client.send_message request v) r w' h2 in
      (named, valid, subst (λ x. client.send_message request x ≡ ok r w') (sym same) sent)
