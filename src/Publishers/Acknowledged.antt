-- ===== src/Publishers/Acknowledged.antt =====
-- A receipt is an acknowledgement.
use kafka_sqs.Base.{
  ℕ, zero, suc, String, ◌≡◌, refl, Bool, true, false, List, [], ◌∷◌, if◌then◌else◌,
}
use mathlib.Core.Path.{subst, sym}
use kafka_sqs.Base.Int.{ℤ}
use kafka_sqs.Base.Text.{is_blank, str_uuid}
use kafka_sqs.Base.Effect.{
  value, error, Outcome, ok, raise, out_of_fuel, attempt, lift, continue-eq-ok, lift-eq-ok,
  guarded_ok,
}
use kafka_sqs.Contracts.Event.{Uuid, Datetime, OrderCreatedEvent}
use kafka_sqs.Contracts.Libraries.{Bytes, Libraries}
use kafka_sqs.Clients.{Runtime, Message, Report, delivered, failed, Flushed, Producer}
use kafka_sqs.DeadLetter.{DeadLetterFailure}
use kafka_sqs.Publishers.{
  KafkaPublishReceipt, Encoder, delivered_of, errors_of, receipt_of, one_delivered, acknowledge,
  is_rejection, event_publish_error, serialize_order_created_event, order_created_headers,
  order_record, produce_and_flush, publish_to_kafka, failure_key, failure_headers, failure_record,
  publish_failure,
}

-- Nothing is left in the queue, the one report is of a delivery, and the receipt describes it.
pub record Acknowledges (key : String) (headers : List (String × Bytes)) (flushed : Flushed)
    (r : KafkaPublishReceipt) : Type 0 where
  pub message : Message
  pub sent : flushed.remaining ≡ 0
  pub one_report : flushed.reports ≡ delivered message ∷ []
  pub receipt : r ≡ receipt_of key headers message

reports_delivered :
    (reports : List Report) (m : Message)
    → errors_of reports ≡ []
    → delivered_of reports ≡ m ∷ []
    → reports ≡ delivered m ∷ []
reports_delivered [] m h h' = absurd (cc)
reports_delivered (failed e ∷ reports) m h h' = absurd (cc)
reports_delivered (delivered n ∷ []) m h h' = cc
reports_delivered (delivered n ∷ (delivered k ∷ reports)) m h h' = absurd (cc)
reports_delivered (delivered n ∷ (failed k ∷ reports)) m h h' = absurd (cc)

module _ (key : String) (headers : List (String × Bytes)) where
  one_delivered_lem :
      (l : List Message) (r : KafkaPublishReceipt)
      → one_delivered key headers l ≡ value r
      → (m : Message) × (l ≡ m ∷ []) × (r ≡ receipt_of key headers m)
  one_delivered_lem [] r h = absurd (cc)
  one_delivered_lem (m ∷ []) r h = (m, refl, cc)
  one_delivered_lem (m ∷ (n ∷ l)) r h = absurd (cc)

  acknowledge_lem :
      (flushed : Flushed) (r : KafkaPublishReceipt)
      → acknowledge key headers flushed ≡ value r
      → Acknowledges key headers flushed r
  unfolding acknowledge
  acknowledge_lem flushed r h = all_sent flushed.remaining refl h
    where
      no_errors :
          (l : List String)
          → errors_of flushed.reports ≡ l
          → flushed.remaining ≡ 0
          → elim l [
            | e ∷ errors ↦ error event_publish_error
            | [] ↦ one_delivered key headers (delivered_of flushed.reports)
          ]
            ≡ value r
          → Acknowledges key headers flushed r
      no_errors (x ∷ l) e sent g = absurd (cc)
      no_errors [] e sent g =
          let (m, one, same) = one_delivered_lem (delivered_of flushed.reports) r g in
          record {
            message = m;
            sent = sent;
            one_report = reports_delivered flushed.reports m e one;
            receipt = same;
          }

      all_sent :
          (n : ℕ)
          → flushed.remaining ≡ n
          → elim n [
            | suc n ↦ error event_publish_error
            | zero ↦ elim (errors_of flushed.reports) [
              | e ∷ errors ↦ error event_publish_error
              | [] ↦ one_delivered key headers (delivered_of flushed.reports)
            ]
          ]
            ≡ value r
          → Acknowledges key headers flushed r
      all_sent (suc n) e g = absurd (cc)
      all_sent zero e g = no_errors (errors_of flushed.reports) refl e g

module _ {W : Type 0} (lib : Libraries) (enc : Encoder) (producer : Producer W) where
  -- The record of the event was produced, flushed and acknowledged.
  pub record Published (timeout : ℤ) (topic : String) (event : OrderCreatedEvent)
      (r : KafkaPublishReceipt) (w w' : W) : Type 0 where
    pub payload : Bytes
    pub flushed : Flushed
    pub named : is_blank topic ≡ false
    pub serializes : serialize_order_created_event lib enc event ≡ value payload
    pub produces :
        produce_and_flush lib enc producer (order_record lib enc topic event payload) timeout w
        ≡ ok flushed w'
    pub acknowledges :
        Acknowledges event.payload.order_id (order_created_headers lib enc event) flushed r

  module _ (timeout : ℤ) (topic : String) (event : OrderCreatedEvent) where
    after_flush :
        (payload : Bytes) (o : Outcome W Flushed) (r : KafkaPublishReceipt) (w' : W)
        → attempt o
            (λ e. if is_rejection e then raise event_publish_error else raise e)
            (λ flushed.
              lift
                (acknowledge event.payload.order_id (order_created_headers lib enc event) flushed))
          ≡ ok r w'
        → (flushed : Flushed) × (o ≡ ok flushed w')
          × Acknowledges event.payload.order_id (order_created_headers lib enc event) flushed r
    after_flush payload (ok flushed v) r w' h =
        let (e, same) = lift-eq-ok (acknowledge event.payload.order_id _ flushed) h in
        (flushed, cc, acknowledge_lem _ _ flushed r e)
    after_flush payload (raise e v) r w' h = absurd (raised (is_rejection e) h)
      where
        raised : (b : Bool) → (if b then raise event_publish_error else raise e) v ≡ ok r w' → ⊥
        raised true g = cc
        raised false g = cc
    after_flush payload out_of_fuel r w' h = absurd (cc)

    -- A publication that returns names a topic that is not blank and an event that satisfies the
    -- contract, whose record was produced and flushed; nothing was left in the queue, the only
    -- delivery report was of a success, and the receipt describes the delivered message.
    pub publish_to_kafka_ok :
        (r : KafkaPublishReceipt) (w w' : W)
        → publish_to_kafka lib enc producer timeout topic event w ≡ ok r w'
        → Published timeout topic event r w w'
    unfolding publish_to_kafka
    publish_to_kafka_ok r w w' h =
        let (named, h1) = guarded_ok (is_blank topic) _ _ h in
        let (payload, v, lifted, h2) =
          continue-eq-ok (lift (serialize_order_created_event lib enc event) w) _ h1 in
        let (serializes, same) = lift-eq-ok (serialize_order_created_event lib enc event) lifted in
        let (flushed, flush, acknowledged) =
          after_flush payload
            (produce_and_flush lib enc producer (order_record lib enc topic event payload) timeout
              v)
            r w' h2 in
        record {
          payload = payload;
          flushed = flushed;
          named = named;
          serializes = serializes;
          produces =
              subst
                (λ x.
                  produce_and_flush lib enc producer (order_record lib enc topic event payload)
                    timeout x
                  ≡ ok flushed w')
                (sym same) flush;
          acknowledges = acknowledged;
        }

module _ {W : Type 0} (enc : Encoder) (run : Runtime W) (producer : Producer W) where
  -- A dead-letter publication that returns has produced the record of the failure and flushed it; nothing was left
  -- in the queue, the only delivery report was of a success, and the receipt describes it.
  publish_failure_ok :
      (timeout : ℤ) (topic : String) (failure : DeadLetterFailure) (r : KafkaPublishReceipt)
      (w w' : W)
      → publish_failure enc run producer timeout topic failure w ≡ ok r w'
      → (id : Uuid) × (now : Datetime) × (flushed : Flushed) × (start : W) × (before : W)
        × (producer.produce (failure_record enc run producer topic failure (str_uuid id) now) start
            ≡ ok tt before)
        × (producer.flush timeout before ≡ ok flushed w')
        × Acknowledges
            (failure_key failure (str_uuid id))
            (failure_headers enc run producer failure)
            flushed
            r
  unfolding publish_failure
  publish_failure_ok timeout topic failure r w w' h =
      let (u, v, produced, h1) = continue-eq-ok (producer.produce _ _) _ h in
      let (flushed, v', flush, h2) = continue-eq-ok (producer.flush timeout v) _ h1 in
      let (acknowledged, same) = lift-eq-ok (acknowledge _ _ flushed) h2 in
      (
        _,
        _,
        flushed,
        _,
        v,
        produced,
        subst (λ x. producer.flush timeout v ≡ ok flushed x) same flush,
        acknowledge_lem _ _ flushed r acknowledged,
      )
