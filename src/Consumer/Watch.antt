-- ===== src/Consumer/Watch.antt =====
-- A monitor of the consumer's calls. `watched` is the same consumer with clients that also tell the
-- monitor each call and its result; `next` is the order that the calls have to follow.
use kafka_sqs.Base.{
  String, Bool, true, false, not, ◌&&◌, Option, none, some, List, ◌==◌, str_eq, if◌then◌else◌,
}
use kafka_sqs.Base.Lists.{any}
use kafka_sqs.Base.Effect.{Outcome, ok, raise, out_of_fuel, Eff}
use kafka_sqs.Contracts.Event.{Uuid, OrderCreatedEvent}
use kafka_sqs.Clients.{Runtime, Message}
use kafka_sqs.DeadLetter.{DeadLetterFailure}
use kafka_sqs.OrderStore.{EventStoreResult}
use kafka_sqs.Consumer.{KafkaOrderConsumer, is_some}

-- How far a record is.
pub data Phase : Type 0 where
  -- no record has arrived
  idle : Phase
  -- a record has arrived, and no effect of it has begun
  received : Message → Phase
  -- the event is stored and its downstream work is open
  claimed : Message → Uuid → Phase
  -- the downstream service has accepted it
  notified : Message → Uuid → Phase
  -- every effect is done
  applied : Message → Uuid → Phase
  -- an effect has raised
  failing : Message → Uuid → Phase
  -- what was stored of it is removed
  discarded : Message → Uuid → Phase
  -- the dead-letter record is acknowledged
  published : Message → Phase
  -- the offset is committed after every effect, or after the dead-letter record
  committed : Message → Phase
  dead_committed : Message → Phase
  -- a call raised after which nothing more may be called
  aborted : Phase
  -- a call out of order
  violation : Phase

-- A call and what came of it: `true` for a return, `false` for a raise.
pub data Call : Type 0 where
  polled : Option Message → Call
  poll_raised : Call
  stored : Uuid → EventStoreResult → Call
  store_raised : Uuid → Call
  notify : Uuid → Bool → Call
  mark : Uuid → Bool → Call
  discard : Uuid → Bool → Call
  publish : Bool → Call
  commit : Message → Bool → Call

abbrev pub expect : Bool → Phase → Phase
expect b p = if b then p else violation

abbrev pub same_record : Message → Message → Bool
same_record a b = str_eq a.topic b.topic && a.partition == b.partition && a.offset == b.offset

abbrev pub after_store : Message → Uuid → EventStoreResult → Phase
after_store m id r = if r.downstream_required then claimed m id else applied m id

-- The phase after a call. `has_downstream` says that a notification is due.
unfoldable pub step : Bool → Phase → Call → Phase
step has_downstream idle (polled none) = idle
step has_downstream idle (polled (some m)) = received m
step has_downstream idle poll_raised = aborted
step has_downstream (received m) (stored id r) = after_store m id r
step has_downstream (received m) (store_raised id) = failing m id
step has_downstream (received m) (publish done) = if done then published m else aborted
step has_downstream (failing m id) (stored id' r) = expect (id == id') (after_store m id r)
step has_downstream (failing m id) (store_raised id') = expect (id == id') (failing m id)
step has_downstream (failing m id) (discard id' done) =
    expect (id == id') (if done then discarded m id else aborted)
step has_downstream (claimed m id) (notify id' done) =
    expect (has_downstream && id == id') (if done then notified m id else failing m id)
step has_downstream (claimed m id) (mark id' done) =
    expect (not has_downstream && id == id') (if done then applied m id else failing m id)
step has_downstream (notified m id) (mark id' done) =
    expect (id == id') (if done then applied m id else failing m id)
step has_downstream (discarded m id) (publish done) = if done then published m else aborted
step has_downstream (applied m id) (commit m' done) =
    expect (same_record m m') (if done then committed m else aborted)
step has_downstream (published m) (commit m' done) =
    expect (same_record m m') (if done then dead_committed m else aborted)
step has_downstream _ _ = violation

-- A commit is done if the client returns and names no partition error.
abbrev pub commit_done : List (Option String) → Bool
commit_done errors = not (any is_some errors)

pub record Watched {ℓ} (W : Type ℓ) : Type ℓ where
  pub world : W
  pub phase : Phase

module _ {ℓ} {W : Type ℓ} where
  abbrev pub told {κ} :
      {A : Type κ} → Bool → Phase → (A → Call) → Call → Outcome W A → Outcome (Watched W) A
  told d p returned raised (ok a w) = ok a (record { world = w; phase = step d p (returned a) })
  told d p returned raised (raise e w) = raise e (record { world = w; phase = step d p raised })
  told d p returned raised out_of_fuel = out_of_fuel

  abbrev pub tell {κ} : {A : Type κ} → Bool → (A → Call) → Call → Eff W A → Eff (Watched W) A
  tell d returned raised m s = told d s.phase returned raised (m s.world)

  -- A call that the monitor is not told.
  abbrev silent {κ} : {A : Type κ} → Phase → Outcome W A → Outcome (Watched W) A
  silent p (ok a w) = ok a (record { world = w; phase = p })
  silent p (raise e w) = raise e (record { world = w; phase = p })
  silent p out_of_fuel = out_of_fuel

  abbrev quiet : {A : Type 0} → (W → A × W) → Watched W → A × Watched W
  quiet f s = let (a, w) = f s.world in (a, record { world = w; phase = s.phase })

  abbrev pub watched_runtime : Runtime W → Runtime (Watched W)
  watched_runtime run = record {
    monotonic = quiet run.monotonic;
    uuid4 = quiet run.uuid4;
    utc_now = quiet run.utc_now;
    wait = λ d s. record { world = run.wait d s.world; phase = s.phase };
  }

  abbrev pub watched_downstream :
      Bool
      → Option (OrderCreatedEvent → Eff W (Unit {0}))
      → Option (OrderCreatedEvent → Eff (Watched W) (Unit {0}))
  watched_downstream d none = none
  watched_downstream d (some send) =
      some
        λ event. tell d (λ _. notify event.event_id true) (notify event.event_id false) (send event)

  abbrev pub watched_publisher :
      Bool
      → Option (String → DeadLetterFailure → Eff W (Unit {0}))
      → Option (String → DeadLetterFailure → Eff (Watched W) (Unit {0}))
  watched_publisher d none = none
  watched_publisher d (some publish_failure) =
      some
        λ topic failure. tell d (λ _. publish true) (publish false) (publish_failure topic failure)

  abbrev pub watched : KafkaOrderConsumer W → KafkaOrderConsumer (Watched W)
  watched self =
      let d = is_some self.downstream in
      record {
        settings = self.settings;
        topic = self.topic;
        store = record {
          store = λ event.
              tell d (stored event.event_id) (store_raised event.event_id) (self.store.store event);
          mark_completed =
              λ id. tell d (λ _. mark id true) (mark id false) (self.store.mark_completed id);
          discard = λ id. tell d (λ _. discard id true) (discard id false) (self.store.discard id);
        };
        downstream = watched_downstream d self.downstream;
        retry_policy = self.retry_policy;
        dead_letter_publisher = watched_publisher d self.dead_letter_publisher;
        dead_letter_topic = self.dead_letter_topic;
        consumer = record {
          subscribe = λ topics s. silent s.phase (self.consumer.subscribe topics s.world);
          poll = λ timeout. tell d polled poll_raised (self.consumer.poll timeout);
          commit = λ message.
              tell d (λ errors. commit message (commit_done errors)) (commit message false)
                (self.consumer.commit message);
          close = λ s. silent s.phase (self.consumer.close s.world);
        };
        closed = self.closed;
      }
