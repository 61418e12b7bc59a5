-- ===== src/Consumer/Attempts.antt =====
-- The retry loop keeps the order of calls: an offset is committed after every effect is done, or
-- after the record of the failure is acknowledged.
use kafka_sqs.Base.{
  ℕ, zero, suc, ◌+◌, ◌≡◌, refl, ◌⊎◌, inl, inr, Bool, true, false, Option, none, some, ◌==◌, ==_iff,
  if◌then◌else◌,
}
use kafka_sqs.Base.Int.{ℤ, pos, leb_ℤ, pos_part}
use kafka_sqs.Base.Effect.{Exc, Reply, value, error, Eff}
use kafka_sqs.Contracts.Event.{Uuid, OrderCreatedEvent}
use kafka_sqs.Contracts.Json.{Json}
use kafka_sqs.Contracts.Libraries.{Libraries}
use kafka_sqs.Clients.{Runtime, Message}
use kafka_sqs.OrderStore.{EventStoreResult}
use kafka_sqs.Consumer.{
  ProcessedKafkaRecord, KafkaOrderConsumer, is_some, is_false, decode_event, safe_original_payload,
}
use kafka_sqs.Consumer.Process.{
  send_to, run_attempts, handle_decoded, handle_message, handle_polled, process_one, recover,
  finish_effects, can_retry, attempt_fuel,
}
use kafka_sqs.Consumer.Watch.{
  Phase, idle, received, claimed, notified, applied, failing, discarded, committed, dead_committed,
  aborted, step, Watched, watched, watched_downstream, watched_runtime, after_store, notify, mark,
  discard, stored, store_raised,
}
use kafka_sqs.Consumer.Ends.{Ends, told_Ends, Ends-mono, attempt_Ends, continue_Ends, if_Ends}
use kafka_sqs.Consumer.Ordered.{
  Uncommitted, Describes, applied_Commits, commit_Ends, Publishes, dead_letter_Ends, poll_Ends,
  arrived,
}

-- An attempt may begin.
abbrev Ready : Message → Uuid → Phase → Type 0
Ready m id p = (p ≡ received m) ⊎ (p ≡ failing m id)

-- The record's offset is committed, and the result says in which way it was settled.
abbrev pub Settled : Message → ProcessedKafkaRecord → Phase → Type 0
Settled m r p =
    ((p ≡ committed m) × (r.dead_lettered ≡ false) × Describes m r)
    ⊎ ((p ≡ dead_committed m) × (r.dead_lettered ≡ true) × Describes m r)

same_id : (id : Uuid) → (id == id) ≡ true
same_id id = (==_iff id id).1 refl

step-store :
    (d : Bool) (m : Message) (id : Uuid) (p : Phase) (r : EventStoreResult)
    → Ready m id p
    → step d p (stored id r) ≡ after_store m id r
unfolding step
step-store d m id p r (inl e) = rw e refl
step-store d m id p r (inr e) = rw e (rw same_id refl)

step-store_raised :
    (d : Bool) (m : Message) (id : Uuid) (p : Phase)
    → Ready m id p
    → step d p (store_raised id) ≡ failing m id
unfolding step
step-store_raised d m id p (inl e) = rw e refl
step-store_raised d m id p (inr e) = rw e (rw same_id refl)

step-discard :
    (d : Bool) (m : Message) (id : Uuid) (done : Bool)
    → step d (failing m id) (discard id done) ≡ (if done then discarded m id else aborted)
unfolding step
step-discard d m id done = rw same_id refl

discarded_Publishes : (m : Message) (id : Uuid) → Publishes (discarded m id) m
unfolding step
discarded_Publishes m id = (refl, λ d b. refl)

received_Publishes : (m : Message) → Publishes (received m) m
unfolding step
received_Publishes m = (refl, λ d b. refl)

-- A phase in which the event may be marked.
abbrev Marks : Bool → Message → Uuid → Phase → Type 0
Marks d m id p = (b : Bool) → step d p (mark id b) ≡ (if b then applied m id else failing m id)

step-notify :
    (m : Message) (id : Uuid) (done : Bool)
    → step true (claimed m id) (notify id done) ≡ (if done then notified m id else failing m id)
unfolding step
step-notify m id done = rw same_id refl

notified_Marks : (m : Message) (id : Uuid) → Marks true m id (notified m id)
unfolding step
notified_Marks m id b = rw same_id refl

module _ {ℓ} {W : Type ℓ} where
  send_to_Ends :
      (m : Message) (event : OrderCreatedEvent)
      (send : Option (OrderCreatedEvent → Eff W (Unit {0}))) (s : Watched W)
      → s.phase ≡ claimed m event.event_id
      → Ends
          (send_to (watched_downstream (is_some send) send) event s)
          (λ _ p. Marks (is_some send) m event.event_id p)
          (λ p. p ≡ failing m event.event_id)
  unfolding step
  send_to_Ends m event none s e = record { at = λ b. rw e (rw same_id refl) }
  send_to_Ends m event (some f) s e =
      Ends-mono _ (told_Ends true s.phase _ _ (f event s.world))
        (λ _ p h b. rw h (rw e (rw step-notify (notified_Marks m event.event_id b))))
        (λ p h. rw h (rw e (step-notify m event.event_id false)))

module _ {ℓ} {W : Type ℓ} (lib : Libraries) (run : Runtime W) (self : KafkaOrderConsumer W) where
  finish_Ends :
      (m : Message) (event : OrderCreatedEvent) (r : EventStoreResult) (s : Watched W)
      → s.phase ≡ after_store m event.event_id r
      → Ends
          (finish_effects lib (watched_runtime run) (watched self) event r s)
          (λ _ p. p ≡ applied m event.event_id)
          (λ p. p ≡ failing m event.event_id)
  finish_Ends m event r s e =
      if_Ends r.downstream_required _ _ s
        (λ open_work.
          continue_Ends _ _ (send_to_Ends m event self.downstream s (rw e (rw open_work refl)))
            λ _ s1 marks.
              Ends-mono _
                (told_Ends _ s1.phase _ _ (self.store.mark_completed event.event_id s1.world))
                (λ _ p h. rw h (marks true)) (λ p h. rw h (marks false)))
        (λ no_work. record { at = rw e (rw no_work refl) })

  recover_Ends :
      (m : Message) (payload : Json) (event : OrderCreatedEvent) (n : ℕ) (initial : Option Bool)
      (e : Exc) (retry : Eff (Watched W) ProcessedKafkaRecord) (s : Watched W)
      → s.phase ≡ failing m event.event_id
      → ((s' : Watched W)
          → s'.phase ≡ failing m event.event_id
          → Ends (retry s') (Settled m) Uncommitted)
      → Ends
          (recover lib (watched_runtime run) (watched self) m payload event n initial e retry s)
          (Settled m)
          Uncommitted
  recover_Ends m payload event n initial e retry s failed again =
      if_Ends (can_retry lib run self e n) _ _ s (λ _. again _ failed)
        λ _.
          if_Ends (is_some (watched self).dead_letter_publisher) _ _ s
            (λ _.
              continue_Ends _ _ {P = λ _ p. p ≡ discarded m event.event_id}
                (Ends-mono _ (told_Ends _ s.phase _ _ (self.store.discard event.event_id s.world))
                  (λ _ p h. rw h (rw failed (step-discard _ m event.event_id true)))
                  (λ p h. rw h (rw failed (rw step-discard refl))))
                λ _ s1 gone.
                  Ends-mono _
                    (dead_letter_Ends lib run self m payload e n (some event) (is_false initial) s1
                      (rw gone (discarded_Publishes m event.event_id)))
                    (λ r p h. inr h) (λ p h. h))
            (λ _. record { at = rw failed refl })

  attempts_Ends :
      (m : Message) (payload : Json) (event : OrderCreatedEvent) (fuel n : ℕ)
      (initial : Option Bool) (s : Watched W)
      → Ready m event.event_id s.phase
      → Ends
          (run_attempts lib (watched_runtime run) (watched self) m payload event fuel n initial s)
          (Settled m)
          Uncommitted
  unfolding run_attempts
  attempts_Ends m payload event zero n initial s ready = record { at = tt }
  attempts_Ends m payload event (suc fuel) n initial s ready =
      let again =
        λ (decided : Option Bool) (s' : Watched W) (failed : s'.phase ≡ failing m event.event_id).
          attempts_Ends m payload event fuel (n + 1) decided s' (inr failed) in
      attempt_Ends _ _ _
        (told_Ends (is_some self.downstream) s.phase _ _ (self.store.store event s.world))
        (λ e s1 h.
          recover_Ends m payload event (n + 1) initial e _ s1
            (rw h (step-store_raised _ m event.event_id s.phase ready)) (again initial))
        λ r s1 h.
          attempt_Ends _ _ _
            (finish_Ends m event r s1 (rw h (step-store _ m event.event_id s.phase r ready)))
            (λ e s2 failed. recover_Ends m payload event (n + 1) _ e _ s2 failed (again _))
            λ _ s2 done.
              continue_Ends _ _
                (commit_Ends lib run self m (committed m) s2
                  (rw done (applied_Commits m event.event_id)))
                λ _ s3 last. record { at = inl (last, refl, (refl, refl, refl)) }

  message_Ends :
      (m : Message) (s : Watched W)
      → s.phase ≡ received m
      → Ends (handle_message lib (watched_runtime run) (watched self) m s) (Settled m) Uncommitted
  unfolding handle_message
  message_Ends m s e =
      if_Ends (is_some m.fault) _ _ s (λ _. record { at = rw e refl })
        (λ _. decoded (decode_event lib m.payload))
    where
      decoded :
          (d : Reply (Json × OrderCreatedEvent))
          → Ends
              (handle_decoded lib (watched_runtime run) (watched self) m d s)
              (Settled m)
              Uncommitted
      decoded (value (payload, event)) =
          attempts_Ends m payload event (attempt_fuel lib run self) 0 none s (inl e)
      decoded (error x) =
          if_Ends (is_some (watched self).dead_letter_publisher) _ _ s
            (λ _.
              Ends-mono _
                (dead_letter_Ends lib run self m (safe_original_payload lib m.payload) x 1 none
                  false s (rw e (received_Publishes m)))
                (λ r p h. inr h) (λ p h. h))
            (λ _. record { at = rw e refl })

  -- Every run of `process_one` makes its calls in the order that `step` allows. One that returns has
  -- committed, as its last call, the offset of the record that its result describes: after every
  -- effect of the event, or after the dead-letter record was acknowledged, and the result tells
  -- which. One that raises has committed no offset.
  pub process_one_Ends :
      (timeout : ℤ) (w : W)
      → Ends
          (process_one lib
            (watched_runtime run)
            (watched self)
            timeout
            (record { world = w; phase = idle }))
          (λ r p. (m : Message) × Settled m r p)
          Uncommitted
  unfolding process_one
  process_one_Ends timeout w =
      let (start, w1) = run.monotonic w in
      if_Ends (leb_ℤ timeout (pos 0)) _ _ _ (λ _. record { at = refl })
        λ _.
          continue_Ends _ _
            (poll_Ends lib run self (suc (pos_part timeout)) (start + pos_part timeout) w1) arrive
    where
      arrive :
          (o : Option Message) (s : Watched W)
          → s.phase ≡ arrived o
          → Ends
              (handle_polled lib (watched_runtime run) (watched self) o s)
              (λ r p. (m : Message) × Settled m r p)
              Uncommitted
      arrive none s e = record { at = rw e refl }
      arrive (some m) s e = Ends-mono _ (message_Ends m s e) (λ r p h. (m, h)) (λ p h. h)
