-- ===== src/Consumer/Log/Handled.antt =====
-- The handling of one record: its offset is committed only once it is settled.
use kafka_sqs.Base.{
  ℕ, zero, suc, ◌+◌, ◌<◌, ◌≡◌, refl, ◌∙◌, ◌⊎◌, inl, inr, Bool, false, Option, none, some, arith,
}
use mathlib.Core.Path.{subst}
use native.Mathlib.Decide.{dec_lt}
use kafka_sqs.Base.Lists.{any}
use kafka_sqs.Base.Effect.{Exc, Reply, value, error, Eff}
use kafka_sqs.Contracts.Event.{OrderCreatedEvent}
use kafka_sqs.Contracts.Json.{Json}
use kafka_sqs.Contracts.Libraries.{Libraries}
use kafka_sqs.Clients.{Runtime, Message}
use kafka_sqs.OrderStore.{EventStoreResult}
use kafka_sqs.Consumer.{ProcessedKafkaRecord, KafkaOrderConsumer, is_some, is_false, decode_event}
use kafka_sqs.Consumer.Process.{
  commit, dead_letter, run_attempts, recover, finish_effects, settle, can_retry, handle_decoded,
  handle_message,
}
use kafka_sqs.Consumer.Count.{Leaves, Leaves-map, attempt_Leaves, continue_Leaves, if_Leaves}
use kafka_sqs.Consumer.Log.{Partition, Any, Steady, IsNext, Committed, Serves, IsSafe, IsOpen}

module _ {W : Type 0} (p : Partition W) where
  pub Steady-IsSafe : (w w' : W) → Steady p (Any p) w w' → IsSafe p w → IsSafe p w'
  Steady-IsSafe w w' s safe = record {
    settled = λ i lt. s.keeps i tt (safe.settled i (omega (arith, s.at)));
    behind = omega (arith, s.at, s.group, safe.behind);
  }

  Steady-IsOpen :
      {P : ℕ → Type 0} (k : ℕ) (w w' : W)
      → ((i : ℕ) → i < k → P i)
      → Steady p P w w'
      → IsOpen p k w
      → IsOpen p k w'
  Steady-IsOpen k w w' apart s o = record {
    at = s.at ∙ o.at;
    settled = λ i lt. s.keeps i (apart i lt) (o.settled i lt);
    behind = omega (arith, s.group, o.behind);
  }

  Committed-IsSafe :
      (m : Message) (w w' : W)
      → Committed p m w w'
      → IsOpen p m.offset w
      → p.Settled m.offset w
      → IsSafe p w'
  Committed-IsSafe m w w' c o done = record {
    settled = λ i lt. c.keeps i (settled i (dec_lt i m.offset) (omega (arith, c.at, o.at)));
    behind = elim c.group [
      | inl still ↦ omega (arith, c.at, o.at, o.behind)
      | inr moved ↦ omega (arith, c.at, o.at)
    ];
  }
    where
      settled : (i : ℕ) → Dec (i < m.offset) → i < suc m.offset → p.Settled i w
      settled i (yes below) lt = o.settled i below
      settled i (no at) lt = let e : m.offset ≡ i = omega arith in subst (λ n. p.Settled n w) e done

  -- Where an exception leaves the partition: everything before the position is settled, or everything
  -- before the record at `k`, which was given last.
  abbrev pub Raised : ℕ → W → Type 0
  Raised k w = IsSafe p w ⊎ IsOpen p k w

module _ {W : Type 0} (p : Partition W) (lib : Libraries) (run : Runtime W)
    (self : KafkaOrderConsumer W) (serves : Serves p lib run self) (m : Message) where
  -- The record is the one that was given last, and it is settled.
  abbrev Ready : W → Type 0
  Ready w = IsOpen p m.offset w × p.Settled m.offset w

  -- What a return leaves: the group is behind the record, and everything before it is settled.
  abbrev pub Ended : W → Type 0
  Ended w = IsSafe p w × (p.committed w ≡ suc m.offset)

  commit-Ended : (w : W) → Ready w → Leaves (commit lib run self m w) (λ _. Ended) (IsSafe p)
  unfolding commit
  commit-Ended w (o, done) =
      attempt_Leaves _ _ _
        {P = λ errors v. IsSafe p v × (any is_some errors ≡ false → p.committed v ≡ suc m.offset)}
        (Leaves-map _ (serves.commits m w) (λ _ w' c. (Committed-IsSafe p m w w' c.0 o done, c.1))
          (λ w' c. Committed-IsSafe p m w w' c o done))
        (λ e w' safe. record { at = safe })
        λ errors w' safe.
          if_Leaves (any is_some errors) _ _ w' (λ _. record { at = safe.0 })
            (λ clean. record { at = (safe.0, safe.1 clean) })

  dead_letter-Ended :
      (payload : Json) (e : Exc) (n : ℕ) (event : Option OrderCreatedEvent) (dup : Bool) (w : W)
      → IsOpen p m.offset w
      → Leaves (dead_letter lib run self m payload e n event dup w) (λ _. Ended) (Raised p m.offset)
  unfolding dead_letter
  dead_letter-Ended payload e n event dup w o =
      continue_Leaves _ _
        (Leaves-map _ (serves.publishes _ w)
          (λ _ w' s. (Steady-IsOpen p m.offset w w' (λ i lt. tt) s.0 o, s.1))
          (λ w' s. inr (Steady-IsOpen p m.offset w w' (λ i lt. tt) s o)))
        λ _ w1 ready.
          continue_Leaves _ _
            (Leaves-map _ (commit-Ended w1 ready) (λ _ w' safe. safe) (λ w' safe. inl safe))
            λ _ w2 safe. record { at = safe }

  module _ (next : IsNext p lib m) (payload : Json) (event : OrderCreatedEvent)
      (valid : decode_event lib m.payload ≡ value (payload, event)) where
    apart : (i : ℕ) → i < m.offset → p.Apart event.event_id i
    apart = next.apart payload event valid

    -- A call that names only the event of the record.
    own-IsOpen :
        (w w' : W)
        → Steady p (p.Apart event.event_id) w w'
        → IsOpen p m.offset w
        → IsOpen p m.offset w'
    own-IsOpen w w' = Steady-IsOpen p m.offset w w' apart

    finish_effects-IsOpen :
        (r : EventStoreResult) (w : W)
        → IsOpen p m.offset w
        → (r.downstream_required ≡ false → p.Completed event.event_id w)
        → Leaves
            (finish_effects lib run self event r w)
            (λ _ w'. IsOpen p m.offset w' × p.Completed event.event_id w')
            (IsOpen p m.offset)
    finish_effects-IsOpen r w o closed =
        if_Leaves r.downstream_required _ _ w
          (λ _.
            continue_Leaves _ _
              (Leaves-map _ (serves.sends event w)
                (λ _ w1 s. Steady-IsOpen p m.offset w w1 (λ i lt. tt) s o)
                (λ w1 s. Steady-IsOpen p m.offset w w1 (λ i lt. tt) s o))
              λ _ w1 o1.
                Leaves-map _ (serves.marks event.event_id w1)
                  (λ _ w2 s. (own-IsOpen w1 w2 s.0 o1, s.1)) (λ w2 s. own-IsOpen w1 w2 s o1))
          (λ done. record { at = (o, closed done) })

    recover-Ended :
        (n : ℕ) (initial : Option Bool) (e : Exc) (retry : Eff W ProcessedKafkaRecord) (w : W)
        → IsOpen p m.offset w
        → ((v : W) → IsOpen p m.offset v → Leaves (retry v) (λ _. Ended) (Raised p m.offset))
        → Leaves
            (recover lib run self m payload event n initial e retry w)
            (λ _. Ended)
            (Raised p m.offset)
    recover-Ended n initial e retry w o again =
        if_Leaves (can_retry lib run self e n) _ _ w
          (λ _. again _ (
            Steady-IsOpen p m.offset w _ (λ i lt. tt)
              (serves.waits self.retry_policy.backoff_seconds w) o))
          λ _.
            if_Leaves (is_some self.dead_letter_publisher) _ _ w
              (λ _.
                continue_Leaves _ _
                  (Leaves-map _ (serves.discards event.event_id w) (λ _ w1 s. own-IsOpen w w1 s o)
                    (λ w1 s. inr (own-IsOpen w w1 s o)))
                  λ _ w1 o1. dead_letter-Ended payload e n (some event) (is_false initial) w1 o1)
              (λ _. record { at = inr o })

    settle-Ended :
        (n : ℕ) (initial : Option Bool) (w : W)
        → IsOpen p m.offset w × p.Completed event.event_id w
        → Leaves (settle lib run self m event n initial w) (λ _. Ended) (Raised p m.offset)
    settle-Ended n initial w (o, done) =
        continue_Leaves _ _
          (Leaves-map _ (commit-Ended w (o, next.settles payload event w valid done))
            (λ _ w' safe. safe) (λ w' safe. inl safe))
          λ _ w1 safe. record { at = safe }

    run_attempts-Ended :
        (fuel n : ℕ) (initial : Option Bool) (w : W)
        → IsOpen p m.offset w
        → Leaves
            (run_attempts lib run self m payload event fuel n initial w)
            (λ _. Ended)
            (Raised p m.offset)
    unfolding run_attempts
    run_attempts-Ended zero n initial w o = record { at = tt }
    run_attempts-Ended (suc fuel) n initial w o =
        attempt_Leaves _ _ _
          {P = λ r v.
            IsOpen p m.offset v × (r.downstream_required ≡ false → p.Completed event.event_id v)}
          {Q = IsOpen p m.offset}
          (Leaves-map _ (serves.stores event w) (λ r w1 s. (own-IsOpen w w1 s.0 o, s.1))
            (λ w1 s. own-IsOpen w w1 s o))
          (λ x w1 o1.
            recover-Ended (n + 1) initial x _ w1 o1 (run_attempts-Ended fuel (n + 1) initial))
          λ r w1 o1.
            attempt_Leaves _ _ _ (finish_effects-IsOpen r w1 o1.0 o1.1)
              (λ x w2 o2. recover-Ended (n + 1) _ x _ w2 o2 (run_attempts-Ended fuel (n + 1) _))
              λ _ w2 done. settle-Ended (n + 1) _ w2 done

  handle_decoded-Ended :
      (next : IsNext p lib m) (r : Reply (Json × OrderCreatedEvent)) (w : W)
      → decode_event lib m.payload ≡ r
      → IsOpen p m.offset w
      → Leaves (handle_decoded lib run self m r w) (λ _. Ended) (Raised p m.offset)
  handle_decoded-Ended next (value (payload, event)) w valid o =
      run_attempts-Ended next payload event valid _ 0 none w o
  handle_decoded-Ended next (error e) w valid o =
      if_Leaves (is_some self.dead_letter_publisher) _ _ w
        (λ _. dead_letter-Ended _ e 1 none false w o) (λ _. record { at = inr o })

  pub handle_message-Ended :
      (w : W)
      → IsNext p lib m
      → IsOpen p m.offset w
      → Leaves (handle_message lib run self m w) (λ _. Ended) (Raised p m.offset)
  unfolding handle_message
  handle_message-Ended w next o =
      if_Leaves (is_some m.fault) _ _ w (λ _. record { at = inr o })
        (λ _. handle_decoded-Ended next (decode_event lib m.payload) w refl o)
