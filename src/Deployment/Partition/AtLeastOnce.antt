-- ===== src/Deployment/Partition/AtLeastOnce.antt =====
-- A deployed consumer that is restarted after its failures loses no record of its partition.
use kafka_sqs.Base.{
  String, ℕ, ◌<◌, ◌≡◌, refl, ◌⊎◌, inl, inr, arith, Option, none, some, Bool-cases, ◌==◌, ==_iff,
}
use mathlib.Core.Path.{subst, sym, ap, ◌∙◌}
use kafka_sqs.Base.Effect.{Exc, Outcome, ok, raise, out_of_fuel, Eff}
use kafka_sqs.Contracts.Event.{Uuid, OrderCreatedEvent}
use kafka_sqs.Contracts.Libraries.{Libraries}
use kafka_sqs.Clients.{Runtime, Message}
use kafka_sqs.DeadLetter.{RetryPolicy, DeadLetterFailure}
use kafka_sqs.Postgres.{Server, Database}
use kafka_sqs.OrderStore.Rows.{Tables}
use kafka_sqs.OrderStore.{store, mark_completed, discard}
use kafka_sqs.OrderStore.Effects.{store_ok, mark_completed_ok}
use kafka_sqs.OrderStore.Consistent.{
  Ran, stored, store_failed, marked, mark_failed, discarded, discard_failed,
}
use kafka_sqs.OrderStore.Idempotent.{StoreEffect-Claims, CompleteEffect-Claims}
use kafka_sqs.OrderStore.Lasting.{Spares, Ran-Lasts}
use kafka_sqs.Consumer.{ConsumerSettings}
use kafka_sqs.Consumer.Process.{publish_to, send_to}
use kafka_sqs.Consumer.Count.{Leaves}
use kafka_sqs.Consumer.Log.{Any, Steady, IsNext, Polled, Committed, Serves, IsSafe}
use kafka_sqs.Consumer.Log.Session.{Session, Session-IsSafe}
use kafka_sqs.Deployment.{
  World, put_db, on_db, put_rest, send_on_rest, publish_on_rest, Surroundings, deployed,
}
use kafka_sqs.Deployment.Partition.{
  Topic, runtime_on_rest, Differs, CompletedIn, Repeated, partition, Stays, Gives, PolledFrom,
  CommittedFrom, Provides,
}

module _ {E A : Type 0} where
  on_db-Leaves :
      (m : Eff (Database Tables) A) (w : World E) {P : A → World E → Type 0} {Q : World E → Type 0}
      → ((a : A) (db : Database Tables) → m w.db ≡ ok a db → P a (record w { db = db }))
      → ((e : Exc) (db : Database Tables) → m w.db ≡ raise e db → Q (record w { db = db }))
      → Leaves (on_db m w) P Q
  on_db-Leaves m w {P} {Q} f g = put (m w.db) refl
    where
      put : (o : Outcome (Database Tables) A) → m w.db ≡ o → Leaves (put_db w o) P Q
      put (ok a db) h = record { at = f a db h }
      put (raise e db) h = record { at = g e db h }
      put out_of_fuel h = record { at = tt }

  put_rest-Leaves :
      (w : World E) (o : Outcome E A) {P : A → E → Type 0} {Q : E → Type 0}
      {P' : A → World E → Type 0} {Q' : World E → Type 0}
      → Leaves o P Q
      → ((a : A) (e : E) → P a e → P' a (record w { rest = e }))
      → ((e : E) → Q e → Q' (record w { rest = e }))
      → Leaves (put_rest w o) P' Q'
  put_rest-Leaves w (ok a e) l f g = record { at = f a e l.at }
  put_rest-Leaves w (raise x e) l f g = record { at = g e l.at }
  put_rest-Leaves w out_of_fuel l f g = record { at = tt }

module _ {E : Type 0} where
  send_to-put_rest :
      (downstream : Option (OrderCreatedEvent → Eff E (Unit {0}))) (event : OrderCreatedEvent)
      (w : World E)
      → send_to (send_on_rest downstream) event w ≡ put_rest w (send_to downstream event w.rest)
  send_to-put_rest none event w = refl
  send_to-put_rest (some send) event w = refl

  publish_to-put_rest :
      (publisher : Option (String → DeadLetterFailure → Eff E (Unit {0}))) (topic : Option String)
      (failure : DeadLetterFailure) (w : World E)
      → publish_to (publish_on_rest publisher) topic failure w
        ≡ put_rest w (publish_to publisher topic failure w.rest)
  publish_to-put_rest none topic failure w = refl
  publish_to-put_rest (some f) none failure w = refl
  publish_to-put_rest (some f) (some topic) failure w = refl

module _ {E : Type 0} (t : Topic E) where
  Settled-map :
      (w w' : World E) (i : ℕ)
      → (partition t).Settled i w
      → (CompletedIn (t.event_at i) w.db.tables → CompletedIn (t.event_at i) w'.db.tables)
      → (t.DeadLettered i w.rest → t.DeadLettered i w'.rest)
      → (partition t).Settled i w'
  Settled-map w w' i (inl done) f g = inl (f done)
  Settled-map w w' i (inr (inl dead)) f g = inr (inl (g dead))
  Settled-map w w' i (inr (inr repeated)) f g = inr (inr repeated)

  -- An earlier record carries another event, or its event comes again.
  apart_before :
      (i j : ℕ) (id : Uuid)
      → i < j
      → t.event_at j ≡ some id
      → (o : Option Uuid) → t.event_at i ≡ o
      → Differs id o ⊎ Repeated t i
  apart_before i j id before named none e = inl tt
  apart_before i j id before named (some other) e = elim (Bool-cases (id == other)) [
    | inl equal ↦ inr (j, id, before, e ∙ ap some (sym ((==_iff id other).0 equal)), named)
    | inr differ ↦ inl differ
  ]

  Stays-Steady :
      (w : World E) (e : E)
      → Stays t w.rest e
      → Steady (partition t) (Any (partition t)) w (record w { rest = e })
  Stays-Steady w e s = record {
    at = s.at;
    group = s.group;
    keeps =
        λ i _ settled. Settled-map w (record w { rest = e }) i settled (λ done. done) (s.keeps i);
  }

  -- A call of the store that spares every event but its own.
  Ran-Steady :
      (server : Server) (w : World E) (db : Database Tables) (id : Uuid) (ran : Ran server w.db db)
      → ((other : Uuid) → Differs id (some other) → Spares other ran)
      → Steady (partition t) ((partition t).Apart id) w (record w { db = db })
  Ran-Steady server w db id ran spares = record {
    at = refl;
    group = refl;
    keeps = λ i apart settled. elim apart [
      | inl differs ↦
          Settled-map w (record w { db = db }) i settled (completed (t.event_at i) differs)
            (λ dead. dead)
      | inr repeated ↦ inr (inr repeated)
    ];
  }
    where
      completed :
          (o : Option Uuid) → Differs id o → CompletedIn o w.db.tables → CompletedIn o db.tables
      completed none apart done = absurd done
      completed (some other) apart done =
          Ran-Lasts other server w.db db ran (spares other apart) done

module _ {E : Type 0} (t : Topic E) (lib : Libraries) (run : Runtime E) (server : Server)
    (settings : ConsumerSettings) (topic : String) (policy : RetryPolicy) (s : Surroundings E)
    (provides : Provides t lib run s) where
  Gives-Polled :
      (m : Message) (w : World E) (e : E)
      → Gives t lib m w.rest e
      → Polled (partition t) lib w (some m) (record w { rest = e })
  Gives-Polled m w e g = inl (g.sound, next, g.own, g.moved, g.group, keeps)
    where
      next : IsNext (partition t) lib m
      next = record {
        apart = λ payload event valid i before.
            apart_before t i m.offset event.event_id before (g.names payload event valid)
              (t.event_at i) refl;
        settles = λ payload event v valid done.
            inl (subst (λ o. CompletedIn o v.db.tables) (sym (g.names payload event valid)) done);
      }

      keeps : (i : ℕ) → (partition t).Settled i w → (partition t).Settled i (record w { rest = e })
      keeps i settled = Settled-map t w (record w { rest = e }) i settled (λ done. done) (g.keeps i)

  PolledFrom-Polled :
      (polled : Option Message) (w : World E) (e : E)
      → PolledFrom t lib w.rest polled e
      → Polled (partition t) lib w polled (record w { rest = e })
  PolledFrom-Polled none w e stays = Stays-Steady t w e stays
  PolledFrom-Polled (some m) w e (inl g) = Gives-Polled m w e g
  PolledFrom-Polled (some m) w e (inr (faulty, stays)) = inr (faulty, Stays-Steady t w e stays)

  CommittedFrom-Committed :
      (m : Message) (w : World E) (e : E)
      → CommittedFrom t m w.rest e
      → Committed (partition t) m w (record w { rest = e })
  CommittedFrom-Committed m w e c = record {
    at = c.at;
    group = c.group;
    keeps =
        λ i settled. Settled-map t w (record w { rest = e }) i settled (λ done. done) (c.keeps i);
  }

  pub deployed-Serves :
      Serves (partition t) lib (runtime_on_rest run) (deployed server settings topic policy s)
  deployed-Serves = record {
    polls = λ timeout w.
        put_rest-Leaves w _ (provides.polls timeout w.rest)
          (λ polled e got. PolledFrom-Polled polled w e got) (λ e stays. Stays-Steady t w e stays);
    commits = λ m w.
        put_rest-Leaves w _ (provides.commits m w.rest)
          (λ _ e c. (CommittedFrom-Committed m w e c.0, c.1))
          (λ e c. CommittedFrom-Committed m w e c);
    stores = λ event w.
        on_db-Leaves (store server event) w
          (λ r db h. (
            Ran-Steady t server w db event.event_id (stored event r h) (λ other apart. tt),
            λ settled.
                rw settled at
                  (StoreEffect-Claims _ event _ _ r (store_ok server event w.db db r h)),
          ))
          (λ e db h.
            Ran-Steady t server w db event.event_id (store_failed event e h) (λ other apart. tt));
    marks = λ id w.
        on_db-Leaves (mark_completed server id) w
          (λ _ db h. (
            Ran-Steady t server w db id (marked id h) (λ other apart. tt),
            CompleteEffect-Claims _ id _ _ (mark_completed_ok server id w.db db h),
          ))
          (λ e db h. Ran-Steady t server w db id (mark_failed id e h) (λ other apart. tt));
    discards = λ id w.
        on_db-Leaves (discard server id) w
          (λ _ db h. Ran-Steady t server w db id (discarded id h) (λ other apart. apart))
          (λ e db h. Ran-Steady t server w db id (discard_failed id e h) (λ other apart. apart));
    sends = λ event w. rw (send_to-put_rest s.downstream event w) (
        put_rest-Leaves w _ (provides.sends event w.rest) (λ _ e stays. Stays-Steady t w e stays)
          (λ e stays. Stays-Steady t w e stays));
    publishes = λ failure w.
        rw (publish_to-put_rest s.dead_letter_publisher s.dead_letter_topic failure w) (
          put_rest-Leaves w _ (provides.publishes failure w.rest)
            (λ _ e published. (Stays-Steady t w e published.0, inr (inl published.1)))
            (λ e stays. Stays-Steady t w e stays));
    waits = λ d w. Stays-Steady t w _ (provides.waits d w.rest);
    ticks = λ w. Stays-Steady t w _ (provides.ticks w.rest);
  }

  -- At least once: where polls, commits, publications, waits and the notified service do to the
  -- partition what `Provides` says (a poll gives the record at the position or none, only polls and
  -- commits move the offsets, a commit to behind its record, and a publication that returns
  -- acknowledges the dead-letter record), and the server of PostgreSQL fails wherever it likes, in a
  -- session of a deployed consumer that is restarted after every exception that followed a record, and
  -- that starts with every record before its position settled: each record before the committed
  -- offset of the group has been settled. Its event is completed in PostgreSQL, or its dead-letter
  -- record is acknowledged, or a later record of the partition carries the same event, so that the
  -- last delivery of each event decides.
  pub Session-Settled :
      {w w' : World E}
      → Session
          (partition t)
          lib
          (runtime_on_rest run)
          (deployed server settings topic policy s)
          w
          w'
      → IsSafe (partition t) w
      → (i : ℕ) → i < t.committed w'.rest
      → CompletedIn (t.event_at i) w'.db.tables ⊎ t.DeadLettered i w'.rest ⊎ Repeated t i
  Session-Settled session safe i before =
      let kept = Session-IsSafe _ _ _ _ deployed-Serves session safe in
      kept.settled i (omega (arith, before, kept.behind))
