-- ===== src/Dashboard/Health.antt =====
-- What the health route answers, whatever its services do.
use kafka_sqs.Base.{String, ◌≡◌, refl, ◌⊎◌, inl, inr, Bool, ◌&&◌, List}
use kafka_sqs.Base.Effect.{Exc, Outcome, ok, raise, out_of_fuel, Eff, pure, continue}
use kafka_sqs.LabConfig.{LocalLabConfig}
use kafka_sqs.Dashboard.{
  LabServices, up, down, Service, HealthReport, safe_error, is_up, resources_of, probe,
  topic_detail, queue_detail, orders_detail, total_orders, report, health,
}

-- The call, in the world `w`, returned or raised and left the world `w'`: the service is up in the
-- first case, and down with the error in the second.
abbrev pub Probed : {W A : Type 0} → Eff W A → (A → String) → W → Service → W → Type 0
Probed {W} {A} call detail w s w' =
    ((a : A) × (call w ≡ ok a w') × (s ≡ record { status = up; detail = detail a }))
    ⊎ ((e : Exc) × (call w ≡ raise e w') × (s ≡ record { status = down; detail = safe_error e }))

module _ {W : Type 0} (services : LabServices W) (settings : LocalLabConfig) where
  probe_ok :
      {A : Type 0} (call : Eff W A) (detail : A → String) (s : Service) (w w' : W)
      → Probed call detail w s w'
      → probe services settings call detail w ≡ ok s w'
  probe_ok call detail s w w' (inl (a, returned, same)) = rw returned rw same refl
  probe_ok call detail s w w' (inr (e, raised, same)) = rw raised rw same refl

  -- The report on three services, the pause states, and the resources of the settings.
  abbrev pub Answers :
      Service
      → Service
      → Service
      → Outcome W (List (String × Bool))
      → Outcome W HealthReport
      → Type 0
  Answers kafka sqs postgres (ok consumers w') o =
      (r : HealthReport) × (o ≡ ok r w')
      × (r.ready ≡ (is_up kafka && is_up sqs && is_up postgres))
      × (r.kafka ≡ kafka)
      × (r.sqs ≡ sqs)
      × (r.postgres ≡ postgres)
      × (r.consumers ≡ consumers)
      × (r.resources ≡ resources_of settings)
  Answers kafka sqs postgres (raise e w') o = o ≡ raise e w'
  Answers kafka sqs postgres out_of_fuel o = o ≡ out_of_fuel

  report-Answers :
      (kafka sqs postgres : Service) (read : Outcome W (List (String × Bool)))
      → Answers kafka sqs postgres read
          (continue read λ consumers. pure (report services settings kafka sqs postgres consumers))
  report-Answers kafka sqs postgres (ok consumers w') = (
    report services settings kafka sqs postgres consumers,
    refl,
    refl,
    refl,
    refl,
    refl,
    refl,
    refl,
  )
  report-Answers kafka sqs postgres (raise e w') = refl
  report-Answers kafka sqs postgres out_of_fuel = refl

  -- The health route asks Kafka for the topic, SQS for the depth of the queue and PostgreSQL for the
  -- orders, each in the world that the one before left. Whether these three calls return or raise, the
  -- route then reads the pause states. If they can be read, it returns a report in which each service
  -- is up if its call returned and down with the error if it raised, which is ready exactly if all
  -- three are up, and which has these pause states; if reading them raises, the route raises the same.
  pub health-Answers :
      (kafka sqs postgres : Service) (w w1 w2 w3 : W)
      → Probed
          (services.describe_topic settings.kafka_topic)
          (topic_detail services settings)
          w
          kafka
          w1
      → Probed services.queue_depth (queue_detail services settings) w1 sqs w2
      → Probed (total_orders services settings) (orders_detail services settings) w2 postgres w3
      → Answers kafka sqs postgres (services.states w3) (health services settings w)
  unfolding health
  health-Answers kafka sqs postgres w w1 w2 w3 k q p =
      rw (probe_ok _ _ kafka w w1 k) rw (probe_ok _ _ sqs w1 w2 q) rw
        (probe_ok _ _ postgres w2 w3 p) (report-Answers kafka sqs postgres (services.states w3))
