-- ===== src/Dashboard/Control.antt =====
-- The control route over the pause controls in PostgreSQL.
use kafka_sqs.Base.{String, ◌≡◌, Bool, str_eq}
use kafka_sqs.Base.Effect.{ok}
use kafka_sqs.Postgres.{Server, Database}
use kafka_sqs.ControlStore.{Controls, set_paused, is_paused, states}
use kafka_sqs.LabConfig.{LocalLabConfig}
use kafka_sqs.Dashboard.{LabServices, ControlAnswer, changed, refused}

-- controls: ConsumerControlStore
abbrev pub with_controls :
    Server → LabServices (Database Controls) → LabServices (Database Controls)
with_controls server services = record services {
  set_paused = set_paused server;
  states = states server;
}

module _ (server : Server) (services : LabServices (Database Controls)) (settings : LocalLabConfig)
    (broker action : String) where
  abbrev pub pauses : Bool
  pauses = str_eq action "pause"

  -- The control reads as the answer says.
  abbrev pub Applies : ControlAnswer → Database Controls → Type 0
  Applies answer db' =
      (answer ≡ changed broker pauses)
      × ((db'' : Database Controls) × (is_paused server broker db' ≡ ok pauses db'')
          × (db''.tables ≡ db'.tables))

  -- The answer is 404, and the database has not been called.
  abbrev pub Refuses : ControlAnswer → Database Controls → Database Controls → Type 0
  Refuses answer db db' = (answer ≡ refused 404 "Unknown consumer control.") × (db ≡ db')
