-- ===== src/ControlStore.antt =====
-- local_lab/consumer_control_store.py: the pause controls in PostgreSQL. The table is `none` while it
-- does not exist; new rows stand in front. In the texts, {broker!r} is written for a name that has
-- neither quotes nor escapes.
pub mod Pauses
mod Examples
use kafka_sqs.Base.{
  ℕ, String, ◌<>◌, Bool, true, false, not, ◌||◌, Option, none, some, List, [], ◌∷◌, map, ◌==◌,
  str_eq, if◌then◌else◌,
}
use kafka_sqs.Base.Lists.{length, any, select, find}
use kafka_sqs.Base.Effect.{
  Exc, runtime_error, value_error, Reply, value, error, Eff, pure, throw, lift, ◌>>=◌, ◌>>◌,
}
use kafka_sqs.Postgres.{Server, Database, execute, transaction}
use kafka_sqs.OrderStore.Rows.{undefined_table}

pub record ControlRow : Type 0 where
  pub broker : String
  pub paused : Bool
  pub updated_at : ℕ

abbrev pub Controls : Type 0
Controls = Option (List ControlRow)

abbrev pub has_broker : String → ControlRow → Bool
has_broker broker row = str_eq row.broker broker

-- broker in _BROKERS
unfoldable pub is_broker : String → Bool
is_broker broker = str_eq broker "kafka" || str_eq broker "sqs"

-- _validate_broker
unfoldable pub validate_broker : String → Reply (Unit {0})
validate_broker broker =
    if is_broker broker
    then value tt
    else error (value_error ("Unsupported local-lab broker: '" <> (broker <> "'.")))

abbrev missing_control : String → Exc
missing_control broker = runtime_error ("Consumer control is missing for '" <> (broker <> "'."))

abbrev rows_of : Controls → List ControlRow
rows_of none = []
rows_of (some rows) = rows

-- INSERT INTO local_lab.consumer_controls (broker) ... ON CONFLICT (broker) DO NOTHING
abbrev pub insert_control : ℕ → String → List ControlRow → List ControlRow
insert_control now broker rows =
    if any (has_broker broker) rows
    then rows
    else record { broker = broker; paused = false; updated_at = now } ∷ rows

abbrev or_undefined : {A : Type 0} → Controls → (List ControlRow → A) → Reply A
or_undefined none f = error undefined_table
or_undefined (some rows) f = value (f rows)

unfoldable pub update_rows : ℕ → Bool → String → List ControlRow → List ControlRow
update_rows now paused broker [] = []
update_rows now paused broker (row ∷ rows) =
    (if has_broker broker row then record row { paused = paused; updated_at = now } else row)
    ∷ update_rows now paused broker rows

-- UPDATE local_lab.consumer_controls SET paused = %s, ... WHERE broker = %s: the number of rows.
abbrev pub update_paused : ℕ → Bool → String → Controls → Reply (ℕ × Controls)
update_paused now paused broker t =
    or_undefined t
      λ rows. (length (select (has_broker broker) rows), some (update_rows now paused broker rows))

abbrev pub paused_of : Option ControlRow → Option Bool
paused_of none = none
paused_of (some row) = some row.paused

module _ (server : Server) where
  unfoldable pub initialize : Eff (Database Controls) (Unit {0})
  initialize = transaction server λ now. do
    execute server (λ t. value (tt, some (rows_of t)))
    execute server (λ t. or_undefined t λ rows. (tt, some (insert_control now "kafka" rows)))
    execute server (λ t. or_undefined t λ rows. (tt, some (insert_control now "sqs" rows)))

  abbrev check_updated : String → ℕ → Eff (Database Controls) (Unit {0})
  check_updated broker rowcount = if rowcount == 1 then pure tt else throw (missing_control broker)

  abbrev pub set_block : String → Bool → ℕ → Eff (Database Controls) (Unit {0})
  set_block broker paused now = do
    rowcount ← execute server (update_paused now paused broker)
    check_updated broker rowcount

  unfoldable pub set_paused : String → Bool → Eff (Database Controls) (Unit {0})
  unfolding update_rows validate_broker
  set_paused broker paused = do
    lift (validate_broker broker)
    transaction server (set_block broker paused)

  abbrev pub read_paused : String → Eff (Database Controls) (Option Bool)
  read_paused broker = transaction server λ now.
      execute server λ t. or_undefined t λ rows. (paused_of (find (has_broker broker) rows), t)

  abbrev pub or_missing : String → Option Bool → Eff (Database Controls) Bool
  or_missing broker none = throw (missing_control broker)
  or_missing broker (some paused) = pure paused

  unfoldable pub is_paused : String → Eff (Database Controls) Bool
  unfolding validate_broker
  is_paused broker = do
    lift (validate_broker broker)
    row ← read_paused broker
    or_missing broker row

  unfoldable pub states : Eff (Database Controls) (List (String × Bool))
  states = transaction server λ now.
      execute server λ t. or_undefined t λ rows. (map (λ row. (row.broker, row.paused)) rows, t)
