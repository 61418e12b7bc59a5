-- ===== src/Postgres.antt =====
-- How the stores talk to PostgreSQL through psycopg: one connection and one transaction for each
-- method. What may go wrong outside the program is a parameter, asked at every call.
pub mod Transaction
use kafka_sqs.Base.{ℕ, ◌+◌, Option, none, some}
use kafka_sqs.Base.Effect.{Exc, Reply, value, error, Outcome, ok, raise, out_of_fuel, Eff}

-- The end of a transaction: it is committed, it is refused, or its acknowledgement is lost after
-- the server has committed.
pub data Commit : Type 0 where
  committed : Commit
  rejected : Exc → Commit
  unknown : Exc → Commit

-- What the server and the network do at the n-th call of the run.
pub record Server : Type 0 where
  pub connect : ℕ → Option Exc
  pub statement : ℕ → Option Exc
  pub commit : ℕ → Commit
  pub clock : ℕ → ℕ

-- The committed tables, and the number of calls made so far.
pub record Database (T : Type 0) : Type 0 where
  pub tables : T
  pub calls : ℕ

abbrev pub tick : {T : Type 0} → Database T → Database T
tick db = record db { calls = db.calls + 1 }

module _ {T A : Type 0} where
  abbrev pub answer : Database T → Reply (A × T) → Outcome (Database T) A
  answer db (value (a, t)) = ok a (record db { tables = t })
  answer db (error e) = raise e db

  -- connection.execute(...): a failing statement changes no row.
  abbrev pub execute : Server → (T → Reply (A × T)) → Eff (Database T) A
  execute server query db = elim (server.statement db.calls) [
    | some e ↦ raise e (tick db)
    | none ↦ answer (tick db) (query db.tables)
  ]

  abbrev pub close_transaction : Server → T → Outcome (Database T) A → Outcome (Database T) A
  close_transaction server before (ok a db) = elim (server.commit db.calls) [
    | committed ↦ ok a (tick db)
    | rejected e ↦ raise e (record (tick db) { tables = before })
    | unknown e ↦ raise e (tick db)
  ]
  close_transaction server before (raise e db) = raise e (record db { tables = before })
  close_transaction server before out_of_fuel = out_of_fuel

  -- with psycopg.connect(dsn) as connection: the block commits if it ends or returns, and is rolled
  -- back if it raises. `now` is what CURRENT_TIMESTAMP shows in it.
  abbrev pub transaction : Server → (ℕ → Eff (Database T) A) → Eff (Database T) A
  transaction server body db = elim (server.connect db.calls) [
    | some e ↦ raise e (tick db)
    | none ↦ close_transaction server db.tables (body (server.clock db.calls) (tick db))
  ]
