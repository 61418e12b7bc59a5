-- ===== src/Postgres/Transaction.antt =====
-- What a transaction leaves, from what its block did.
use kafka_sqs.Base.{ℕ, ◌≡◌, refl, ◌≢◌, ◌⊎◌, inl, inr, none, Option-cases, arith}
use kafka_sqs.Base.Effect.{Exc, Outcome, ok, raise, out_of_fuel, Eff}
use kafka_sqs.Postgres.{
  Server, Database, Commit, committed, rejected, unknown, tick, close_transaction, transaction,
}

-- No acknowledgement of a commit is lost.
abbrev pub AnswersCommits : Server → Type 0
AnswersCommits server = (n : ℕ) (e : Exc) → server.commit n ≢ unknown e

-- Nothing goes wrong outside the program.
pub record IsHealthy (server : Server) : Type 0 where
  pub connects : (n : ℕ) → server.connect n ≡ none
  pub runs : (n : ℕ) → server.statement n ≡ none
  pub commits : (n : ℕ) → server.commit n ≡ committed

abbrev pub healthy_server : Server
healthy_server = record {
  connect = λ n. none;
  statement = λ n. none;
  commit = λ n. committed;
  clock = λ n. n;
}

pub healthy_server-IsHealthy : IsHealthy healthy_server
healthy_server-IsHealthy = record { connects = λ n. refl; runs = λ n. refl; commits = λ n. refl }

module _ {T A : Type 0} (server : Server) where
  -- The run of a block that was committed.
  pub record Committed (body : ℕ → Eff (Database T) A) (db : Database T) (a : A) (t : T)
      : Type 0 where
    pub last : Database T
    pub ran : body (server.clock db.calls) (tick db) ≡ ok a last
    pub kept : t ≡ last.tables

  -- The block ran to its end, and its commit was carried out, but the acknowledgement of that commit
  -- was lost, which is the exception.
  pub record LostCommit (body : ℕ → Eff (Database T) A) (db : Database T) (a : A) (e : Exc)
      : Type 0 where
    pub last : Database T
    pub ran : body (server.clock db.calls) (tick db) ≡ ok a last
    pub lost : server.commit last.calls ≡ unknown e

  close_ok :
      (before : T) (o : Outcome (Database T) A) (a : A) (db' : Database T)
      → close_transaction server before o ≡ ok a db'
      → (last : Database T) × (o ≡ ok a last) × (db'.tables ≡ last.tables)
  close_ok before (ok b last) a db' h = (last, ground arith, ground arith)
  close_ok before (raise e last) a db' h = absurd (cc)
  close_ok before out_of_fuel a db' h = absurd (cc)

  close_raise :
      (before : T) (o : Outcome (Database T) A) (e : Exc) (db' : Database T)
      → close_transaction server before o ≡ raise e db'
      → AnswersCommits server
      → db'.tables ≡ before
  close_raise before (ok b last) e db' h known = ground (arith, known last.calls e)
  close_raise before (raise x last) e db' h known = ground arith
  close_raise before out_of_fuel e db' h known = absurd (cc)

  -- A transaction that returns has run its block to the end and kept its tables.
  pub transaction_ok :
      (body : ℕ → Eff (Database T) A) (db db' : Database T) (a : A)
      → transaction server body db ≡ ok a db'
      → Committed body db a db'.tables
  transaction_ok body db db' a h =
      let o = body (server.clock db.calls) (tick db) in
      let closed : close_transaction server db.tables o ≡ ok a db' = ground arith in
      let (last, ran, kept) = close_ok db.tables o a db' closed in
      record { last = last; ran = ran; kept = kept }

  close_raise_either :
      (before : T) (o : Outcome (Database T) A) (e : Exc) (db' : Database T)
      → close_transaction server before o ≡ raise e db'
      → (db'.tables ≡ before)
        ⊎ ((a : A) × (last : Database T) × (o ≡ ok a last)
            × (db'.tables ≡ last.tables)
            × (server.commit last.calls ≡ unknown e))
  close_raise_either before (ok b last) e db' h = either (server.commit last.calls) refl
    where
      either :
          (c : Commit)
          → server.commit last.calls ≡ c
          → (db'.tables ≡ before)
            ⊎ ((a : A) × (l : Database T) × (ok b last ≡ ok a l)
                × (db'.tables ≡ l.tables)
                × (server.commit l.calls ≡ unknown e))
      either committed q = absurd (ground arith)
      either (rejected x) q = inl (ground arith)
      either (unknown x) q = inr (b, last, refl, ground arith, ground arith)
  close_raise_either before (raise x last) e db' h = inl (ground arith)
  close_raise_either before out_of_fuel e db' h = absurd (cc)

  -- A transaction that raises has changed nothing, or it was committed and its acknowledgement lost.
  pub transaction_either :
      (body : ℕ → Eff (Database T) A) (db db' : Database T) (e : Exc)
      → transaction server body db ≡ raise e db'
      → (db'.tables ≡ db.tables)
        ⊎ ((a : A) × Committed body db a db'.tables × LostCommit body db a e)
  transaction_either body db db' e h = elim (Option-cases (server.connect db.calls)) [
    | inl up ↦
        elim (close_raise_either db.tables (body (server.clock db.calls) (tick db)) e db'
          (ground arith)) [
            | inl same ↦ inl same
            | inr (a, last, ran, kept, lost) ↦ inr (
              a,
              record { last = last; ran = ran; kept = kept },
              record { last = last; ran = ran; lost = lost },
            )
          ]
    | inr (x, down) ↦ inl (ground arith)
  ]

  -- A transaction that raises is rolled back.
  pub transaction_raise :
      (body : ℕ → Eff (Database T) A) (db db' : Database T) (e : Exc)
      → AnswersCommits server
      → transaction server body db ≡ raise e db'
      → db'.tables ≡ db.tables
  transaction_raise body db db' e known h =
      ground (arith, close_raise db.tables (body (server.clock db.calls) (tick db)) e db')
