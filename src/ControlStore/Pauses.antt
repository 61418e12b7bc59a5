-- ===== src/ControlStore/Pauses.antt =====
-- A pause control reads as it was set.
use kafka_sqs.Base.{
  ℕ, ◌+◌, String, ◌≡◌, refl, inl, inr, Bool, some, List, [], ◌∷◌, arith, Bool-cases, Option-cases,
}
use mathlib.Core.Path.{◌∙◌}
use kafka_sqs.Base.Lists.{length, select, find}
use kafka_sqs.Base.Effect.{value, ok, lift, continue-eq-ok, lift-eq-ok}
use kafka_sqs.Postgres.{Server, Database}
use kafka_sqs.Postgres.Transaction.{IsHealthy, transaction_ok}
use kafka_sqs.ControlStore.{
  ControlRow, Controls, has_broker, validate_broker, update_rows, set_block, set_paused, is_paused,
}

-- The first row of the broker after an update is paused as told.
find-update_rows :
    (now : ℕ) (paused : Bool) (broker : String) (rows : List ControlRow)
    → length (select (has_broker broker) rows) ≡ 1
    → (row : ControlRow) × (find (has_broker broker) (update_rows now paused broker rows)
        ≡ some row)
      × (row.paused ≡ paused)
unfolding update_rows
find-update_rows now paused broker [] h = absurd (ground arith)
find-update_rows now paused broker (row ∷ rows) h = elim (Bool-cases (has_broker broker row)) [
  | inl own ↦ (record row { paused = paused; updated_at = now }, ground arith, refl)
  | inr other ↦
      let (found, first, set) = find-update_rows now paused broker rows (ground arith) in
      (found, ground arith, set)
]

-- A healthy server reads the row.
is_paused_found :
    (server : Server) (broker : String) (db : Database Controls) (rows : List ControlRow)
    (row : ControlRow)
    → IsHealthy server
    → validate_broker broker ≡ value tt
    → db.tables ≡ some rows
    → find (has_broker broker) rows ≡ some row
    → is_paused server broker db
      ≡ ok row.paused (record { tables = db.tables; calls = db.calls + 1 + 1 + 1 })
unfolding is_paused
is_paused_found server broker db rows row healthy valid e f = ground (
  arith,
  healthy.connects db.calls,
  healthy.runs (db.calls + 1),
  healthy.commits (db.calls + 1 + 1),
)

module _ (server : Server) (broker : String) (paused : Bool) where
  set_block_lem :
      (now : ℕ) (db last : Database Controls)
      → set_block server broker paused now db ≡ ok tt last
      → (rows : List ControlRow) × (length (select (has_broker broker) rows) ≡ 1)
        × (last.tables ≡ some (update_rows now paused broker rows))
  set_block_lem now db last h = elim (Option-cases db.tables) [
    | inl e ↦ absurd (ground arith)
    | inr (rows, e) ↦ (rows, ground arith, ground arith)
  ]

  -- After a set_paused that returned, is_paused of that broker at a healthy server returns what was
  -- set, and changes no row.
  pub is_paused-set_paused :
      (db db' : Database Controls)
      → IsHealthy server
      → set_paused server broker paused db ≡ ok tt db'
      → (db'' : Database Controls) × (is_paused server broker db' ≡ ok paused db'')
        × (db''.tables ≡ db'.tables)
  unfolding set_paused is_paused
  is_paused-set_paused db db' healthy h =
      let (u, v, checked, h1) = continue-eq-ok (lift (validate_broker broker) db) _ h in
      let (valid, same) = lift-eq-ok (validate_broker broker) checked in
      let c = transaction_ok server (set_block server broker paused) v db' tt h1 in
      let (rows, one, kept) = set_block_lem _ _ c.last c.ran in
      let (row, found, set) = find-update_rows (server.clock v.calls) paused broker rows one in
      let read = is_paused_found server broker db' _ row healthy valid (c.kept ∙ kept) found in
      (record { tables = db'.tables; calls = db'.calls + 1 + 1 + 1 }, rw set at read, refl)
