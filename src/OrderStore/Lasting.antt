-- ===== src/OrderStore/Lasting.antt =====
-- A completed event stays completed, whatever calls of any worker come after, if none discards it.
use kafka_sqs.Base.{
  ℕ, ◌≡◌, refl, inl, inr, true, false, not, some, List, [], ◌∷◌, ◌==◌, ==_iff, arith, Bool-cases,
}
use kafka_sqs.Base.Lists.{any, select, find}
use kafka_sqs.Base.Select.{any_of_find}
use kafka_sqs.Contracts.Event.{Uuid, OrderCreatedEvent}
use kafka_sqs.Postgres.{Server, Database}
use kafka_sqs.OrderStore.Rows.{
  Tables, ProcessedRow, is_completed, has_id, new_claim, complete_row, complete_rows,
}
use kafka_sqs.OrderStore.{EventStoreResult}
use kafka_sqs.OrderStore.Effects.{
  StoreEffect, fresh, repeated, CompleteEffect, DiscardEffect, store_ok, mark_completed_ok,
  discard_ok, store_either, mark_completed_either, discard_either,
}
use kafka_sqs.OrderStore.Idempotent.{Claims}
use kafka_sqs.OrderStore.Consistent.{
  Ran, stored, store_failed, marked, mark_failed, discarded, discard_failed,
}

-- The call is no discard of the event.
abbrev pub Spares : {server : Server} {db db' : Database Tables} → Uuid → Ran server db db' → Type 0
Spares id (discarded other h) = (other == id) ≡ false
Spares id (discard_failed other e h) = (other == id) ≡ false
Spares id _ = Unit {0}

-- Any number of calls that spare the event, by any workers at any servers.
pub data Passes (id : Uuid) (t : Tables) : Tables → Type 0 where
  same : Passes id t t
  then_ran :
      {t1 : Tables} (server : Server) (db db' : Database Tables)
      → Passes id t t1
      → db.tables ≡ t1
      → (ran : Ran server db db') → Spares id ran
      → Passes id t db'.tables

-- The first row of the event among the rows is completed.
abbrev Completed : Uuid → List ProcessedRow → Type 0
Completed id ps =
    (row : ProcessedRow) × (find (has_id id) ps ≡ some row)
    × (not (is_completed row.status) ≡ false)

module _ (id : Uuid) where
  Completed-new_claim :
      (now : ℕ) (event : OrderCreatedEvent) (ps : List ProcessedRow)
      → any (has_id event.event_id) ps ≡ false
      → Completed id ps
      → Completed id (new_claim now event.event_id event.event_type ∷ ps)
  Completed-new_claim now event ps new (row, f, done) = elim (Bool-cases (event.event_id == id)) [
    | inl own ↦
        let e : event.event_id ≡ id = (==_iff event.event_id id).0 own in
        let found : any (has_id event.event_id) ps ≡ true = rw e (any_of_find (has_id id) ps f) in
        absurd (ground arith)
    | inr other ↦ (row, ground arith, done)
  ]

  Completed-complete_rows :
      (now : ℕ) (other : Uuid) (ps : List ProcessedRow)
      → Completed id ps
      → Completed id (complete_rows now other ps)
  unfolding complete_rows
  Completed-complete_rows now other [] (row, f, done) = absurd (cc)
  Completed-complete_rows now other (p ∷ ps) (row, f, done) = elim (Bool-cases (has_id id p)) [
    | inl own ↦ elim (Bool-cases (has_id other p)) [
      | inl touched ↦ (complete_row now p, ground arith, refl)
      | inr left ↦ (row, ground arith, done)
    ]
    | inr below ↦
        let (found, g, still) = Completed-complete_rows now other ps (row, ground arith, done) in
        (found, ground arith, still)
  ]

  Completed-select :
      (other : Uuid) (ps : List ProcessedRow)
      → (other == id) ≡ false
      → Completed id ps
      → Completed id (select (λ row. not (has_id other row)) ps)
  Completed-select other [] apart (row, f, done) = absurd (cc)
  Completed-select other (p ∷ ps) apart (row, f, done) = elim (Bool-cases (has_id id p)) [
    | inl own ↦ (row, ground arith, done)
    | inr below ↦
        let (found, g, still) = Completed-select other ps apart (row, ground arith, done) in
        (found, ground arith, still)
  ]

  abbrev pub Lasts : Tables → Tables → Type 0
  Lasts t t' = Claims id false t → Claims id false t'

  StoreEffect-Lasts :
      (now : ℕ) (event : OrderCreatedEvent) (t t' : Tables) (r : EventStoreResult)
      → StoreEffect now event t r t'
      → Lasts t t'
  StoreEffect-Lasts now event t t' r (fresh os ps amount eo ep new uo us clean col er e)
        (qs, row, eq, f, done) =
      let same_rows : qs ≡ ps = ground arith in
      let (found, g, still) = Completed-new_claim now event ps new (row, rw same_rows at f, done) in
      (new_claim now event.event_id event.event_type ∷ ps, found, ground arith, g, still)
  StoreEffect-Lasts now event t t' r (repeated ps row ep f er e) c = rw e c

  CompleteEffect-Lasts :
      (now : ℕ) (other : Uuid) (t t' : Tables) → CompleteEffect now other t t' → Lasts t t'
  CompleteEffect-Lasts now other t t' (ps, ep, one, e) (qs, row, eq, f, done) =
      let same_rows : qs ≡ ps = ground arith in
      let (found, g, still) = Completed-complete_rows now other ps (row, rw same_rows at f, done) in
      (complete_rows now other ps, found, ground arith, g, still)

  DiscardEffect-Lasts :
      (other : Uuid) (t t' : Tables) → (other == id) ≡ false → DiscardEffect other t t' → Lasts t t'
  DiscardEffect-Lasts other t t' apart (os, ps, eo, ep, e) (qs, row, eq, f, done) =
      let same_rows : qs ≡ ps = ground arith in
      let (found, g, still) = Completed-select other ps apart (row, rw same_rows at f, done) in
      (select (λ x. not (has_id other x)) ps, found, ground arith, g, still)

  pub Ran-Lasts :
      (server : Server) (db db' : Database Tables) (ran : Ran server db db')
      → Spares id ran
      → Lasts db.tables db'.tables
  Ran-Lasts server db db' (stored event r h) spares c =
      StoreEffect-Lasts _ event _ _ r (store_ok server event db db' r h) c
  Ran-Lasts server db db' (store_failed event e h) spares c =
      elim (store_either server db db' e event h) [
        | inl unchanged ↦ rw unchanged c
        | inr (r, f, lost) ↦ StoreEffect-Lasts _ event _ _ r f c
      ]
  Ran-Lasts server db db' (marked other h) spares c =
      CompleteEffect-Lasts _ other _ _ (mark_completed_ok server other db db' h) c
  Ran-Lasts server db db' (mark_failed other e h) spares c =
      elim (mark_completed_either server db db' e other h) [
        | inl unchanged ↦ rw unchanged c
        | inr f ↦ CompleteEffect-Lasts _ other _ _ f c
      ]
  Ran-Lasts server db db' (discarded other h) spares c =
      DiscardEffect-Lasts other _ _ spares (discard_ok server other db db' h) c
  Ran-Lasts server db db' (discard_failed other e h) spares c =
      elim (discard_either server db db' e other h) [
        | inl unchanged ↦ rw unchanged c
        | inr f ↦ DiscardEffect-Lasts other _ _ spares f c
      ]

  pub Passes-Claims : {t t' : Tables} → Passes id t t' → Claims id false t → Claims id false t'
  Passes-Claims same c = c
  Passes-Claims (then_ran server db db' passes found ran spares) c =
      Ran-Lasts server db db' ran spares (rw found (Passes-Claims passes c))
