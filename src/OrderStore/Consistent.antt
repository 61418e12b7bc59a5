-- ===== src/OrderStore/Consistent.antt =====
-- The invariant of the two tables, and that every operation and every failure keeps it.
use kafka_sqs.Base.{
  ℕ, zero, suc, ◌≡◌, refl, ◌∙◌, inl, inr, Bool, true, false, not, some, List, [], ◌∷◌, arith,
}
use mathlib.Core.Path.{subst, subst₂}
use mathlib.Core.Option.{some-injective}
use kafka_sqs.Base.Int.{ℤ, pos, negsuc}
use kafka_sqs.Base.Lists.{All, any, select}
use kafka_sqs.Base.Select.{All-mono, All-select, any-select, Distinct, Distinct-select}
use kafka_sqs.Base.Effect.{Exc, value, ok, raise}
use kafka_sqs.Contracts.Event.{Uuid, Decimal, OrderCreatedEvent}
use kafka_sqs.Postgres.{Server, Database}
use kafka_sqs.OrderStore.Rows.{
  Tables, OrderRow, ProcessedRow, has_id, has_order_id, has_source, amount_column, positive_numeric,
  hundredths, new_claim, new_order, complete_rows,
}
use kafka_sqs.OrderStore.{EventStoreResult, store, mark_completed, discard}
use kafka_sqs.OrderStore.Effects.{
  StoreEffect, fresh, repeated, CompleteEffect, DiscardEffect, store_ok, mark_completed_ok,
  discard_ok, store_either, mark_completed_either, discard_either,
}

abbrev pub same_event : ProcessedRow → ProcessedRow → Bool
same_event row = has_id row.event_id

abbrev pub same_order : OrderRow → OrderRow → Bool
same_order row = has_order_id row.order_id

abbrev pub same_source : OrderRow → OrderRow → Bool
same_source row = has_source row.source_event_id

-- A stored amount: a positive number of hundredths.
abbrev pub IsPositive : Decimal → Type 0
IsPositive d = (n : ℕ) × (d ≡ record { digits = pos (suc n); places = 2 })

pub record RowsConsistent (os : List OrderRow) (ps : List ProcessedRow) : Type 0 where
  pub one_claim : Distinct same_event ps
  pub one_order : Distinct same_order os
  pub one_source : Distinct same_source os
  pub positive : All (λ row. IsPositive row.amount) os
  pub claimed : All (λ row. any (has_id row.source_event_id) ps ≡ true) os
  pub ordered : All (λ row. any (has_source row.event_id) os ≡ true) ps

-- The tables, where both exist: each event is claimed once and each order and each source event is
-- stored once, an event is claimed exactly if it has an order, and amounts are positive.
pub record IsConsistent (t : Tables) : Type 0 where
  pub rows :
      (os : List OrderRow) (ps : List ProcessedRow)
      → t.orders ≡ some os
      → t.processed_events ≡ some ps
      → RowsConsistent os ps

module _ (now : ℕ) (id : Uuid) where
  any-complete_rows :
      (key : Uuid) (ps : List ProcessedRow)
      → any (has_id key) (complete_rows now id ps) ≡ any (has_id key) ps
  unfolding complete_rows
  any-complete_rows key [] = refl
  any-complete_rows key (row ∷ ps) = ground (arith, any-complete_rows key ps)

  Distinct-complete_rows :
      (ps : List ProcessedRow)
      → Distinct same_event ps
      → Distinct same_event (complete_rows now id ps)
  unfolding complete_rows
  Distinct-complete_rows [] h = tt
  Distinct-complete_rows (row ∷ ps) h =
      ground (arith, any-complete_rows row.event_id ps, Distinct-complete_rows ps h.1)

  All-complete_rows :
      (os : List OrderRow) (ps : List ProcessedRow)
      → All (λ row. any (has_source row.event_id) os ≡ true) ps
      → All (λ row. any (has_source row.event_id) os ≡ true) (complete_rows now id ps)
  unfolding complete_rows
  All-complete_rows os [] h = tt
  All-complete_rows os (row ∷ ps) h = ground (arith, All-complete_rows os ps h.1)

  complete_rows-RowsConsistent :
      (os : List OrderRow) (ps : List ProcessedRow)
      → RowsConsistent os ps
      → RowsConsistent os (complete_rows now id ps)
  complete_rows-RowsConsistent os ps c = record {
    one_claim = Distinct-complete_rows ps c.one_claim;
    one_order = c.one_order;
    one_source = c.one_source;
    positive = c.positive;
    claimed = All-mono os (λ row h. any-complete_rows row.source_event_id ps ∙ h) c.claimed;
    ordered = All-complete_rows os ps c.ordered;
  }

positive_numeric-IsPositive :
    (cents : ℕ) (amount : Decimal) → positive_numeric cents ≡ value amount → IsPositive amount
positive_numeric-IsPositive zero amount h = absurd (ground arith)
positive_numeric-IsPositive (suc n) amount h = (n, ground arith)

amount_digits-IsPositive :
    (z : ℤ) (places : ℕ) (amount : Decimal)
    → amount_column (record { digits = z; places = places }) ≡ value amount
    → IsPositive amount
unfolding amount_column
amount_digits-IsPositive (pos n) places amount h =
    positive_numeric-IsPositive (hundredths n places) amount h
amount_digits-IsPositive (negsuc n) places amount h = absurd (ground arith)

pub amount_column-IsPositive :
    (d amount : Decimal) → amount_column d ≡ value amount → IsPositive amount
amount_column-IsPositive d amount h = amount_digits-IsPositive d.digits d.places amount h

insert-RowsConsistent :
    (now : ℕ) (event : OrderCreatedEvent) (amount : Decimal) (os : List OrderRow)
    (ps : List ProcessedRow)
    → RowsConsistent os ps
    → any (has_id event.event_id) ps ≡ false
    → any (has_order_id event.payload.order_id) os ≡ false
    → any (has_source event.event_id) os ≡ false
    → IsPositive amount
    → RowsConsistent
        (new_order now event amount ∷ os)
        (new_claim now event.event_id event.event_type ∷ ps)
insert-RowsConsistent now event amount os ps c new no_order no_source p = record {
  one_claim = (new, c.one_claim);
  one_order = (no_order, c.one_order);
  one_source = (no_source, c.one_source);
  positive = (p, c.positive);
  claimed = (ground arith, All-mono os (λ row h. ground arith) c.claimed);
  ordered = (ground arith, All-mono ps (λ row h. ground arith) c.ordered);
}

discard-RowsConsistent :
    (id : Uuid) (os : List OrderRow) (ps : List ProcessedRow)
    → RowsConsistent os ps
    → RowsConsistent
        (select (λ row. not (has_source id row)) os)
        (select (λ row. not (has_id id row)) ps)
discard-RowsConsistent id os ps c = record {
  one_claim = Distinct-select _ _ ps c.one_claim;
  one_order = Distinct-select _ _ os c.one_order;
  one_source = Distinct-select _ _ os c.one_source;
  positive = All-select _ os (λ row _ h. h) c.positive;
  claimed = All-select _ os (λ row kept h. any-select _ _ ps (λ x. ground arith) ∙ h) c.claimed;
  ordered = All-select _ ps (λ row kept h. any-select _ _ os (λ x. ground arith) ∙ h) c.ordered;
}

pub IsConsistent-some :
    (os : List OrderRow) (ps : List ProcessedRow)
    → RowsConsistent os ps
    → IsConsistent (record { orders = some os; processed_events = some ps })
IsConsistent-some os ps c = record {
  rows = λ os' ps' fo fp. subst₂ RowsConsistent (some-injective _ _ fo) (some-injective _ _ fp) c;
}

StoreEffect-IsConsistent :
    (now : ℕ) (event : OrderCreatedEvent) (t t' : Tables) (r : EventStoreResult)
    → StoreEffect now event t r t'
    → IsConsistent t
    → IsConsistent t'
StoreEffect-IsConsistent now event t t' r (fresh os ps amount eo ep new uo us clean col er e) c =
    let positive = amount_column-IsPositive event.payload.amount amount col in
    let kept =
      insert-RowsConsistent now event amount os ps (c.rows os ps eo ep) new uo us positive in
    rw e (IsConsistent-some _ _ kept)
StoreEffect-IsConsistent now event t t' r (repeated ps row ep f er e) c = rw e c

CompleteEffect-IsConsistent :
    (now : ℕ) (id : Uuid) (t t' : Tables)
    → CompleteEffect now id t t'
    → IsConsistent t
    → IsConsistent t'
CompleteEffect-IsConsistent now id t t' (ps, ep, one, e) c = rw e (record {
  rows = λ os ps' fo fp.
      subst (RowsConsistent os) (some-injective _ _ fp)
        (complete_rows-RowsConsistent now id os ps (c.rows os ps fo ep));
})

DiscardEffect-IsConsistent :
    (id : Uuid) (t t' : Tables) → DiscardEffect id t t' → IsConsistent t → IsConsistent t'
DiscardEffect-IsConsistent id t t' (os, ps, eo, ep, e) c =
    rw e (IsConsistent-some _ _ (discard-RowsConsistent id os ps (c.rows os ps eo ep)))

-- One call of a method that changes rows, whether it returns or raises.
pub data Ran (server : Server) (db db' : Database Tables) : Type 0 where
  stored :
      (event : OrderCreatedEvent) (r : EventStoreResult)
      → store server event db ≡ ok r db'
      → Ran server db db'
  store_failed :
      (event : OrderCreatedEvent) (e : Exc)
      → store server event db ≡ raise e db'
      → Ran server db db'
  marked : (id : Uuid) → mark_completed server id db ≡ ok tt db' → Ran server db db'
  mark_failed :
      (id : Uuid) (e : Exc) → mark_completed server id db ≡ raise e db' → Ran server db db'
  discarded : (id : Uuid) → discard server id db ≡ ok tt db' → Ran server db db'
  discard_failed : (id : Uuid) (e : Exc) → discard server id db ≡ raise e db' → Ran server db db'

-- Any number of calls, one after another.
pub data History (server : Server) (db : Database Tables) : Database Tables → Type 0 where
  start : History server db db
  next :
      {db1 db2 : Database Tables}
      → History server db db1
      → Ran server db1 db2
      → History server db db2

module _ (server : Server) where
  pub Ran-IsConsistent :
      (db db' : Database Tables)
      → Ran server db db'
      → IsConsistent db.tables
      → IsConsistent db'.tables
  Ran-IsConsistent db db' (stored event r h) c =
      StoreEffect-IsConsistent _ event _ _ r (store_ok server event db db' r h) c
  Ran-IsConsistent db db' (store_failed event e h) c = elim (store_either server db db' e event h) [
    | inl same ↦ rw same c
    | inr (r, f, lost) ↦ StoreEffect-IsConsistent _ event _ _ r f c
  ]
  Ran-IsConsistent db db' (marked id h) c =
      CompleteEffect-IsConsistent _ id _ _ (mark_completed_ok server id db db' h) c
  Ran-IsConsistent db db' (mark_failed id e h) c =
      elim (mark_completed_either server db db' e id h) [
        | inl same ↦ rw same c
        | inr f ↦ CompleteEffect-IsConsistent _ id _ _ f c
      ]
  Ran-IsConsistent db db' (discarded id h) c =
      DiscardEffect-IsConsistent id _ _ (discard_ok server id db db' h) c
  Ran-IsConsistent db db' (discard_failed id e h) c = elim (discard_either server db db' e id h) [
    | inl same ↦ rw same c
    | inr f ↦ DiscardEffect-IsConsistent id _ _ f c
  ]

  -- Whatever calls are made in whatever order, and wherever the server fails, consistent tables stay
  -- consistent.
  pub History-IsConsistent :
      {db db' : Database Tables}
      → History server db db'
      → IsConsistent db.tables
      → IsConsistent db'.tables
  History-IsConsistent start c = c
  History-IsConsistent (next h r) c = Ran-IsConsistent _ _ r (History-IsConsistent h c)
