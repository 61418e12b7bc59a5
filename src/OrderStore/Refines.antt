-- ===== src/OrderStore/Refines.antt =====
-- The order store implements the ledger.
use kafka_sqs.Base.{
  ℕ, ◌≡◌, refl, sym, ◌∙◌, ap, ◌⊎◌, inl, inr, Bool, true, false, not, none, some, List, [], ◌∷◌,
  arith, Bool-cases, ◌==◌, if◌then◌else◌,
}
use mathlib.Core.Path.{fun_ext, subst₂, ap₂}
use mathlib.Core.Option.{some-injective}
use kafka_sqs.Base.Lists.{All, any, select, find}
use kafka_sqs.Base.Select.{find-some_of_any}
use kafka_sqs.Base.Effect.{value}
use kafka_sqs.Contracts.Event.{Uuid, Decimal, OrderCreatedEvent}
use kafka_sqs.Postgres.{Server, Database}
use kafka_sqs.OrderStore.Rows.{
  Tables, OrderRow, ProcessedRow, has_id, has_source, is_completed, amount_column, complete_row,
  complete_rows, new_claim, new_order,
}
use kafka_sqs.OrderStore.{EventStoreResult}
use kafka_sqs.OrderStore.Effects.{
  StoreEffect, fresh, repeated, CompleteEffect, DiscardEffect, store_ok, mark_completed_ok,
  discard_ok, store_either, mark_completed_either, discard_either,
}
use kafka_sqs.OrderStore.Consistent.{
  RowsConsistent, Ran, stored, store_failed, marked, mark_failed, discarded, discard_failed,
}
use kafka_sqs.OrderStore.Ledger.{
  Ledger, order_of, enter, store_entry, complete_entry, discard_entry, entry_of, ledger_of, view,
}

module _ {ℓ} {A : Type ℓ} where
  find-none_of_any : (p : A → Bool) (xs : List A) → any p xs ≡ false → find p xs ≡ none
  find-none_of_any p [] h = refl
  find-none_of_any p (x ∷ xs) h = ground (arith, find-none_of_any p xs)

find-complete_rows :
    (now : ℕ) (id key : Uuid) (ps : List ProcessedRow)
    → find (has_id key) (complete_rows now id ps) ≡ elim (find (has_id key) ps) [
      | none ↦ none
      | some row ↦ some (if id == key then complete_row now row else row)
    ]
unfolding complete_rows
find-complete_rows now id key [] = refl
find-complete_rows now id key (row ∷ ps) = ground (arith, find-complete_rows now id key ps)

find-select_claims :
    (id key : Uuid) (ps : List ProcessedRow)
    → find (has_id key) (select (λ row. not (has_id id row)) ps)
      ≡ (if id == key then none else find (has_id key) ps)
find-select_claims id key [] = ground arith
find-select_claims id key (row ∷ ps) = ground (arith, find-select_claims id key ps)

find-select_orders :
    (id key : Uuid) (os : List OrderRow)
    → find (has_source key) (select (λ row. not (has_source id row)) os)
      ≡ (if id == key then none else find (has_source key) os)
find-select_orders id key [] = ground arith
find-select_orders id key (row ∷ os) = ground (arith, find-select_orders id key os)

-- A claimed event has an order.
has_order :
    (id : Uuid) (os : List OrderRow) (ps : List ProcessedRow) (row : ProcessedRow)
    → All (λ row. any (has_source row.event_id) os ≡ true) ps
    → find (has_id id) ps ≡ some row
    → any (has_source id) os ≡ true
has_order id os [] row h f = absurd (cc)
has_order id os (first ∷ ps) row h f = elim (Bool-cases (has_id id first)) [
  | inl own ↦ ground (arith, h.0)
  | inr other ↦ has_order id os ps row h.1 (ground arith)
]

module _ (os : List OrderRow) (ps : List ProcessedRow) (c : RowsConsistent os ps) where
  fresh-refines :
      (now : ℕ) (event : OrderCreatedEvent) (amount : Decimal)
      → any (has_id event.event_id) ps ≡ false
      → amount_column event.payload.amount ≡ value amount
      → store_entry event (ledger_of os ps)
        ≡ value (
          record { is_new = true; downstream_required = true },
          ledger_of
              (new_order now event amount ∷ os)
              (new_claim now event.event_id event.event_type ∷ ps),
        )
  fresh-refines now event amount new col =
      let absent : ledger_of os ps event.event_id ≡ none =
        ap (λ f. entry_of f (find (has_source event.event_id) os)) (find-none_of_any _ ps new) in
      ap₂ (enter event (ledger_of os ps)) absent col
      ∙ ap (λ (l : Ledger). value (record { is_new = true; downstream_required = true }, l))
          (fun_ext λ key. entered key (event.event_id == key))
    where
      entered :
          (key : Uuid) (b : Bool)
          → (if b
              then some (record { order = order_of event amount; done = false })
              else ledger_of os ps key)
            ≡ entry_of
                (if b
                  then some (new_claim now event.event_id event.event_type)
                  else find (has_id key) ps)
                (if b then some (new_order now event amount) else find (has_source key) os)
      entered key true = refl
      entered key false = refl

  repeated-refines :
      (event : OrderCreatedEvent) (row : ProcessedRow)
      → find (has_id event.event_id) ps ≡ some row
      → store_entry event (ledger_of os ps)
        ≡ value (
          record { is_new = false; downstream_required = not (is_completed row.status) },
          ledger_of os ps,
        )
  repeated-refines event row f =
      let (o, found) =
        find-some_of_any (has_source event.event_id) os
          (has_order event.event_id os ps row c.ordered f) in
      let present = ap₂ entry_of f found in
      ap (λ e. enter event (ledger_of os ps) e (amount_column event.payload.amount)) present

  complete-refines :
      (now : ℕ) (id : Uuid)
      → ledger_of os (complete_rows now id ps) ≡ complete_entry id (ledger_of os ps)
  complete-refines now id = fun_ext λ key. ground (arith, find-complete_rows now id key ps)

  discard-refines :
      (id : Uuid)
      → ledger_of
          (select (λ row. not (has_source id row)) os)
          (select (λ row. not (has_id id row)) ps)
        ≡ discard_entry id (ledger_of os ps)
  discard-refines id =
      fun_ext λ key. ground (arith, find-select_claims id key ps, find-select_orders id key os)

-- Both tables exist, and their rows are consistent.
abbrev pub IsReady : Tables → Type 0
IsReady t =
    (os : List OrderRow) × (ps : List ProcessedRow) × (t.orders ≡ some os)
    × (t.processed_events ≡ some ps)
    × RowsConsistent os ps

view-some :
    (t : Tables) (os : List OrderRow) (ps : List ProcessedRow)
    → t.orders ≡ some os
    → t.processed_events ≡ some ps
    → view t ≡ ledger_of os ps
view-some t os ps eo ep = rw (eo, ep) refl

rows_of_IsReady :
    (t : Tables) (os : List OrderRow) (ps : List ProcessedRow)
    → IsReady t
    → t.orders ≡ some os
    → t.processed_events ≡ some ps
    → RowsConsistent os ps
rows_of_IsReady t os ps (os', ps', eo', ep', c) eo ep =
    subst₂ RowsConsistent (some-injective _ _ (sym eo' ∙ eo)) (some-injective _ _ (sym ep' ∙ ep)) c

StoreEffect-refines :
    (now : ℕ) (event : OrderCreatedEvent) (t t' : Tables) (r : EventStoreResult)
    → StoreEffect now event t r t'
    → IsReady t
    → store_entry event (view t) ≡ value (r, view t')
StoreEffect-refines now event t t' r (fresh os ps amount eo ep new uo us clean col er e) ready =
    ap (store_entry event) (view-some t os ps eo ep)
    ∙ fresh-refines os ps (rows_of_IsReady t os ps ready eo ep) now event amount new col
    ∙ ap₂ (λ (res : EventStoreResult) (l : Ledger). value (res, l)) (sym er) (sym (ap view e))
StoreEffect-refines now event t t' r (repeated ps row ep f er e) (os, ps', eo, ep', c) =
    let kept = rows_of_IsReady t os ps (os, ps', eo, ep', c) eo ep in
    ap (store_entry event) (view-some t os ps eo ep)
    ∙ repeated-refines os ps kept event row f
    ∙ ap₂ (λ (res : EventStoreResult) (l : Ledger). value (res, l)) (sym er)
        (sym (ap view e ∙ view-some t os ps eo ep))

CompleteEffect-refines :
    (now : ℕ) (id : Uuid) (t t' : Tables)
    → CompleteEffect now id t t'
    → IsReady t
    → view t' ≡ complete_entry id (view t)
CompleteEffect-refines now id t t' (ps, ep, one, e) (os, ps', eo, ep', c) =
    let kept = rows_of_IsReady t os ps (os, ps', eo, ep', c) eo ep in
    ap view e
    ∙ view-some (record t { processed_events = some (complete_rows now id ps) }) os
        (complete_rows now id ps) eo refl
    ∙ complete-refines os ps kept now id
    ∙ ap (complete_entry id) (sym (view-some t os ps eo ep))

DiscardEffect-refines :
    (id : Uuid) (t t' : Tables)
    → DiscardEffect id t t'
    → IsReady t
    → view t' ≡ discard_entry id (view t)
DiscardEffect-refines id t t' (os, ps, eo, ep, e) ready =
    ap view e
    ∙ discard-refines os ps (rows_of_IsReady t os ps ready eo ep) id
    ∙ ap (discard_entry id) (sym (view-some t os ps eo ep))

module _ {server : Server} {db db' : Database Tables} where
  -- What a call does to the ledger: one that returns takes its whole effect there and returns what
  -- the ledger says, and one that raises takes its whole effect or none.
  abbrev pub Follows : Ran server db db' → Type 0
  Follows (stored event r h) = store_entry event (view db.tables) ≡ value (r, view db'.tables)
  Follows (store_failed event e h) =
      (view db'.tables ≡ view db.tables)
      ⊎ ((r : EventStoreResult) × (store_entry event (view db.tables) ≡ value (r, view db'.tables)))
  Follows (marked id h) = view db'.tables ≡ complete_entry id (view db.tables)
  Follows (mark_failed id e h) =
      (view db'.tables ≡ view db.tables) ⊎ (view db'.tables ≡ complete_entry id (view db.tables))
  Follows (discarded id h) = view db'.tables ≡ discard_entry id (view db.tables)
  Follows (discard_failed id e h) =
      (view db'.tables ≡ view db.tables) ⊎ (view db'.tables ≡ discard_entry id (view db.tables))

  -- On existing, consistent tables, every call of store, mark_completed and discard follows the
  -- ledger, which knows for each event its order and whether its work is done: a call that returns
  -- takes its whole effect there, and store returns what the ledger says; a call that raises, at
  -- whatever failure of the server, takes its whole effect or none.
  pub Ran-Follows : (ran : Ran server db db') → IsReady db.tables → Follows ran
  Ran-Follows (stored event r h) ready =
      StoreEffect-refines _ event _ _ r (store_ok server event db db' r h) ready
  Ran-Follows (store_failed event e h) ready = elim (store_either server db db' e event h) [
    | inl same ↦ inl (ap view same)
    | inr (r, f, lost) ↦ inr (r, StoreEffect-refines _ event _ _ r f ready)
  ]
  Ran-Follows (marked id h) ready =
      CompleteEffect-refines _ id _ _ (mark_completed_ok server id db db' h) ready
  Ran-Follows (mark_failed id e h) ready = elim (mark_completed_either server db db' e id h) [
    | inl same ↦ inl (ap view same)
    | inr f ↦ inr (CompleteEffect-refines _ id _ _ f ready)
  ]
  Ran-Follows (discarded id h) ready =
      DiscardEffect-refines id _ _ (discard_ok server id db db' h) ready
  Ran-Follows (discard_failed id e h) ready = elim (discard_either server db db' e id h) [
    | inl same ↦ inl (ap view same)
    | inr f ↦ inr (DiscardEffect-refines id _ _ f ready)
  ]
