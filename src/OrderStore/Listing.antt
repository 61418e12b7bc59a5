-- ===== src/OrderStore/Listing.antt =====
-- The order of list_orders.
use kafka_sqs.Base.{◌≡◌, ◌∙◌, inl, inr, false, some, List, map, arith, Option-cases}
use mathlib.Core.List.{Perm}
use kafka_sqs.Base.Int.{ℤ, pos, leb_ℤ, pos_part}
use kafka_sqs.Base.Lists.{take}
use kafka_sqs.Base.Sort.{IsSorted, sort_by-perm, sort_by-IsSorted, leb_by_desc-IsOrder}
use kafka_sqs.Base.Effect.{ok, guarded_ok}
use kafka_sqs.Postgres.{Server, Database, execute, tick}
use kafka_sqs.Postgres.Transaction.{transaction_ok}
use kafka_sqs.OrderStore.Rows.{Tables, OrderRow, StoredOrder}
use kafka_sqs.OrderStore.{newer, newest_first, query_orders, list_orders}

module _ (server : Server) where
  query_orders_lem :
      {A : Type 0} (f : List OrderRow → A) (db last : Database Tables) (a : A)
      → execute server (query_orders f) db ≡ ok a last
      → (os : List OrderRow) × (db.tables.orders ≡ some os) × (a ≡ f os) × (last.tables ≡ db.tables)
  query_orders_lem f db last a h = elim (Option-cases db.tables.orders) [
    | inl e ↦ absurd (ground arith)
    | inr (os, e) ↦ (os, e, ground arith, ground arith)
  ]

  -- A list_orders that returns was given a positive limit, changes no row, and returns the first
  -- `limit` of the rows of the table in an order in which the creation times do not rise.
  pub list_orders_ok :
      (limit : ℤ) (db db' : Database Tables) (l : List StoredOrder)
      → list_orders server limit db ≡ ok l db'
      → (leb_ℤ limit (pos 0) ≡ false)
        × (db'.tables ≡ db.tables)
        × ((os : List OrderRow) × (sorted : List OrderRow) × (db.tables.orders ≡ some os)
            × Perm sorted os
            × IsSorted newer sorted
            × (l ≡ map (λ row. row.order) (take (pos_part limit) sorted)))
  unfolding list_orders newest_first
  list_orders_ok limit db db' l h =
      let (positive, h1) = guarded_ok (leb_ℤ limit (pos 0)) _ _ h in
      let show = λ (rows : List OrderRow).
        map (λ row. row.order) (take (pos_part limit) (newest_first rows)) in
      let c = transaction_ok server (λ now. execute server (query_orders show)) db db' l h1 in
      let (os, e, shown, same) = query_orders_lem show (tick db) c.last l c.ran in
      (
        positive,
        c.kept ∙ same,
        (
          os,
          newest_first os,
          e,
          sort_by-perm newer os,
          sort_by-IsSorted newer (leb_by_desc-IsOrder (λ row. row.created_at)) os,
          shown,
        ),
      )
