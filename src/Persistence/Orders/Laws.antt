-- ===== src/Persistence/Orders/Laws.antt =====
-- The table of orders: its keys stay unique, a stored order is found again, and an update touches
-- one order only.
use trade_post.Base.{
  ℕ, ◌≡◌, refl, String, false, ◌||◌, none, some, List, [], ◌∷◌, ◌++◌, map, arith, eq_iff,
  if◌then◌else◌, any_of, find_first,
}
use mathlib.Core.Option
use trade_post.Domain.{Order, OrderStatus}
use trade_post.Persistence.{Database}
use trade_post.Persistence.Orders.{
  order_row, has_id, has_key, insert_order, Changes, updated_order, update_order_status,
  get_order_by_idempotency,
}

-- No two rows share an id, nor an idempotency key.
abbrev pub IsUnique : List Order → Type 0
IsUnique [] = Unit {0}
IsUnique (o ∷ os) =
    (any_of (has_id o.id) os ≡ false)
    × (any_of (has_key o.idempotency_key) os ≡ false)
    × IsUnique os

module _ (i k : String) (o : Order) where
  any_of_id-append :
      (os : List Order) → any_of (has_id i) (os ++ (o ∷ [])) ≡ (any_of (has_id i) os || has_id i o)
  unfolding any_of
  any_of_id-append [] = ground arith
  any_of_id-append (x ∷ os) = ground (arith, any_of_id-append os)

  any_of_key-append :
      (os : List Order)
      → any_of (has_key k) (os ++ (o ∷ [])) ≡ (any_of (has_key k) os || has_key k o)
  unfolding any_of
  any_of_key-append [] = ground arith
  any_of_key-append (x ∷ os) = ground (arith, any_of_key-append os)

IsUnique-append :
    (o : Order) (os : List Order)
    → any_of (has_id o.id) os ≡ false
    → any_of (has_key o.idempotency_key) os ≡ false
    → IsUnique os
    → IsUnique (os ++ (o ∷ []))
unfolding any_of
IsUnique-append o [] hi hk u = ground arith
IsUnique-append o (x ∷ os) hi hk u = ground (
  arith,
  IsUnique-append o os,
  any_of_id-append x.id x.idempotency_key o os,
  any_of_key-append x.id x.idempotency_key o os,
  eq_iff x.id o.id,
  eq_iff o.id x.id,
  eq_iff x.idempotency_key o.idempotency_key,
  eq_iff o.idempotency_key x.idempotency_key,
)

-- An insertion that the database accepts keeps ids and idempotency keys unique.
pub insert_order-IsUnique :
    (o : Order) (db : Database) {db' : Database}
    → IsUnique db.orders
    → insert_order o db ≡ some db'
    → IsUnique db'.orders
unfolding insert_order order_row
insert_order-IsUnique o db u h = ground (arith, IsUnique-append (order_row o) db.orders)

module _ (now : ℕ) (i : String) (s : OrderStatus) (c : Changes) where
  abbrev row_update : Order → Order
  row_update o = if has_id i o then updated_order now s c o else o

  any_of_id-update :
      (j : String) (os : List Order) → any_of (has_id j) (map row_update os) ≡ any_of (has_id j) os
  unfolding any_of updated_order
  any_of_id-update j [] = refl
  any_of_id-update j (o ∷ os) = ground (arith, any_of_id-update j os)

  any_of_key-update :
      (k : String) (os : List Order)
      → any_of (has_key k) (map row_update os) ≡ any_of (has_key k) os
  unfolding any_of updated_order
  any_of_key-update k [] = refl
  any_of_key-update k (o ∷ os) = ground (arith, any_of_key-update k os)

  update-IsUnique : (os : List Order) → IsUnique os → IsUnique (map row_update os)
  unfolding updated_order
  update-IsUnique [] u = tt
  update-IsUnique (o ∷ os) u = ground (
    arith,
    update-IsUnique os u.2,
    any_of_id-update o.id os,
    any_of_key-update o.idempotency_key os,
  )

  -- An update keeps ids and idempotency keys unique.
  pub update_order_status-IsUnique :
      (db : Database) → IsUnique db.orders → IsUnique (update_order_status now i s c db).orders
  unfolding update_order_status
  update_order_status-IsUnique db u = update-IsUnique db.orders u

  find_key-update :
      (k : String) (os : List Order)
      → find_first (has_key k) (map row_update os)
        ≡ Option.map row_update (find_first (has_key k) os)
  unfolding find_first updated_order
  find_key-update k [] = refl
  find_key-update k (o ∷ os) = ground (arith, find_key-update k os)

  -- The order behind an idempotency key after an update: the same one, changed if it has the id.
  pub get_by_key-update :
      (k : String) (db : Database)
      → get_order_by_idempotency k (update_order_status now i s c db)
        ≡ Option.map row_update (get_order_by_idempotency k db)
  unfolding get_order_by_idempotency update_order_status
  get_by_key-update k db = find_key-update k db.orders

find_key-append :
    (k : String) (o : Order) (os : List Order)
    → any_of (has_key k) os ≡ false
    → find_first (has_key k) (os ++ (o ∷ [])) ≡ (if has_key k o then some o else none)
unfolding any_of find_first
find_key-append k o [] h = ground arith
find_key-append k o (x ∷ os) h = ground (arith, find_key-append k o os)

-- An order that the database accepts is found by its idempotency key, as its row.
pub get_by_key-insert_order :
    (o : Order) (db : Database) {db' : Database}
    → insert_order o db ≡ some db'
    → get_order_by_idempotency o.idempotency_key db' ≡ some (order_row o)
unfolding insert_order get_order_by_idempotency order_row
get_by_key-insert_order o db h = ground (
  arith,
  find_key-append o.idempotency_key (order_row o) db.orders,
  eq_iff o.idempotency_key o.idempotency_key,
)
