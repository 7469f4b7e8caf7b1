-- ===== src/Execution/Submit/Idempotency.antt =====
-- `ExecutionEngine.submit` and the idempotency key of an intent.
use trade_post.Base.{
  ℕ, ◌≡◌, ◌⊎◌, refl, ◌∙◌, ap, String, Bool, true, not, ◌&&◌, Option, none, some, arith,
  Option-cases, Bool-cases, inl, inr, is_some, find_first, List, [], ◌∷◌, eq_iff,
}
use trade_post.Domain.{Fill, Order, OrderIntent, OrderStatus, MarketSnapshot}
use trade_post.Decimal.{Decimal, less, nought}
use trade_post.Execution.{Execution, is_simulated}
use trade_post.Execution.Submit.{
  Placed, accepted, refused, returned, Env, new_order, fill_of, give_up, settle, place, place_live,
  price_and_place, submit_new, submit,
}
use trade_post.Market.Service.{Fetched, snapshot, exchange_error, other_error}
use trade_post.Floats.{Floats}
use trade_post.Persistence.{Database}
use trade_post.Persistence.Orders.{
  insert_order, update_order_status, get_order_by_idempotency, insert_fill, Changes, has_key,
}
use trade_post.Persistence.Orders.Laws.{
  IsUnique, get_by_key-update, get_by_key-insert_order, insert_order-IsUnique,
  update_order_status-IsUnique,
}
use trade_post.Risk.{Engine, persist, record_failure, record_success}

-- The orders are unique, and one of them has the key.
pub record Holds (k : String) (db : Database) : Type 0 where
  pub unique : IsUnique db.orders
  pub known : is_some (get_order_by_idempotency k db) ≡ true

Holds-same : (k : String) (db db' : Database) → db'.orders ≡ db.orders → Holds k db → Holds k db'
unfolding get_order_by_idempotency
Holds-same k db db' e h = record {
  unique = rw e h.unique;
  known = ap (λ os. is_some (find_first (has_key k) os)) e ∙ h.known;
}

Holds-update :
    (k : String) (now : ℕ) (i : String) (s : OrderStatus) (c : Changes) (db : Database)
    → Holds k db
    → Holds k (update_order_status now i s c db)
Holds-update k now i s c db h = record {
  unique = update_order_status-IsUnique now i s c db h.unique;
  known = ground (arith, h, get_by_key-update now i s c k db);
}

insert-Holds :
    (o : Order) (db : Database) {db' : Database}
    → IsUnique db.orders
    → insert_order o db ≡ some db'
    → Holds o.idempotency_key db'
insert-Holds o db u e = record {
  unique = insert_order-IsUnique o db u e;
  known = ap is_some (get_by_key-insert_order o db e);
}

pub insert_fill-orders :
    (f : Fill) (db : Database) {db' : Database}
    → insert_fill f db ≡ some db'
    → db'.orders ≡ db.orders
unfolding insert_fill
insert_fill-orders f db h = ground arith

find_first-key :
    (k : String) (os : List Order) (o : Order)
    → find_first (has_key k) os ≡ some o
    → o.idempotency_key ≡ k
unfolding find_first
find_first-key k [] o e = absurd (ground arith)
find_first-key k (x ∷ os) o e = ground (arith, eq_iff x.idempotency_key k, find_first-key k os o)

has_key_found :
    (k : String) (db : Database) (o : Order)
    → get_order_by_idempotency k db ≡ some o
    → o.idempotency_key ≡ k
unfolding get_order_by_idempotency
has_key_found k db o e = find_first-key k db.orders o e

module _ {F : Type 0} ⦃fl : Floats F⦄ (up : ℕ → Bool) where
  persist-orders : (e : Engine F) → (persist up e).db.orders ≡ e.db.orders
  unfolding persist
  persist-orders e = ground arith

  pub record_failure-orders :
      (now : ℕ) (e : Engine F) → (record_failure up now e).db.orders ≡ e.db.orders
  unfolding record_failure
  record_failure-orders now e = persist-orders _

  pub record_success-orders :
      (now : ℕ) (e : Engine F) → (record_success up now e).db.orders ≡ e.db.orders
  unfolding record_success
  record_success-orders now e = persist-orders _

  give_up-Holds :
      (k : String) (env : Env F) (why : String) (o : Order) (x : Execution F)
      → Holds k x.risk.db
      → Holds k (give_up up env why o x).1.risk.db
  unfolding give_up
  give_up-Holds k env why o x h =
      Holds-same k _ _ (record_failure-orders env.noted _) (Holds-update k env.stamped o.id _ _ _ h)

  settle-Holds :
      (k : String) (env : Env F) (ex_id : String) (price : Decimal) (o : Order) (x : Execution F)
      → Holds k x.risk.db
      → Holds k (settle up env ex_id price o x).1.risk.db
  unfolding settle
  settle-Holds k env ex_id price o x h =
      elim (Bool-cases (not (less nought o.quantity && less nought price))) [
        | inl bad ↦ rw (bad, settle) h
        | inr good ↦ elim (Option-cases (insert_fill (fill_of env ex_id price o) x.risk.db)) [
          | inl twice ↦ rw (good, twice, settle) h
          | inr (db, e) ↦
              rw (good, e, settle)
                (Holds-same k _ _ (record_success-orders env.noted _) (
                  Holds-update k env.stamped o.id _ _ db
                    (Holds-same k x.risk.db db (insert_fill-orders _ x.risk.db e) h)))
        ]
      ]

  module _ (k : String) (env : Env F) where
    place-Holds :
        (price : Decimal) (o : Order) (x : Execution F)
        → Holds k x.risk.db
        → Holds k (place up env price o x).1.risk.db
    unfolding place
    place-Holds price o x h = elim (Bool-cases (is_simulated x.risk.settings)) [
      | inl paper ↦ rw (paper, place) (settle-Holds k env env.paper_id price o _ h)
      | inr live ↦ rw (live, place) (answered env.placed)
    ]
      where
        answered : (p : Placed) → Holds k (place_live up env price o x p).1.risk.db
        answered (accepted ex_id) = settle-Holds k env ex_id price o x h
        answered (refused why) = give_up-Holds k env why o x h

    price_and_place-Holds :
        (i : OrderIntent) (snap : MarketSnapshot F) (o : Order) (x : Execution F)
        → Holds k x.risk.db
        → Holds k (price_and_place up env i snap o x).1.risk.db
    unfolding price_and_place
    price_and_place-Holds i snap o x h = grind (arith, place-Holds, give_up-Holds k env)

    submit_new-Holds :
        (i : OrderIntent) (o : Order) (x : Execution F) (f : Fetched F)
        → Holds k x.risk.db
        → Holds k (submit_new up env i o x f).1.risk.db
    unfolding submit_new
    submit_new-Holds i o x (snapshot snap) h = price_and_place-Holds i snap o x h
    submit_new-Holds i o x (exchange_error why) h = give_up-Holds k env why o x h
    submit_new-Holds i o x other_error h = h

  -- What a submission leaves: nothing new if the key was taken or the insertion failed, and else a
  -- table of unique orders one of which has the key.
  submit_leaves :
      (env : Env F) (i : OrderIntent) (x : Execution F)
      → IsUnique x.risk.db.orders
      → ((submit up env i x).1 ≡ x) ⊎ Holds i.idempotency_key (submit up env i x).1.risk.db
  unfolding submit
  submit_leaves env i x u =
      elim (Option-cases (get_order_by_idempotency i.idempotency_key x.risk.db)) [
        | inr (old, e) ↦ rw (e, submit) (inl refl)
        | inl new ↦
            elim (Option-cases (insert_order (new_order env.created env.trace_id i) x.risk.db)) [
              | inl clash ↦ rw (new, clash, submit) (inl refl)
              | inr (db, e) ↦
                  rw (new, e, submit)
                    (inr (
                      submit_new-Holds i.idempotency_key env i _ _ env.fetched (
                        Holds-update i.idempotency_key env.stamped i.id _ _ db
                          (insert-Holds (new_order env.created env.trace_id i) x.risk.db u e))))
            ]
      ]

  -- However a submission ends, ids and idempotency keys stay unique.
  pub submit-IsUnique :
      (env : Env F) (i : OrderIntent) (x : Execution F)
      → IsUnique x.risk.db.orders
      → IsUnique (submit up env i x).1.risk.db.orders
  submit-IsUnique env i x u = ground (arith, submit_leaves env i x u)

  -- A submission under a key that an order has returns that order and changes nothing, whatever
  -- the clock, the market and the exchange say.
  submit_known :
      (env : Env F) (i : OrderIntent) (x : Execution F) (o : Order)
      → get_order_by_idempotency i.idempotency_key x.risk.db ≡ some o
      → submit up env i x ≡ (returned (some o), x)
  unfolding submit
  submit_known env i x o e = rw (e, submit)

  -- After a submission that changed anything, a submission of any intent with the same key, however it
  -- differs otherwise, returns an order with that key and changes nothing: no second fill, no second
  -- failure count, whatever has happened outside.
  pub submit_twice :
      (env env' : Env F) (i j : OrderIntent) (x : Execution F)
      → j.idempotency_key ≡ i.idempotency_key
      → IsUnique x.risk.db.orders
      → ((submit up env i x).1 ≡ x)
        ⊎ ((o : Order) × (submit up env' j (submit up env i x).1
              ≡ (returned (some o), (submit up env i x).1))
            × (o.idempotency_key ≡ i.idempotency_key))
  submit_twice env env' i j x same_key u = elim (submit_leaves env i x u) [
    | inl same ↦ inl same
    | inr h ↦ inr (repeated (get_order_by_idempotency i.idempotency_key y.risk.db) refl h.known)
  ]
    where
      y : Execution F
      y = (submit up env i x).1

      repeated :
          (found : Option Order)
          → get_order_by_idempotency i.idempotency_key y.risk.db ≡ found
          → is_some (get_order_by_idempotency i.idempotency_key y.risk.db) ≡ true
          → (o : Order) × (submit up env' j y ≡ (returned (some o), y))
            × (o.idempotency_key ≡ i.idempotency_key)
      repeated none e k = cc
      repeated (some o) e k = (
        o,
        submit_known env' j y o (rw same_key e),
        has_key_found i.idempotency_key y.risk.db o e,
      )
