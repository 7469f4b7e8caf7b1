-- ===== src/Execution/Cancel/Twice.antt =====
-- A cancellation is done once: what it leaves when it is repeated.
use mathlib.Core.Option
use trade_post.Base.{
  ℕ, zero, suc, ◌≡◌, ◌⊎◌, refl, ◌∙◌, ap, String, true, ◌&&◌, ◌||◌, some, List, [], ◌∷◌, map, arith,
  if◌then◌else◌, take, find_first, Option-cases, Bool-cases, inl, inr,
}
use trade_post.Domain.{Order, cancelled, is_terminal}
use trade_post.Execution.{Execution, is_simulated}
use trade_post.Floats.{Floats}
use trade_post.Persistence.{Database}
use trade_post.Persistence.Orders.{
  has_id, list_recent_orders, newest_first, insert_desc, update_order_status, updated_order,
  no_changes,
}
use trade_post.Execution.Cancel.{
  done, order_not_found, CancelEnv, is_placed, mark_cancelled, cancel_found, cancel,
}

module _ (f : Order → Order) (same : (o : Order) → (f o).created_at ≡ o.created_at) where
  insert_desc-map :
      (o : Order) (os : List Order) → insert_desc (f o) (map f os) ≡ map f (insert_desc o os)
  unfolding insert_desc
  insert_desc-map o [] = refl
  insert_desc-map o (x ∷ os) = ground (arith, insert_desc-map o os, same o, same x)

  newest_first-map : (os : List Order) → newest_first (map f os) ≡ map f (newest_first os)
  unfolding newest_first
  newest_first-map [] = refl
  newest_first-map (o ∷ os) =
      ap (insert_desc (f o)) (newest_first-map os) ∙ insert_desc-map o (newest_first os)

take-map : (f : Order → Order) (n : ℕ) (os : List Order) → take n (map f os) ≡ map f (take n os)
take-map f zero os = refl
take-map f (suc n) [] = refl
take-map f (suc n) (o ∷ os) = ap (λ r. f o ∷ r) (take-map f n os)

find_id-map :
    (f : Order → Order) (id : String) (os : List Order)
    → ((o : Order) → (f o).id ≡ o.id)
    → find_first (has_id id) (map f os) ≡ Option.map f (find_first (has_id id) os)
unfolding find_first
find_id-map f id [] same = refl
find_id-map f id (o ∷ os) same = ground (arith, find_id-map f id os same, same o)

find_id-holds :
    (id : String) (os : List Order) (o : Order)
    → find_first (has_id id) os ≡ some o
    → has_id id o ≡ true
unfolding find_first
find_id-holds id [] o e = absurd (ground arith)
find_id-holds id (x ∷ os) o e = ground (arith, find_id-holds id os o)

recent_cancelled :
    (now : ℕ) (id : String) (o : Order) (db : Database)
    → find_first (has_id id) (list_recent_orders 200 db) ≡ some o
    → find_first
        (has_id id)
        (list_recent_orders 200 (update_order_status now id cancelled no_changes db))
      ≡ some (updated_order now cancelled no_changes o)
unfolding list_recent_orders update_order_status updated_order
recent_cancelled now id o db e =
    let f : Order → Order =
      λ x. if has_id id x then updated_order now cancelled no_changes x else x in
    let moved =
      ap (λ l. find_first (has_id id) (take 200 l))
        (newest_first-map f (λ x. ground arith) db.orders)
      ∙ ap (find_first (has_id id)) (take-map f 200 (newest_first db.orders))
      ∙ find_id-map f id (take 200 (newest_first db.orders)) (λ x. ground arith)
      ∙ ap (Option.map f) e in
    moved ∙ rw (find_id-holds id (list_recent_orders 200 db) o e) refl

module _ {F : Type 0} ⦃fl : Floats F⦄ where
  cancel_terminal :
      (env : CancelEnv) (id : String) (x : Execution F) (o : Order)
      → find_first (has_id id) (list_recent_orders 200 x.risk.db) ≡ some o
      → is_terminal o ≡ true
      → cancel env id x ≡ (order_not_found, x)
  unfolding cancel cancel_found
  cancel_terminal env id x o e t = rw (e, t, cancel, cancel_found) refl

  marked_cancelled :
      (env env' : CancelEnv) (id : String) (x : Execution F) (o : Order)
      → find_first (has_id id) (list_recent_orders 200 x.risk.db) ≡ some o
      → cancel env' id (mark_cancelled env id x) ≡ (order_not_found, mark_cancelled env id x)
  unfolding updated_order
  marked_cancelled env env' id x o e =
      cancel_terminal env' id (mark_cancelled env id x)
        (updated_order env.stamped cancelled no_changes o)
        (recent_cancelled env.stamped id o x.risk.db e) refl

  cancel_leaves :
      (env : CancelEnv) (id : String) (x : Execution F)
      → ((cancel env id x).1 ≡ x)
        ⊎ ((o : Order) × (find_first (has_id id) (list_recent_orders 200 x.risk.db) ≡ some o)
            × (cancel env id x ≡ (done, mark_cancelled env id x)))
  unfolding cancel cancel_found
  cancel_leaves env id x =
      elim (Option-cases (find_first (has_id id) (list_recent_orders 200 x.risk.db))) [
        | inl nothing ↦ rw (nothing, cancel) (inl refl)
        | inr (o, e) ↦ elim (Bool-cases (is_terminal o)) [
          | inl ended ↦ rw (e, ended, cancel, cancel_found) (inl refl)
          | inr alive ↦
              elim (Bool-cases (
                is_simulated x.risk.settings
                || (env.connected && is_placed o.exchange_order_id && env.accepted))) [
                  | inl may ↦ rw (e, alive, may, cancel, cancel_found) (inr (o, refl, refl))
                  | inr refused ↦ rw (e, alive, refused, cancel, cancel_found) (inl refl)
                ]
        ]
      ]

  -- A cancellation either changes nothing, or it is done, and then a second one of the same order
  -- finds no order to cancel and changes nothing, whatever the exchange says.
  cancel_twice :
      (env env' : CancelEnv) (id : String) (x : Execution F)
      → ((cancel env id x).1 ≡ x)
        ⊎ (((cancel env id x).0 ≡ done)
            × (cancel env' id (cancel env id x).1 ≡ (order_not_found, (cancel env id x).1)))
  cancel_twice env env' id x = elim (cancel_leaves env id x) [
    | inl same ↦ inl same
    | inr (o, e, eq) ↦ inr (rw eq (refl, marked_cancelled env env' id x o e))
  ]
