-- ===== src/Base/Lists.antt =====
-- Lists measured by native numbers, under the library's names, and predicates over lists.
use Prim.Native.Nat.{ℕ, zero, suc, ◌+◌, ◌-◌, ◌≤◌, ◌<◌, min}
use mathlib.Core.Path.{◌≡◌, refl, ap, ◌∙◌}
use mathlib.Core.Bool.{Bool, false, ◌||◌}
use mathlib.Core.List.{List, [], ◌∷◌, ◌++◌, reverse, reverse-append}
use mathlib.Core.Option.{Option, none, some}
use native.Mathlib.Omega.{arith}
use trade_post.Base.Tests.{if◌then◌else◌, leb, ltb}

module _ {ℓ} {A : Type ℓ} where
  abbrev pub length : List A → ℕ
  length [] = 0
  length (x ∷ xs) = suc (length xs)

  abbrev pub take : ℕ → List A → List A
  take zero xs = []
  take (suc n) [] = []
  take (suc n) (x ∷ xs) = x ∷ take n xs

  abbrev pub drop : ℕ → List A → List A
  drop zero xs = xs
  drop (suc n) [] = []
  drop (suc n) (x ∷ xs) = drop n xs

  -- A comprehension's condition, `[x for x in xs if p(x)]`.
  unfoldable pub keep_if : (A → Bool) → List A → List A
  keep_if p [] = []
  keep_if p (x ∷ xs) = let rest = keep_if p xs in if p x then x ∷ rest else rest

  -- `sum(1 for x in xs if p(x))`
  unfoldable pub count_if : (A → Bool) → List A → ℕ
  count_if p [] = 0
  count_if p (x ∷ xs) = (if p x then 1 else 0) + count_if p xs

  -- `any(p(x) for x in xs)`
  unfoldable pub any_of : (A → Bool) → List A → Bool
  any_of p [] = false
  any_of p (x ∷ xs) = p x || any_of p xs

  -- `next((x for x in xs if p(x)), None)`
  unfoldable pub find_first : (A → Bool) → List A → Option A
  find_first p [] = none
  find_first p (x ∷ xs) = let rest = find_first p xs in if p x then some x else rest

  -- `ORDER BY key ASC`; rows of one key keep their order.
  unfoldable pub insert_by : (A → ℕ) → A → List A → List A
  insert_by key a [] = a ∷ []
  insert_by key a (x ∷ xs) =
      let rest = insert_by key a xs in if leb (key a) (key x) then a ∷ x ∷ xs else x ∷ rest

  unfoldable pub order_by : (A → ℕ) → List A → List A
  unfolding insert_by
  order_by key [] = []
  order_by key (a ∷ rest) = insert_by key a (order_by key rest)

  -- `ORDER BY key DESC`
  unfoldable pub insert_desc_by : (A → ℕ) → A → List A → List A
  insert_desc_by key a [] = a ∷ []
  insert_desc_by key a (x ∷ xs) =
      let rest = insert_desc_by key a xs in if ltb (key x) (key a) then a ∷ x ∷ xs else x ∷ rest

  unfoldable pub newest_by : (A → ℕ) → List A → List A
  unfolding insert_desc_by
  newest_by key [] = []
  newest_by key (a ∷ rest) = insert_desc_by key a (newest_by key rest)

  -- `xs[-1]`, where there is one.
  abbrev pub last : List A → Option A
  last [] = none
  last (x ∷ []) = some x
  last (x ∷ y ∷ ys) = last (y ∷ ys)

  abbrev pub All {κ} : (A → Type κ) → List A → Type κ
  All P [] = Unit
  All P (x ∷ xs) = P x × All P xs

module _ {ℓ} {A : Type ℓ} where
  pub length-append : (xs ys : List A) → length (xs ++ ys) ≡ length xs + length ys
  length-append [] ys = omega arith
  length-append (x ∷ xs) ys = omega (arith, length-append xs ys)

  pub length-take : (n : ℕ) (xs : List A) → length (take n xs) ≡ min n (length xs)
  length-take zero xs = omega arith
  length-take (suc n) [] = omega arith
  length-take (suc n) (x ∷ xs) = omega (arith, length-take n xs)

  pub length-drop : (n : ℕ) (xs : List A) → length (drop n xs) ≡ length xs - n
  length-drop zero xs = omega arith
  length-drop (suc n) [] = omega arith
  length-drop (suc n) (x ∷ xs) = omega (arith, length-drop n xs)

  pub length-keep_if-le : (p : A → Bool) (xs : List A) → length (keep_if p xs) ≤ length xs
  unfolding keep_if
  length-keep_if-le p [] = omega arith
  length-keep_if-le p (x ∷ xs) = ground (arith, length-keep_if-le p xs)

pub All-append {ℓ κ} :
    {A : Type ℓ} (P : A → Type κ) (xs ys : List A) → All P xs → All P ys → All P (xs ++ ys)
All-append P [] ys hx hy = hy
All-append P (x ∷ xs) ys hx hy = (hx.0, All-append P xs ys hx.1 hy)

module _ {ℓ} {A : Type ℓ} where
  -- A row that is later than all before it comes first.
  pub newest_by-append :
      (key : A → ℕ) (a : A) (xs : List A)
      → All (λ x. key x < key a) xs
      → newest_by key (xs ++ (a ∷ [])) ≡ a ∷ newest_by key xs
  unfolding newest_by
  newest_by-append key a [] h = refl
  newest_by-append key a (x ∷ xs) h =
      ap (insert_desc_by key x) (newest_by-append key a xs h.1) ∙ passed (h.0)
    where
      passed :
          key x < key a
          → insert_desc_by key x (a ∷ newest_by key xs)
            ≡ a ∷ insert_desc_by key x (newest_by key xs)
      passed lt = ground arith

  pub last-append : (xs : List A) (a : A) → last (xs ++ (a ∷ [])) ≡ some a
  last-append [] a = refl
  last-append (x ∷ []) a = refl
  last-append (x ∷ y ∷ ys) a = last-append (y ∷ ys) a

  pub last-reverse : (a : A) (xs : List A) → last (reverse (a ∷ xs)) ≡ some a
  last-reverse a xs = rw (reverse-append (a ∷ []) xs) (last-append (reverse xs) a)
