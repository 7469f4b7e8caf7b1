-- ===== src/Domain/Texts.antt =====
-- trade_post/domain/models.py: the enumerations as texts. `e.value` is the text of a member, and a
-- class applied to a text looks the member up or raises.
use trade_post.Base.{
  ◌≡◌, refl, ◌↔◌, String, Option, some, List, [], ◌∷◌, arith, str_eq, eq_iff, find_first,
}
use trade_post.Domain.{
  OrderSide, buy, sell, SignalSide, long, short, flat, OrderType, market, limit, OrderStatus,
  pending, submitted, partially_filled, filled, cancelled, rejected, expired, orphaned,
}

pub record Enumeration (A : Type 0) : Type 0 where
  pub value : A → String
  pub members : List A

-- `A(text)`, and a `ValueError` as none.
unfoldable pub of_value : {A : Type 0} → Enumeration A → String → Option A
unfolding find_first
of_value e t = find_first (λ a. str_eq (e.value a) t) e.members

-- Every member is found by its own text.
abbrev pub IsListed : {A : Type 0} → Enumeration A → Type 0
IsListed {A} e = (a : A) → of_value e (e.value a) ≡ some a

pub find_first-IsMatch :
    {A : Type 0} (value : A → String) (t : String) (xs : List A) (a : A)
    → find_first (λ b. str_eq (value b) t) xs ≡ some a
    → t ≡ value a
unfolding find_first
find_first-IsMatch value t [] a h = absurd (ground arith)
find_first-IsMatch value t (x ∷ xs) a h =
    ground (arith, eq_iff (value x) t, find_first-IsMatch value t xs a)

-- The texts that an enumeration takes are the texts of its members, each for its own member.
pub of_value_iff :
    {A : Type 0} (e : Enumeration A)
    → IsListed e
    → (t : String) (a : A) → (of_value e t ≡ some a) ↔ (t ≡ e.value a)
unfolding of_value
of_value_iff e l t a = (find_first-IsMatch e.value t e.members a, λ same. rw same (l a))

abbrev pub side_value : OrderSide → String
side_value buy = "buy"
side_value sell = "sell"

abbrev pub signal_value : SignalSide → String
signal_value long = "LONG"
signal_value short = "SHORT"
signal_value flat = "FLAT"

abbrev pub type_value : OrderType → String
type_value market = "market"
type_value limit = "limit"

abbrev pub status_value : OrderStatus → String
status_value pending = "pending"
status_value submitted = "submitted"
status_value partially_filled = "partially_filled"
status_value filled = "filled"
status_value cancelled = "cancelled"
status_value rejected = "rejected"
status_value expired = "expired"
status_value orphaned = "orphaned"

abbrev pub order_sides : Enumeration OrderSide
order_sides = record { value = side_value; members = buy ∷ sell ∷ [] }

abbrev pub signal_sides : Enumeration SignalSide
signal_sides = record { value = signal_value; members = long ∷ short ∷ flat ∷ [] }

abbrev pub order_types : Enumeration OrderType
order_types = record { value = type_value; members = market ∷ limit ∷ [] }

abbrev pub order_statuses : Enumeration OrderStatus
order_statuses = record {
  value = status_value;
  members =
      pending ∷ submitted ∷ partially_filled ∷ filled ∷ cancelled ∷ rejected ∷ expired ∷ orphaned
      ∷ [];
}

-- Every enumeration that a row of an order uses lists its members.
pub order_sides-IsListed : IsListed order_sides
unfolding of_value
order_sides-IsListed buy = refl
order_sides-IsListed sell = refl

pub signal_sides-IsListed : IsListed signal_sides
unfolding of_value
signal_sides-IsListed long = refl
signal_sides-IsListed short = refl
signal_sides-IsListed flat = refl

pub order_types-IsListed : IsListed order_types
unfolding of_value
order_types-IsListed market = refl
order_types-IsListed limit = refl

pub order_statuses-IsListed : IsListed order_statuses
unfolding of_value
order_statuses-IsListed pending = refl
order_statuses-IsListed submitted = refl
order_statuses-IsListed partially_filled = refl
order_statuses-IsListed filled = refl
order_statuses-IsListed cancelled = refl
order_statuses-IsListed rejected = refl
order_statuses-IsListed expired = refl
order_statuses-IsListed orphaned = refl
