-- ===== src/Ai/Schema.antt =====
-- trade_post/ai/schemas.py: the schema of a decision, and the values that a parsed answer holds.
use Prim.Native.String.{count}
use trade_post.Base.{
  ℕ, ◌≡◌, ◌↔◌, String, Bool, true, false, not, ◌&&◌, ◌||◌, Option, none, some, List, [], ◌∷◌, leb,
  ◌==◌, str_eq, if◌then◌else◌, is_some, any_of,
}
use trade_post.Base.Int.{ℤ, pos, negsuc, magnitude}
use trade_post.Config.{is_true_text}
use trade_post.Dict
use trade_post.Dict.{Dict}
use trade_post.Floats.{Floats, is_true_float}

-- A value of a parsed answer. Of an array or an object the code uses whether it has an item, and its
-- `str`.
pub data Json (F : Type 0) : Type 0 where
  null : Json F
  flag : Bool → Json F
  whole : ℤ → Json F
  double : F → Json F
  text : String → Json F
  nested : Bool → String → Json F

pub data Kind : Type 0 where
  string_kind number_kind null_kind : Kind

-- The keywords that the schema uses for a property. An absent keyword does not restrict.
pub record Rule : Type 0 where
  pub one_of : List String  -- `enum`, or nothing
  pub kinds : List Kind  -- `type`, or nothing
  pub min_length : ℕ
  pub max_length : Option ℕ
  pub in_unit : Bool  -- `minimum` 0 and `maximum` 1

abbrev unrestricted : Rule
unrestricted = record {
  one_of = [];
  kinds = [];
  min_length = 0;
  max_length = none;
  in_unit = false;
}

abbrev optional_number : Rule
optional_number = record unrestricted { kinds = string_kind ∷ number_kind ∷ null_kind ∷ [] }

-- `DECISION_SCHEMA_V1["properties"]`
abbrev pub decision_rules : Dict Rule
decision_rules =
    ("action", record unrestricted { one_of = "BUY" ∷ "SELL" ∷ "HOLD" ∷ [] })
    ∷ (
      "symbol",
      record unrestricted { kinds = string_kind ∷ []; min_length = 1; max_length = some 32 },
    )
    ∷ ("price", optional_number)
    ∷ ("quantity", optional_number)
    ∷ ("confidence", record unrestricted { kinds = number_kind ∷ string_kind ∷ []; in_unit = true })
    ∷ ("stop_loss", optional_number)
    ∷ ("take_profit", optional_number)
    ∷ ("rationale", record unrestricted { kinds = string_kind ∷ []; max_length = some 480 })
    ∷ []

abbrev pub required_keys : List String
required_keys = "action" ∷ "symbol" ∷ []

module _ {F : Type 0} ⦃fl : Floats F⦄ where
  -- A Boolean is no number.
  abbrev pub has_kind : Json F → Kind → Bool
  has_kind (text s) string_kind = true
  has_kind (whole z) number_kind = true
  has_kind (double x) number_kind = true
  has_kind null null_kind = true
  has_kind _ _ = false

  abbrev pub is_one_of : List String → Json F → Bool
  is_one_of [] j = true
  is_one_of names (text s) = any_of (λ n. str_eq n s) names
  is_one_of names _ = false

  abbrev pub has_length : Rule → Json F → Bool
  has_length r (text s) =
      leb r.min_length (count s) && elim r.max_length [ none ↦ true | some n ↦ leb (count s) n ]
  has_length r _ = true

  -- A text is not compared with the bounds.
  abbrev pub is_in_unit : Json F → Bool
  is_in_unit (whole (pos n)) = leb n 1
  is_in_unit (whole (negsuc n)) = false
  is_in_unit (double x) = not (fl.flt x (fl.of_ℕ 0)) && not (fl.flt (fl.of_ℕ 1) x)
  is_in_unit _ = true

  abbrev pub is_of_kinds : List Kind → Json F → Bool
  is_of_kinds [] j = true
  is_of_kinds kinds j = any_of (has_kind j) kinds

  -- Whether a value keeps the rule of its property.
  unfoldable pub admits : Rule → Json F → Bool
  unfolding any_of
  admits r j =
      is_one_of r.one_of j
      && is_of_kinds r.kinds j
      && has_length r j
      && (not r.in_unit || is_in_unit j)

  -- `additionalProperties` is false.
  abbrev pub is_ruled : Option Rule → Json F → Bool
  is_ruled none j = false
  is_ruled (some r) j = admits r j

  unfoldable pub follows_rules : Dict Rule → Dict (Json F) → Bool
  unfolding admits Dict.get
  follows_rules rules [] = true
  follows_rules rules ((k, j) ∷ d) = is_ruled (Dict.get k rules) j && follows_rules rules d

  abbrev pub has_keys : List String → Dict (Json F) → Bool
  has_keys [] d = true
  has_keys (k ∷ ks) d = is_some (Dict.get k d) && has_keys ks d

  -- What the schema asks of an object.
  unfoldable pub conforms : Dict (Json F) → Bool
  unfolding follows_rules
  conforms d = has_keys required_keys d && follows_rules decision_rules d

  abbrev pub is_null : Json F → Bool
  is_null null = true
  is_null _ = false

  -- `bool(j)`
  abbrev pub is_true_json : Json F → Bool
  is_true_json null = false
  is_true_json (flag b) = b
  is_true_json (whole z) = not (magnitude z == 0)
  is_true_json (double x) = is_true_float x
  is_true_json (text s) = is_true_text s
  is_true_json (nested b s) = b

  -- `str(j)`
  abbrev pub show_json : Json F → String
  show_json null = "None"
  show_json (flag b) = if b then "True" else "False"
  show_json (whole z) = fl.show_decimal (record { coef = z; scale = 0 })
  show_json (double x) = fl.show_float x
  show_json (text s) = s
  show_json (nested b s) = s

-- What `Draft7Validator` gives for an object, a text for each violation, is an argument of
-- `validate_decision`. The texts are sorted, which changes neither whether there are any nor what
-- a decision does with them; they stand in the validator's order.
abbrev pub validate_decision :
    {F : Type 0} → (Dict (Json F) → List String) → Dict (Json F) → Bool × List String
validate_decision violations raw = elim (violations raw) [
  | [] ↦ (true, [])
  | e ∷ es ↦ (false, e ∷ es)
]

-- What is relied on of the validator: it finds nothing exactly where the schema is kept.
abbrev pub IsFaithful : {F : Type 0} ⦃fl : Floats F⦄ → (Dict (Json F) → List String) → Type 0
IsFaithful {F} violations = (raw : Dict (Json F)) → (violations raw ≡ []) ↔ (conforms raw ≡ true)
