-- ===== src/Persistence/Texts/Tests.antt =====
-- An order that is stored and read, with numbers that are written as tallies.
use Prim.Native.Char.{Char, code}
use trade_post.Base.{
  ℕ, zero, suc, ◌≡◌, refl, String, Bool, true, false, Option, none, some, ◌==◌, arith,
  if◌then◌else◌, eq_iff, str_eq, Bool-cases, inl, inr, ap,
}
use trade_post.Base.Int.{ℤ, pos, negsuc}
use trade_post.Config.{is_true_text}
use trade_post.Decimal.{Decimal, of_ℕ, is_nonzero}
use trade_post.Domain.{Order, buy, long, market, filled}
use trade_post.Persistence.Orders.{order_row, stored_amount}
use trade_post.Persistence.Texts.{
  Codec, IsRead, order_dict, order_from_row, order_from_row-order_dict,
}

-- So many of a character, before a text.
tally : Char → ℕ → String → String
tally c zero t = t
tally c (suc n) t = String.◌∷◌ c (tally c n t)

-- How many of a character a text begins with, and the rest of the text.
run : Char → String → ℕ × String
run c String.[] = (0, String.[])
run c (String.◌∷◌ d s) =
    let (n, rest) = run c s in if code d == code c then (suc n, rest) else (0, String.◌∷◌ d s)

run-tally : (c : Char) (n : ℕ) (t : String) → run c t ≡ (0, t) → run c (tally c n t) ≡ (n, t)
unfolding run tally
run-tally c zero t h = h
run-tally c (suc n) t h = ground (arith, run-tally c n t h)

abbrev coef_text : ℤ → String → String
coef_text (pos n) t = String.◌∷◌ "p" (tally "a" n t)
coef_text (negsuc n) t = String.◌∷◌ "n" (tally "a" n t)

bs : (k : ℕ) → run "b" (tally "b" k String.[]) ≡ (k, String.[])
unfolding run
bs k = run-tally "b" k String.[] refl

as_bs : (n k : ℕ) → run "a" (tally "a" n (tally "b" k String.[])) ≡ (n, tally "b" k String.[])
unfolding run tally
as_bs n zero = run-tally "a" n String.[] refl
as_bs n (suc k) = run-tally "a" n (String.◌∷◌ "b" (tally "b" k String.[])) refl

show_decimal : Decimal → String
show_decimal d = coef_text d.coef (tally "b" d.scale String.[])

abbrev decimal_of : ℤ → ℕ → Decimal
decimal_of z k = record { coef = z; scale = k }

read_decimal : String → Option Decimal
read_decimal String.[] = none
read_decimal (String.◌∷◌ c s) =
    let (n, rest) = run "a" s in
    let (k, over) = run "b" rest in some (decimal_of (if code c == b'p' then pos n else negsuc n) k)

show_time : ℕ → String
show_time t = tally "a" (suc t) String.[]

read_time : String → Option ℕ
read_time String.[] = none
read_time (String.◌∷◌ c s) = some (run "a" s).0

abbrev tallies : Codec
tallies = record {
  show_decimal = show_decimal;
  read_decimal = read_decimal;
  show_time = show_time;
  read_time = read_time;
}

decimals : (z : ℤ) (k : ℕ) → read_decimal (show_decimal (decimal_of z k)) ≡ some (decimal_of z k)
unfolding read_decimal show_decimal
decimals (pos n) k = rw (as_bs n k, bs k) refl
decimals (negsuc n) k = rw (as_bs n k, bs k) refl

times_read : (t : ℕ) → read_time (show_time t) ≡ some t
unfolding read_time show_time tally run
times_read t = rw (run-tally "a" t String.[] refl) refl

abbrev is_empty : String → Bool
is_empty String.[] = true
is_empty (String.◌∷◌ c s) = false

full : (c : Char) (s : String) → is_true_text (String.◌∷◌ c s) ≡ true
full c s = elim (Bool-cases (str_eq (String.◌∷◌ c s) "")) [
  | inr other ↦ rw other refl
  | inl empty ↦
      let same : String.◌∷◌ c s ≡ "" = (eq_iff (String.◌∷◌ c s) "").0 empty in
      let wrong : false ≡ true = ap is_empty same in absurd (cc wrong)
]

decimal_full : (z : ℤ) (k : ℕ) → is_true_text (show_decimal (decimal_of z k)) ≡ true
unfolding show_decimal
decimal_full (pos n) k = full "p" _
decimal_full (negsuc n) k = full "n" _

time_full : (t : ℕ) → is_true_text (show_time t) ≡ true
unfolding show_time tally
time_full t = full "a" _

tallies-IsRead : IsRead tallies
tallies-IsRead = record {
  decimal_read = λ d. decimals d.coef d.scale;
  time_read = times_read;
  decimal_text = λ d. decimal_full d.coef d.scale;
  time_text_full = time_full;
}

abbrev order : Order
order = record {
  id = "o1";
  intent_id = "i1";
  exchange_order_id = some "x1";
  symbol = "BTC/USDT";
  side = buy;
  type = market;
  quantity = decimal_of (pos 15) 1;
  filled_quantity = decimal_of (pos 15) 1;
  average_price = some (of_ℕ 100);
  status = filled;
  limit_price = some (of_ℕ 0);
  stop_loss_pct = none;
  take_profit_pct = none;
  idempotency_key = "k1";
  strategy_id = "ai";
  signal = long;
  conviction = 7;
  rationale = "edge";
  created_at = 5;
  submitted_at = some 6;
  completed_at = some 7;
  last_error = none;
  trace_id = none;
}

order_from_row-order_dict_example :
    order_from_row tallies (order_dict tallies order) ≡ some (order_row order)
order_from_row-order_dict_example = order_from_row-order_dict tallies order tallies-IsRead

-- A limit price of 0 is lost.
limit_lost : (order_row order).limit_price ≡ none
unfolding order_row stored_amount is_nonzero
limit_lost = refl
