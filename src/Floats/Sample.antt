-- ===== src/Floats/Sample.antt =====
-- A concrete type of doubles for the examples: decimals of 28 digits, with one text for all.
use trade_post.Base.{
  true, none, some, List, [], ◌∷◌, ℕ, zero, suc, ◌-◌, ◌*◌, leb, if◌then◌else◌, ◌&&◌,
}
use trade_post.Base.Int.{magnitude}
use trade_post.Decimal.{
  Decimal, of_ℕ, add, sub, mul, div, negate, absolute, less, at_most, drop_digits, fix,
}
use trade_post.Floats.{Floats}

-- The whole part of a square root, by counting down.
unfoldable pub root_from : ℕ → ℕ → ℕ
root_from zero n = 0
root_from (suc r) n = let rest = root_from r n in if leb (suc r * suc r) n then suc r else rest

abbrev pub decimal_round : Decimal → ℕ → Decimal
decimal_round d n = if leb d.scale n then d else drop_digits d (d.scale - n)

unfoldable pub sum_decimals : List Decimal → Decimal
sum_decimals [] = of_ℕ 0
sum_decimals (d ∷ ds) = add d (sum_decimals ds)

instance abbrev pub decimal_floats : Floats Decimal
decimal_floats = record {
  of_ℕ = of_ℕ;
  of_ℤ = λ z. some (record { coef = z; scale = 0 });
  parse_float = λ _. none;
  ratio = λ n d. div (of_ℕ n) (of_ℕ d);
  of_decimal = λ d. d;
  to_decimal = λ d. d;
  total_seconds = λ z. div (record { coef = z; scale = 0 }) (of_ℕ 1_000_000);
  is_finite = λ _. true;
  fadd = add;
  fsub = sub;
  fmul = mul;
  fdiv = div;
  fabs = absolute;
  fneg = negate;
  fsqrt = λ d. of_ℕ (root_from (magnitude d.coef) (magnitude d.coef));
  fsquare = λ d. mul d d;
  fsum = sum_decimals;
  flt = less;
  fle = at_most;
  feq = λ a b. at_most a b && at_most b a;
  round_int = λ d. (decimal_round d 0).coef;
  round_to = decimal_round;
  fixed = λ _ _. "n";
  percent = λ _ _. "p";
  show_float = λ _. "x";
  show_decimal = λ _. "d";
}

-- Names what an example computes with.
unfoldable pub arithmetic : Unit {0}
unfolding add sub mul div negate absolute less at_most drop_digits fix root_from sum_decimals
arithmetic = tt
