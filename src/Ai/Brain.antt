-- ===== src/Ai/Brain.antt =====
-- trade_post/ai/brain.py: the decision that a signal and the answer of the language model make, and
-- the order intent of a decision. The prompt only reaches the model, whose answers are arbitrary.
pub mod Intent
pub mod Laws
pub mod Fallback
pub mod Answers
pub mod Example
mod Tests
use Prim.Native.Char.{Char}
use Prim.Native.String.{◌++◌}
use trade_post.Base.{
  ℕ, ◌/◌, String, Bool, true, false, not, ◌&&◌, ◌||◌, Option, none, some, List, [], ◌∷◌, min, max,
  str_eq, prefix, upper, if◌then◌else◌,
}
use trade_post.Base.Int.{ℤ, pos, negsuc}
use trade_post.Ai.Baseline.{baseline_from_signal}
use trade_post.Ai.Breaker.{Breaker, is_open}
use trade_post.Ai.Chat.{
  Attempt, Reply, parsed, circuit_open, given_up, http_fault, provider_fault, uncaught, chat_json,
}
use trade_post.Ai.Schema.{
  Json, null, flag, whole, double, text, nested, is_null, is_true_json, show_json,
  validate_decision,
}
use trade_post.Config.{Settings}
use trade_post.Decimal.{Decimal, nought, less}
use trade_post.Dict
use trade_post.Dict.{Dict}
use trade_post.Domain.{
  SignalSide, long, short, flat, OrderSide, buy, sell, OrderType, market, limit, OrderIntent, gtc,
}
use trade_post.Floats.{Floats, fmax, fmin}
use trade_post.Strategy.{StrategySignal, is_strength}

pub record AiDecision (F : Type 0) : Type 0 where
  pub id : String
  pub symbol : String
  pub signal : SignalSide
  pub conviction : ℕ
  pub confidence : Decimal
  pub rationale : String
  pub raw_output : Dict (Json F)
  pub model : String
  pub prompt_version : String
  pub schema_version : String
  pub validated : Bool
  pub validation_errors : List String
  pub timestamp : ℕ
  pub trace_id : Option String

-- `decide` returns, or raises an exception that its callers do not expect.
pub data Decided (F : Type 0) : Type 0 where
  decision : AiDecision F → Decided F
  crashed : Decided F

-- The readings of the clock in one call, and the new id. `looked` is read for the first test of the
-- breaker, `start` for the one in `chat_json`, `failed_at` when the last attempt fails.
pub record Asking : Type 0 where
  pub id : String
  pub looked : ℕ
  pub start : ℕ
  pub failed_at : ℕ
  pub stamped : ℕ
  pub trace_id : Option String

-- What stands in `raw`, and whether the model gave it.
pub data Asked (F : Type 0) : Type 0 where
  raw_of : Dict (Json F) → Bool → Asked F
  broken : Asked F

-- `float(j)`: a value, a `TypeError` or `ValueError`, or an `OverflowError`.
pub data Floated (F : Type 0) : Type 0 where
  float_is : F → Floated F
  refused : Floated F
  overflow : Floated F

abbrev pub decision_keys : List String
decision_keys =
    "action" ∷ "price" ∷ "quantity" ∷ "confidence" ∷ "stop_loss" ∷ "take_profit" ∷ "rationale"
    ∷ "symbol" ∷ []

-- `max(1, min(10, z))`
abbrev pub clip_conviction : ℤ → ℕ
clip_conviction (pos n) = max 1 (min 10 n)
clip_conviction (negsuc n) = 1

abbrev pub side_of_action : String → SignalSide
side_of_action action =
    if str_eq action "BUY" then long else if str_eq action "SELL" then short else flat

module _ {F : Type 0} ⦃fl : Floats F⦄ where
  -- The loop over the keys: a value of the answer that is not null replaces the baseline's.
  abbrev merge_key : String → Option (Json F) → Dict (Json F) → Dict (Json F)
  merge_key k none raw = raw
  merge_key k (some j) raw = if is_null j then raw else Dict.put k j raw

  unfoldable pub merge : List String → Dict (Json F) → Dict (Json F) → Dict (Json F)
  merge [] answer raw = raw
  merge (k ∷ ks) answer raw = merge ks answer (merge_key k (Dict.get k answer) raw)

  unfoldable pub to_float : Json F → Floated F
  to_float null = refused
  to_float (flag b) = float_is (fl.of_ℕ (if b then 1 else 0))
  to_float (whole z) = elim (fl.of_ℤ z) [ none ↦ overflow | some x ↦ float_is x ]
  to_float (double x) = float_is x
  to_float (text s) = elim (fl.parse_float s) [ none ↦ refused | some x ↦ float_is x ]
  to_float (nested b s) = refused

  -- `Decimal(str(min(1.0, max(0.0, x))))`
  abbrev pub clip : F → Decimal
  clip x = fl.to_decimal (fmin (fl.of_ℕ 1) (fmax (fl.of_ℕ 0) x))

  unfoldable pub conviction_of : F → ℕ
  conviction_of confidence = clip_conviction (fl.round_int (fl.fmul confidence (fl.of_ℕ 10)))

  -- `str(raw.get(k) or default)`
  abbrev pub text_or : Option (Json F) → String → String
  text_or none default = default
  text_or (some j) default = if is_true_json j then show_json j else default

  abbrev pub text_at : Option (Json F) → String → String
  text_at none default = default
  text_at (some j) default = show_json j

  unfoldable pub signal_in :
      (Dict (Json F) → List String) → (Char → String) → Dict (Json F) → SignalSide
  signal_in violations wide raw =
      if (validate_decision violations raw).0
      then side_of_action (upper wide (text_at (Dict.get "action" raw) "HOLD"))
      else flat

  -- An answer is always an object, since its text begins with a brace.
  abbrev pub after_reply : Dict (Json F) → Reply (Dict (Json F)) → Asked F
  after_reply base (parsed answer) = raw_of (merge decision_keys answer base) true
  after_reply base circuit_open = raw_of base false
  after_reply base (given_up provider_fault) = raw_of base false
  after_reply base (given_up http_fault) = broken  -- `except` names the provider's errors only
  after_reply base uncaught = broken

  unfoldable pub consult :
      Settings F
      → (ℕ → Attempt (Dict (Json F)))
      → Asking
      → Dict (Json F)
      → Breaker
      → Asked F × Breaker
  consult s server ask base b =
      let (opened, b') = is_open ask.looked b in
      if opened then (raw_of base false, b') else (
        after_reply base (chat_json server ask.start ask.failed_at s.ollama_max_retries b').0,
        (chat_json server ask.start ask.failed_at s.ollama_max_retries b').1,
      )

  module _ (s : Settings F) (violations : Dict (Json F) → List String) (wide : Char → String) where
    abbrev pub decision_of :
        Asking → StrategySignal F → Dict (Json F) → Bool → Decimal → AiDecision F
    decision_of ask sig raw used confidence = record {
      id = ask.id;
      symbol = text_or (Dict.get "symbol" raw) sig.symbol;
      signal = signal_in violations wide raw;
      conviction = conviction_of (fl.of_decimal confidence);
      confidence = confidence;
      rationale = prefix 240 (text_or (Dict.get "rationale" raw) sig.rationale);
      raw_output = raw;
      model = if used then s.ollama_model else "deterministic-fallback";
      prompt_version = "v1.0.0";
      schema_version = "v1";
      validated = (validate_decision violations raw).0;
      validation_errors = (validate_decision violations raw).1;
      timestamp = ask.stamped;
      trace_id = ask.trace_id;
    }

    -- The model `AIDecision` refuses a confidence outside its bounds.
    unfoldable pub assemble :
        Asking → StrategySignal F → Dict (Json F) → Bool → Floated F → Decided F
    assemble ask sig raw used overflow = crashed
    assemble ask sig raw used refused =
        let c = clip (fl.of_ℕ 0) in
        if is_strength c then decision (decision_of ask sig raw used c) else crashed
    assemble ask sig raw used (float_is x) =
        if is_strength (clip x) then decision (decision_of ask sig raw used (clip x)) else crashed

    unfoldable pub conclude : Asking → StrategySignal F → Asked F → Decided F
    conclude ask sig broken = crashed
    conclude ask sig (raw_of raw used) = elim (Dict.get "confidence" raw) [
      | none ↦ assemble ask sig raw used (float_is (fl.of_ℕ 0))
      | some j ↦ assemble ask sig raw used (to_float j)
    ]

    unfoldable pub decide :
        (ℕ → Attempt (Dict (Json F)))
        → Asking
        → StrategySignal F
        → Decimal
        → Decimal
        → Breaker
        → Decided F × Breaker
    decide server ask sig last_price equity b =
        let (asked, b') = consult s server ask (baseline_from_signal sig last_price equity) b in
        (conclude ask sig asked, b')
