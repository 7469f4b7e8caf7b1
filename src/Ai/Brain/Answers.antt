-- ===== src/Ai/Brain/Answers.antt =====
-- What a decision takes from an answer of the model, and the bounds of its parts.
use Prim.Native.Char.{Char}
use Prim.Native.String.{count}
use Prim.Native.String.count.{cons as count-cons}
use trade_post.Base.{
  ℕ, zero, suc, ◌≡◌, ◌≤◌, ◌<◌, inl, inr, ◌∙◌, refl, sym, ap, String, true, false, Option, none,
  some, List, [], ◌∷◌, arith, str_eq, eq_iff, prefix, Bool-cases,
}
use trade_post.Base.Int.{ℤ, pos, negsuc}
use trade_post.Ai.Baseline.{has_edge, baseline_from_signal}
use trade_post.Ai.Brain.{
  AiDecision, decision, Asking, raw_of, clip_conviction, conviction_of, conclude, consult, decide,
  merge, merge_key, decision_keys,
}
use trade_post.Ai.Brain.Laws.{conclude_fields, decide_fields}
use trade_post.Ai.Breaker.{Breaker, is_open}
use trade_post.Ai.Chat.{Attempt, answered, IsRetried}
use trade_post.Ai.Chat.Laws.{chat_json_answers}
use trade_post.Ai.Schema.{Json, null}
use trade_post.Config.{Settings}
use trade_post.Decimal.{Decimal}
use trade_post.Dict
use trade_post.Dict.{Dict, get-put}
use trade_post.Floats.{Floats}
use trade_post.Strategy.{StrategySignal, is_strength}

pub count-prefix-le : (n : ℕ) (t : String) → count (prefix n t) ≤ n
unfolding prefix
count-prefix-le zero t = omega arith
count-prefix-le (suc n) String.[] = omega arith
count-prefix-le (suc n) (String.◌∷◌ c t) =
    omega (arith, count-cons c (prefix n t), count-prefix-le n t)

clip_bounds : (z : ℤ) → (1 ≤ clip_conviction z) × (clip_conviction z ≤ 10)
clip_bounds (pos n) = omega arith
clip_bounds (negsuc n) = omega arith

module _ {F : Type 0} ⦃fl : Floats F⦄ where
  merge_key_absent :
      (i k : String) (answer raw : Dict (Json F))
      → Dict.get k answer ≡ none
      → Dict.get k (merge_key i (Dict.get i answer) raw) ≡ Dict.get k raw
  merge_key_absent i k answer raw h = at (Dict.get i answer) refl
    where
      at :
          (o : Option (Json F))
          → Dict.get i answer ≡ o
          → Dict.get k (merge_key i o raw) ≡ Dict.get k raw
      at none e = refl
      at (some j) e = elim (Bool-cases (str_eq i k)) [
        | inl same ↦ cc (sym e ∙ ap (λ t. Dict.get t answer) ((eq_iff i k).0 same) ∙ h)
        | inr other ↦ ground (arith, get-put i k j raw)
      ]

  merge-get_absent :
      (ks : List String) (answer raw : Dict (Json F)) (k : String)
      → Dict.get k answer ≡ none
      → Dict.get k (merge ks answer raw) ≡ Dict.get k raw
  unfolding merge
  merge-get_absent [] answer raw k h = refl
  merge-get_absent (i ∷ ks) answer raw k h =
      merge-get_absent ks answer (merge_key i (Dict.get i answer) raw) k h
      ∙ merge_key_absent i k answer raw h

  null_quantity :
      (sig : StrategySignal F) (p e : Decimal)
      → has_edge sig ≡ false
      → Dict.get "quantity" (baseline_from_signal sig p e) ≡ some null
  unfolding baseline_from_signal Dict.get
  null_quantity sig p e h = rw (h, baseline_from_signal) refl

  -- The breaker is closed at both tests, and the first attempts fail until one answers.
  pub record Answers (s : Settings F) (server : ℕ → Attempt (Dict (Json F))) (ask : Asking)
      (b : Breaker) (answer : Dict (Json F)) : Type 0 where
    pub round : ℕ
    pub within : round ≤ s.ollama_max_retries
    pub before : (j : ℕ) → j < round → IsRetried (server j)
    pub at : server round ≡ answered answer
    pub looked_closed : (is_open ask.looked b).0 ≡ false
    pub start_closed : (is_open ask.start (is_open ask.looked b).1).0 ≡ false

  consult_answer :
      {s : Settings F} {server : ℕ → Attempt (Dict (Json F))} {ask : Asking} {b : Breaker}
      {answer : Dict (Json F)} (base : Dict (Json F))
      → Answers s server ask b answer
      → (consult s server ask base b).0 ≡ raw_of (merge decision_keys answer base) true
  unfolding consult
  consult_answer {s} {server} {ask} {b} {answer} base h =
      rw (h.looked_closed, consult)
        (rw
          (chat_json_answers server ask.start ask.failed_at s.ollama_max_retries h.round answer
            (is_open ask.looked b).1 h.start_closed h.within h.before h.at)
          refl)

  pub decide_quantity :
      (s : Settings F) (violations : Dict (Json F) → List String) (wide : Char → String)
      (server : ℕ → Attempt (Dict (Json F))) (ask : Asking) (sig : StrategySignal F) (p e : Decimal)
      (b : Breaker) (answer : Dict (Json F)) (d : AiDecision F)
      → Answers s server ask b answer
      → Dict.get "quantity" answer ≡ none
      → has_edge sig ≡ false
      → (decide s violations wide server ask sig p e b).0 ≡ decision d
      → Dict.get "quantity" d.raw_output ≡ some null
  unfolding decide
  decide_quantity s violations wide server ask sig p e b answer d h absent flat_signal decided =
      let base = baseline_from_signal sig p e in
      let (same, _) =
        conclude_fields s violations wide ask sig (merge decision_keys answer base) true d
          (sym (ap (conclude s violations wide ask sig) (consult_answer base h)) ∙ decided) in
      rw same (
        merge-get_absent decision_keys answer base "quantity" absent
        ∙ null_quantity sig p e flat_signal)

  -- The parts of any decision are in range: the conviction from 1 to 10, the confidence from 0 to 1,
  -- and the rationale of at most 240 characters.
  pub decide_bounds :
      (s : Settings F) (violations : Dict (Json F) → List String) (wide : Char → String)
      (server : ℕ → Attempt (Dict (Json F))) (ask : Asking) (sig : StrategySignal F) (p e : Decimal)
      (b : Breaker) (d : AiDecision F)
      → (decide s violations wide server ask sig p e b).0 ≡ decision d
      → (1 ≤ d.conviction)
        × (d.conviction ≤ 10)
        × (is_strength d.confidence ≡ true)
        × (count d.rationale ≤ 240)
  unfolding conviction_of
  decide_bounds s violations wide server ask sig p e b d h =
      let (raw, used, (same, sound)) = decide_fields s violations wide server ask sig p e b d h in
      let bounds = clip_bounds (fl.round_int (fl.fmul (fl.of_decimal d.confidence) (fl.of_ℕ 10))) in
      (rw same bounds.0, rw same bounds.1, sound, rw same (count-prefix-le 240 _))
