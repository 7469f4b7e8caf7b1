-- ===== src/Ai/Brain/Fallback.antt =====
-- Which object a decision rests on: the baseline where the model gives none, or the model's.
use Prim.Native.Char.{Char}
use trade_post.Base.{
  ℕ, ◌≡◌, ◌≤◌, ◌⊎◌, ◌∙◌, inl, inr, refl, ap, String, Bool, true, false, ◌&&◌, some, List, arith,
  upper, Bool-cases, if◌then◌else◌,
}
use trade_post.Ai.Baseline.{action_of, is_directed, has_edge, baseline_by, baseline_from_signal}
use trade_post.Ai.Brain.{
  AiDecision, decision, crashed, Asking, raw_of, to_float, clip, assemble, conclude, consult,
  decide, decision_of, signal_in, side_of_action, after_reply,
}
use trade_post.Ai.Breaker.{Breaker, is_open, record_failure}
use trade_post.Ai.Chat.{Attempt, retryable, Fault, http_fault, provider_fault, IsRetried, chat_json}
use trade_post.Ai.Chat.Laws.{chat_json_fails, chat_json_blocked}
use trade_post.Ai.Schema.{Json, double, validate_decision}
use trade_post.Config.{Settings}
use trade_post.Decimal.{Decimal}
use trade_post.Dict
use trade_post.Dict.{Dict, get-put}
use trade_post.Domain.{SignalSide, long, short, flat}
use trade_post.Floats.{Floats}
use trade_post.Strategy.{StrategySignal, is_strength}

if_valid :
    (wide : Char → String) (valid : Bool) (side : SignalSide)
    → is_directed side ≡ true
    → (if valid then side_of_action (upper wide (action_of side)) else flat)
      ≡ (if true && valid then side else flat)
unfolding upper
if_valid wide valid long h = ground arith
if_valid wide valid short h = ground arith
if_valid wide valid flat h = cc

module _ {F : Type 0} ⦃fl : Floats F⦄ where
  -- Every attempt fails, the last one with this error.
  pub record IsDown (s : Settings F) (server : ℕ → Attempt (Dict (Json F))) (f : Fault)
      : Type 0 where
    pub last : server s.ollama_max_retries ≡ retryable f
    pub all : (j : ℕ) → j ≤ s.ollama_max_retries → IsRetried (server j)

  -- The model gives no object, and this is caught: the breaker is open, or every attempt fails, the
  -- last one with an error of the provider.
  abbrev pub IsUnavailable : Settings F → (ℕ → Attempt (Dict (Json F))) → Asking → Breaker → Type 0
  IsUnavailable s server ask b = ((is_open ask.looked b).0 ≡ true) ⊎ IsDown s server provider_fault

  consult_unavailable :
      (s : Settings F) (server : ℕ → Attempt (Dict (Json F))) (ask : Asking) (base : Dict (Json F))
      (b : Breaker)
      → IsUnavailable s server ask b
      → (consult s server ask base b).0 ≡ raw_of base false
  unfolding consult
  consult_unavailable s server ask base b (inl opened) = rw (opened, consult)
  consult_unavailable s server ask base b (inr down) = elim (Bool-cases (is_open ask.looked b).0) [
    | inl opened ↦ rw (opened, consult)
    | inr closed ↦ rw (closed, consult) (later (is_open ask.looked b).1)
  ]
    where
      later :
          (c : Breaker)
          → after_reply base (chat_json server ask.start ask.failed_at s.ollama_max_retries c).0
            ≡ raw_of base false
      later c = elim (Bool-cases (is_open ask.start c).0) [
        | inl opened ↦
            rw
              (chat_json_blocked server server ask.start ask.failed_at s.ollama_max_retries c
                opened).0
        | inr closed ↦ rw (
            chat_json_fails server ask.start ask.failed_at s.ollama_max_retries provider_fault c
              closed down.last down.all)
      ]

  -- The confidence of the baseline.
  abbrev pub baseline_confidence : StrategySignal F → F
  baseline_confidence sig = if has_edge sig then fl.of_decimal sig.strength else fl.of_ℕ 0

  baseline_confidence_lem :
      (edge : Bool) (sig : StrategySignal F) (p e : Decimal)
      → Dict.get "confidence" (baseline_by edge sig p e)
        ≡ some (double (if edge then fl.of_decimal sig.strength else fl.of_ℕ 0))
  unfolding Dict.get
  baseline_confidence_lem true sig p e = refl
  baseline_confidence_lem false sig p e = refl

  module _ (s : Settings F) (violations : Dict (Json F) → List String) (wide : Char → String) where
    conclude_double :
        (ask : Asking) (sig : StrategySignal F) (raw : Dict (Json F)) (used : Bool) (x : F)
        → Dict.get "confidence" raw ≡ some (double x)
        → is_strength (clip x) ≡ true
        → conclude s violations wide ask sig (raw_of raw used)
          ≡ decision (decision_of s violations wide ask sig raw used (clip x))
    unfolding conclude assemble to_float
    conclude_double ask sig raw used x at h = rw (at, conclude) (rw (h, assemble))

  signal_by :
      (violations : Dict (Json F) → List String) (wide : Char → String) (edge : Bool)
      (sig : StrategySignal F) (p e : Decimal)
      → (edge ≡ true → is_directed sig.signal ≡ true)
      → signal_in violations wide (baseline_by edge sig p e) ≡ (
          if edge && (validate_decision violations (baseline_by edge sig p e)).0
          then sig.signal
          else flat)
  unfolding signal_in Dict.get upper
  signal_by violations wide false sig p e d = ground arith
  signal_by violations wide true sig p e d =
      if_valid wide (validate_decision violations (baseline_by true sig p e)).0 sig.signal (d refl)

  -- Where the breaker is open, or every attempt fails, the last one with an error of the provider and
  -- not of the transport, `decide` returns a decision, provided that the clipped confidence is one that the model `AIDecision` takes; it
  -- rests on the baseline, names the fallback as its model, and takes the side of the strategy's
  -- signal exactly where there is an edge and the baseline keeps the schema, and is flat otherwise.
  pub decide_fallback :
      (s : Settings F) (violations : Dict (Json F) → List String) (wide : Char → String)
      (server : ℕ → Attempt (Dict (Json F))) (ask : Asking) (sig : StrategySignal F) (p e : Decimal)
      (b : Breaker)
      → IsUnavailable s server ask b
      → is_strength (clip (baseline_confidence sig)) ≡ true
      → (d : AiDecision F) × ((decide s violations wide server ask sig p e b).0 ≡ decision d)
        × (d.raw_output ≡ baseline_from_signal sig p e)
        × (d.model ≡ "deterministic-fallback")
        × (d.signal ≡ (if has_edge sig && d.validated then sig.signal else flat))
  unfolding decide baseline_from_signal has_edge
  decide_fallback s violations wide server ask sig p e b down h =
      let raw = baseline_by (has_edge sig) sig p e in
      let rests = consult_unavailable s server ask raw b down in
      (
        decision_of s violations wide ask sig raw false (clip (baseline_confidence sig)),
        ap (conclude s violations wide ask sig) rests
            ∙ conclude_double s violations wide ask sig raw false (baseline_confidence sig)
                (baseline_confidence_lem (has_edge sig) sig p e) h,
        refl,
        refl,
        signal_by violations wide (has_edge sig) sig p e (λ edge. ground arith),
      )

  -- Where the breaker lets the call through and every attempt fails, the last one with a transport error
  -- or a status, `decide` raises: there is no fallback. The breaker has then counted one failure.
  pub decide_unreachable :
      (s : Settings F) (violations : Dict (Json F) → List String) (wide : Char → String)
      (server : ℕ → Attempt (Dict (Json F))) (ask : Asking) (sig : StrategySignal F) (p e : Decimal)
      (b : Breaker)
      → IsDown s server http_fault
      → (is_open ask.looked b).0 ≡ false
      → (is_open ask.start (is_open ask.looked b).1).0 ≡ false
      → decide s violations wide server ask sig p e b
        ≡ (crashed, record_failure ask.failed_at (is_open ask.start (is_open ask.looked b).1).1)
  unfolding decide conclude consult
  decide_unreachable s violations wide server ask sig p e b down looked started =
      rw
        (
          looked,
          chat_json_fails server ask.start ask.failed_at s.ollama_max_retries http_fault
              (is_open ask.looked b).1 started down.last down.all,
        )
        refl
