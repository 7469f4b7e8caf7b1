-- ===== src/Ai/Brain/Laws.antt =====
-- What a decision of the brain may be, by the answer of the language model.
use Prim.Native.Char.{Char}
use trade_post.Base.{
  ℕ, ◌≡◌, ◌↔◌, ◌⊎◌, ◌∙◌, inl, inr, refl, sym, subst, ap, String, Bool, true, false, Option, none,
  some, List, [], ◌∷◌, arith, str_eq, eq_iff, upper, any_of, Bool-cases,
}
use trade_post.Ai.Baseline.{baseline_from_signal}
use trade_post.Ai.Breaker.{Breaker}
use trade_post.Ai.Chat.{Attempt}
use trade_post.Ai.Schema.{
  Json, null, flag, whole, double, text, nested, Rule, admits, is_ruled, follows_rules,
  decision_rules, conforms, IsFaithful, validate_decision,
}
use trade_post.Ai.Brain.{
  AiDecision, decision, Asking, Asked, raw_of, broken, Floated, float_is, refused, overflow,
  assemble, conclude, consult, decide, decision_of, to_float, signal_in, side_of_action,
}
use trade_post.Config.{Settings}
use trade_post.Decimal.{Decimal}
use trade_post.Dict
use trade_post.Dict.{Dict}
use trade_post.Domain.{long, short, flat}
use trade_post.Floats.{Floats}
use trade_post.Strategy.{StrategySignal, is_strength}

abbrev IsVerb : String → Type 0
IsVerb a = (a ≡ "BUY") ⊎ (a ≡ "SELL") ⊎ (a ≡ "HOLD")

side_iff :
    (wide : Char → String) (a : String)
    → IsVerb a
    → ((side_of_action (upper wide a) ≡ long) ↔ (a ≡ "BUY"))
      × ((side_of_action (upper wide a) ≡ short) ↔ (a ≡ "SELL"))
unfolding upper
side_iff wide a (inl e) = rw e (ground (arith, eq_iff "BUY" "SELL"))
side_iff wide a (inr (inl e)) = rw e (ground (arith, eq_iff "SELL" "BUY"))
side_iff wide a (inr (inr e)) = rw e (ground (arith, eq_iff "HOLD" "BUY", eq_iff "HOLD" "SELL"))

module _ {F : Type 0} ⦃fl : Floats F⦄ where
  follows-get :
      (rules : Dict Rule) (k : String) (d : Dict (Json F)) (j : Json F)
      → follows_rules rules d ≡ true
      → Dict.get k d ≡ some j
      → is_ruled (Dict.get k rules) j ≡ true
  unfolding follows_rules Dict.get
  follows-get rules k [] j h e = cc
  follows-get rules k ((i, v) ∷ d) j h e = elim (Bool-cases (str_eq i k)) [
    | inl same ↦
        ground (arith, eq_iff i k, ap (λ (t : String). Dict.get t rules) ((eq_iff i k).0 same))
    | inr other ↦ ground (arith, eq_iff i k, follows-get rules k d j)
  ]

  action_rule :
      (j : Json F)
      → is_ruled (Dict.get "action" decision_rules) j ≡ true
      → (a : String) × (j ≡ text a) × IsVerb a
  unfolding Dict.get admits any_of
  action_rule (text a) h =
      (a, refl, ground (arith, eq_iff "BUY" a, eq_iff "SELL" a, eq_iff "HOLD" a))
  action_rule null h = cc
  action_rule (flag b) h = cc
  action_rule (whole z) h = cc
  action_rule (double x) h = cc
  action_rule (nested b t) h = cc

  -- The action of an object that keeps the schema.
  action_in :
      (d : Dict (Json F))
      → conforms d ≡ true
      → (a : String) × (Dict.get "action" d ≡ some (text a)) × IsVerb a
  unfolding conforms
  action_in d h = found (Dict.get "action" d) refl
    where
      found :
          (o : Option (Json F))
          → Dict.get "action" d ≡ o
          → (a : String) × (Dict.get "action" d ≡ some (text a)) × IsVerb a
      found none e = absurd (ground (arith, e))
      found (some j) e =
          let (a, is_text, act) =
            action_rule j (follows-get decision_rules "action" d j (ground arith) e) in
          (a, e ∙ ap some is_text, act)

  validated_iff :
      (violations : Dict (Json F) → List String)
      → IsFaithful violations
      → (raw : Dict (Json F)) → (validate_decision violations raw).0 ≡ conforms raw
  validated_iff violations faithful raw = at (violations raw) refl
    where
      at :
          (es : List String)
          → violations raw ≡ es
          → (validate_decision violations raw).0 ≡ conforms raw
      at [] e = rw (e, validate_decision) (sym ((faithful raw).0 e))
      at (x ∷ xs) e = rw (e, validate_decision) (ground (arith, (faithful raw).1))

  -- Whether the model's object kept the schema, and what then becomes of the action in it.
  abbrev pub IsSound : AiDecision F → Type 0
  IsSound d =
      ((conforms d.raw_output ≡ true)
        × (d.validated ≡ true)
        × ((d.signal ≡ long) ↔ (Dict.get "action" d.raw_output ≡ some (text "BUY")))
        × ((d.signal ≡ short) ↔ (Dict.get "action" d.raw_output ≡ some (text "SELL"))))
      ⊎ ((conforms d.raw_output ≡ false) × (d.validated ≡ false) × (d.signal ≡ flat))

  of_conforming :
      (violations : Dict (Json F) → List String) (wide : Char → String) (raw : Dict (Json F))
      → (validate_decision violations raw).0 ≡ true
      → conforms raw ≡ true
      → ((signal_in violations wide raw ≡ long) ↔ (Dict.get "action" raw ≡ some (text "BUY")))
        × ((signal_in violations wide raw ≡ short) ↔ (Dict.get "action" raw ≡ some (text "SELL")))
  unfolding signal_in
  of_conforming violations wide raw v h =
      let (a, e, act) = action_in raw h in ground (arith, side_iff wide a act, v, e)

  module _ (s : Settings F) (violations : Dict (Json F) → List String) (wide : Char → String) where
    -- What a decision is, given the object that it rests on.
    abbrev pub IsDecisionOf :
        Asking → StrategySignal F → Dict (Json F) → Bool → AiDecision F → Type 0
    IsDecisionOf ask sig raw used d =
        (d ≡ decision_of s violations wide ask sig raw used d.confidence)
        × (is_strength d.confidence ≡ true)

    assemble_fields :
        (ask : Asking) (sig : StrategySignal F) (raw : Dict (Json F)) (used : Bool) (f : Floated F)
        (d : AiDecision F)
        → assemble s violations wide ask sig raw used f ≡ decision d
        → IsDecisionOf ask sig raw used d
    unfolding assemble
    assemble_fields ask sig raw used overflow d h = cc
    assemble_fields ask sig raw used refused d h = ground arith
    assemble_fields ask sig raw used (float_is x) d h = ground arith

    pub conclude_fields :
        (ask : Asking) (sig : StrategySignal F) (raw : Dict (Json F)) (used : Bool)
        (d : AiDecision F)
        → conclude s violations wide ask sig (raw_of raw used) ≡ decision d
        → IsDecisionOf ask sig raw used d
    unfolding conclude
    conclude_fields ask sig raw used d h = at (Dict.get "confidence" raw) refl
      where
        at : (o : Option (Json F)) → Dict.get "confidence" raw ≡ o → IsDecisionOf ask sig raw used d
        at none e = assemble_fields ask sig raw used (float_is (fl.of_ℕ 0)) d (ground (arith, e))
        at (some j) e = assemble_fields ask sig raw used (to_float j) d (ground (arith, e))

    pub decide_fields :
        (server : ℕ → Attempt (Dict (Json F))) (ask : Asking) (sig : StrategySignal F)
        (last_price equity : Decimal) (b : Breaker) (d : AiDecision F)
        → (decide s violations wide server ask sig last_price equity b).0 ≡ decision d
        → (raw : Dict (Json F)) × (used : Bool) × IsDecisionOf ask sig raw used d
    unfolding decide conclude
    decide_fields server ask sig last_price equity b d h =
        at (consult s server ask (baseline_from_signal sig last_price equity) b).0 h
      where
        at :
            (a : Asked F)
            → conclude s violations wide ask sig a ≡ decision d
            → (raw : Dict (Json F)) × (used : Bool) × IsDecisionOf ask sig raw used d
        at broken e = cc
        at (raw_of raw used) e = (raw, used, conclude_fields ask sig raw used d e)

    decision_of-IsSound :
        IsFaithful violations
        → (ask : Asking) (sig : StrategySignal F) (raw : Dict (Json F)) (used : Bool) (c : Decimal)
        → IsSound (decision_of s violations wide ask sig raw used c)
    unfolding signal_in
    decision_of-IsSound faithful ask sig raw used c = elim (Bool-cases (conforms raw)) [
      | inl good ↦
          let valid = validated_iff violations faithful raw ∙ good in
          inl (
            good,
            valid,
            (of_conforming violations wide raw valid good).0,
            (of_conforming violations wide raw valid good).1,
          )
      | inr bad ↦
          let invalid = validated_iff violations faithful raw ∙ bad in
          inr (bad, invalid, rw (invalid, signal_in))
    ]

    -- A decision that `decide` returns, whatever the model answers: either the object that it rests on
    -- keeps the schema, and then the decision is long exactly where the action in it is "BUY" and
    -- short exactly where it is "SELL", or the object does not, and the decision is flat.
    pub decide-IsSound :
        IsFaithful violations
        → (server : ℕ → Attempt (Dict (Json F))) (ask : Asking) (sig : StrategySignal F)
          (last_price equity : Decimal) (b : Breaker) (d : AiDecision F)
        → (decide s violations wide server ask sig last_price equity b).0 ≡ decision d
        → IsSound d
    decide-IsSound faithful server ask sig last_price equity b d h =
        let (raw, used, (same, _)) = decide_fields server ask sig last_price equity b d h in
        subst IsSound (sym same) (decision_of-IsSound faithful ask sig raw used d.confidence)
