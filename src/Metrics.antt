-- ===== src/Metrics.antt =====
-- trade_post/observability/metrics.py: the counters, gauges and histograms of the process. A
-- `defaultdict` is an association list whose missing keys read as the default. The lock makes each
-- call one step.
pub mod Laws
use trade_post.Base.{
  ℕ, ◌+◌, ◌-◌, ◌≤◌, ◌≡◌, ◌≢◌, refl, String, Bool, true, false, ◌&&◌, List, [], ◌∷◌, ◌++◌, arith,
  ltb, str_eq, eq_iff, if◌then◌else◌, length, drop,
}

abbrev pub Labels : Type 0
Labels = List (String × String)

abbrev pub Key : Type 0
Key = String × Labels

unfoldable pub labels_eq : Labels → Labels → Bool
labels_eq [] [] = true
labels_eq ((k, v) ∷ r) ((k', v') ∷ r') = str_eq k k' && str_eq v v' && labels_eq r r'
labels_eq _ _ = false

unfoldable pub key_eq : Key → Key → Bool
unfolding labels_eq
key_eq (n, l) (m, r) = str_eq n m && labels_eq l r

pub record Metrics (F : Type 0) : Type 0 where
  pub counters : List (Key × ℕ)
  pub gauges : List (Key × F)
  pub histograms : List (Key × List F)

-- `d[k]` and `d[k] = f(d[k])` of a `defaultdict` whose factory gives `missing`.
module _ {V : Type 0} (missing : V) where
  unfoldable pub lookup_or : Key → List (Key × V) → V
  lookup_or k [] = missing
  lookup_or k ((j, v) ∷ d) = let rest = lookup_or k d in if key_eq j k then v else rest

  unfoldable pub update_at : Key → (V → V) → List (Key × V) → List (Key × V)
  update_at k f [] = (k, f missing) ∷ []
  update_at k f ((j, v) ∷ d) =
      let rest = update_at k f d in if key_eq j k then (j, f v) ∷ d else (j, v) ∷ rest

module _ {F : Type 0} where
  unfoldable pub inc : String → ℕ → Labels → Metrics F → Metrics F
  inc name value labels m = record m {
    counters = update_at 0 (name, labels) (λ n. n + value) m.counters;
  }

  unfoldable pub set_gauge : String → F → Labels → Metrics F → Metrics F
  set_gauge name value labels m = record m {
    gauges = update_at value (name, labels) (λ _. value) m.gauges;
  }

  -- `arr.append(value)`, then the last thousand.
  unfoldable pub keep_last : F → List F → List F
  keep_last value arr =
      let longer = arr ++ (value ∷ []) in
      if ltb 1000 (length longer) then drop (length longer - 1000) longer else longer

  unfoldable pub observe : String → F → Labels → Metrics F → Metrics F
  unfolding keep_last
  observe name value labels m = record m {
    histograms = update_at [] (name, labels) (keep_last value) m.histograms;
  }

  abbrev pub counter : String → Labels → Metrics F → ℕ
  counter name labels m = lookup_or 0 (name, labels) m.counters
