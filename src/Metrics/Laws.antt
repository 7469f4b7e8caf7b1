-- ===== src/Metrics/Laws.antt =====
-- The metrics as a map from series to values.
use trade_post.Base.{
  ℕ, ◌+◌, ◌-◌, ◌≤◌, ◌≡◌, ◌↔◌, true, List, [], ◌∷◌, ◌++◌, arith, eq_iff, if◌then◌else◌, length,
  length-drop, String,
}
use trade_post.Metrics.{
  Labels, Key, labels_eq, key_eq, Metrics, lookup_or, update_at, inc, observe, keep_last, counter,
}

labels_eq_iff : (l m : Labels) → (labels_eq l m ≡ true) ↔ (l ≡ m)
unfolding labels_eq
labels_eq_iff [] [] = ground arith
labels_eq_iff [] (y ∷ m) = ground arith
labels_eq_iff (x ∷ l) [] = ground arith
labels_eq_iff ((k, v) ∷ l) ((k', v') ∷ m) =
    ground (arith, eq_iff k k', eq_iff v v', labels_eq_iff l m)

pub key_eq_iff : (k j : Key) → (key_eq k j ≡ true) ↔ (k ≡ j)
unfolding key_eq
key_eq_iff (n, l) (m, r) = ground (arith, eq_iff n m, labels_eq_iff l r)

pub lookup_or-update_at :
    {V : Type 0} (missing : V) (k j : Key) (f : V → V) (d : List (Key × V))
    → lookup_or missing j (update_at missing k f d)
      ≡ (if key_eq k j then f (lookup_or missing k d) else lookup_or missing j d)
unfolding lookup_or update_at
lookup_or-update_at missing k j f [] = ground arith
lookup_or-update_at missing k j f ((i, v) ∷ d) =
    ground
      (arith, key_eq_iff k j, key_eq_iff i k, key_eq_iff i j, lookup_or-update_at missing k j f d)

module _ {F : Type 0} where
  -- An increment adds to the counter of its name and labels and to no other counter.
  pub counter-inc :
      (name other : String) (labels labels' : Labels) (n : ℕ) (m : Metrics F)
      → counter other labels' (inc name n labels m) ≡ (
          if key_eq (name, labels) (other, labels')
          then counter name labels m + n
          else counter other labels' m)
  unfolding inc
  counter-inc name other labels labels' n m =
      lookup_or-update_at 0 (name, labels) (other, labels') (λ k. k + n) m.counters

  -- No histogram holds more than a thousand values.
  abbrev pub IsBounded : List (Key × List F) → Type 0
  IsBounded [] = Unit {0}
  IsBounded ((_, arr) ∷ d) = (length arr ≤ 1000) × IsBounded d

  keep_last-le : (v : F) (arr : List F) → length (keep_last v arr) ≤ 1000
  unfolding keep_last
  keep_last-le v arr =
      ground (arith, length-drop (length (arr ++ (v ∷ [])) - 1000) (arr ++ (v ∷ [])))

  update_at-IsBounded :
      (k : Key) (v : F) (d : List (Key × List F))
      → IsBounded d
      → IsBounded (update_at [] k (keep_last v) d)
  unfolding update_at
  update_at-IsBounded k v [] h = (keep_last-le v [], tt)
  update_at-IsBounded k v ((j, arr) ∷ d) h =
      ground (arith, keep_last-le v arr, update_at-IsBounded k v d h.1)

  -- An observation keeps every histogram within a thousand values.
  observe-IsBounded :
      (name : String) (v : F) (labels : Labels) (m : Metrics F)
      → IsBounded m.histograms
      → IsBounded (observe name v labels m).histograms
  unfolding observe
  observe-IsBounded name v labels m h = update_at-IsBounded (name, labels) v m.histograms h
