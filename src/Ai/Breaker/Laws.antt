-- ===== src/Ai/Breaker/Laws.antt =====
-- When the breaker of the client opens and closes.
use mathlib.Core.List.{append-nil, append_assoc}
use trade_post.Base.{
  ℕ, ◌⊎◌, ◌+◌, ◌≤◌, ◌<◌, ◌≡◌, ◌↔◌, refl, true, false, none, some, List, [], ◌∷◌, ◌++◌, arith, leb,
  if◌then◌else◌, length, length-append, keep_if, All, All-append, is_some,
}
use trade_post.Ai.Breaker.{Breaker, window, is_open, is_recent, record_failure}

-- The breaker reports open exactly while it was opened and the cool-down since then is not over;
-- and a report that it is closed leaves no opening behind.
is_open_iff :
    (now : ℕ) (b : Breaker)
    → (((is_open now b).0 ≡ true) ↔ ((t : ℕ) × (b.opened_at ≡ some t) × (now < t + b.cooldown)))
      × (((is_open now b).0 ≡ true) ⊎ ((is_open now b).1.opened_at ≡ none))
unfolding is_open
is_open_iff now b = ground arith

-- One call of `record_failure` at each time.
unfoldable pub fail_at : List ℕ → Breaker → Breaker
fail_at [] b = b
fail_at (t ∷ ts) b = fail_at ts (record_failure t b)

keep-All :
    (now : ℕ) (ts : List ℕ) → All (λ t. now < t + window) ts → keep_if (is_recent now) ts ≡ ts
unfolding keep_if
keep-All now [] h = refl
keep-All now (t ∷ ts) h = ground (arith, keep-All now ts h.1)

-- The time is no later than `last` and less than the window before it.
abbrev pub IsWithin : ℕ → ℕ → Type 0
IsWithin last t = (t ≤ last) × (last < t + window)

All-within :
    (last now : ℕ) (ts : List ℕ)
    → now ≤ last
    → All (IsWithin last) ts
    → All (λ t. now < t + window) ts
All-within last now [] h a = tt
All-within last now (t ∷ ts) h a = (omega arith, All-within last now ts h a.1)

-- The breaker after a failure that drops none of the earlier ones.
abbrev failed : ℕ → Breaker → Breaker
failed now b = record b {
  failures = b.failures ++ (now ∷ []);
  opened_at = if leb b.threshold (length (b.failures ++ (now ∷ []))) then some now else b.opened_at;
}

failed_lem :
    (now : ℕ) (b : Breaker)
    → keep_if (is_recent now) b.failures ≡ b.failures
    → record_failure now b ≡ failed now b
unfolding record_failure
failed_lem now b e = rw e

fail_at_counts :
    (last : ℕ) (ts : List ℕ) (b : Breaker)
    → All (IsWithin last) ts
    → All (IsWithin last) b.failures
    → ((fail_at ts b).failures ≡ b.failures ++ ts)
      × ((is_some b.opened_at ≡ true) → is_some (fail_at ts b).opened_at ≡ true)
      × (is_some b.opened_at ≡ false
          → length b.failures < b.threshold
          → is_some (fail_at ts b).opened_at ≡ leb b.threshold (length b.failures + length ts))
unfolding fail_at
fail_at_counts last [] b h k = ground (arith, append-nil b.failures)
fail_at_counts last (t ∷ ts) b h k =
    let same = failed_lem t b (keep-All t b.failures (All-within last t b.failures h.0.0 k)) in
    let grown = All-append (IsWithin last) b.failures (t ∷ []) k (h.0, tt) in
    rw (same, fail_at)
      (ground (
        arith,
        fail_at_counts last ts (failed t b) h.1 grown,
        append_assoc b.failures (t ∷ []) ts,
        length-append b.failures (t ∷ []),
      ))

-- Failures at times that lie within one minute open a closed breaker exactly when their count, with
-- those already kept from that minute, reaches the threshold; and all of them are kept.
pub breaker_opens :
    (last : ℕ) (ts : List ℕ) (b : Breaker)
    → All (IsWithin last) ts
    → All (IsWithin last) b.failures
    → b.opened_at ≡ none
    → length b.failures < b.threshold
    → ((fail_at ts b).failures ≡ b.failures ++ ts)
      × ((is_some (fail_at ts b).opened_at ≡ true) ↔ (b.threshold ≤ length b.failures + length ts))
breaker_opens last ts b h k closed below = ground (arith, fail_at_counts last ts b h k)

drop-All :
    (now : ℕ) (ts : List ℕ) → All (λ t. t + window ≤ now) ts → keep_if (is_recent now) ts ≡ []
unfolding keep_if
drop-All now [] h = refl
drop-All now (t ∷ ts) h = ground (arith, drop-All now ts h.1)

-- Where every kept failure is a minute old, a new one is the only one left, so that a breaker whose
-- threshold is above one stays as it was.
pub record_failure_forgets :
    (now : ℕ) (b : Breaker)
    → All (λ t. t + window ≤ now) b.failures
    → 1 < b.threshold
    → ((record_failure now b).failures ≡ now ∷ [])
      × ((record_failure now b).opened_at ≡ b.opened_at)
unfolding record_failure
record_failure_forgets now b old h = ground (arith, drop-All now b.failures old)
