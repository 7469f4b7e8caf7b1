-- ===== src/Base/Strip.antt =====
-- `str.strip()` leaves nothing to strip.
use Prim.Native.Char.{Char}
use mathlib.Core.Path.{◌≡◌, refl, ap, ◌∙◌}
use mathlib.Core.Logic.{inl, inr}
use mathlib.Core.Bool.{true, false}
use native.Mathlib.Omega.{arith}
use Prim.Native.String.{String}
use trade_post.Base.Tests.{Bool-cases}
use trade_post.Base.Texts.{strip, lstrip, rstrip, is_space}

rstrip_kept :
    (c : Char) (s : String) → is_space c ≡ false → rstrip (String.◌∷◌ c s) ≡ String.◌∷◌ c (rstrip s)
unfolding rstrip
rstrip_kept c s h = rw h refl

rstrip_idem : (s : String) → rstrip (rstrip s) ≡ rstrip s
unfolding rstrip
rstrip_idem String.[] = refl
rstrip_idem (String.◌∷◌ c s) = ground (arith, rstrip_idem s)

lstrip_other :
    (c : Char) (s : String) → is_space c ≡ false → lstrip (String.◌∷◌ c s) ≡ String.◌∷◌ c s
unfolding lstrip
lstrip_other c s h = rw h refl

lstrip_space : (c : Char) (s : String) → is_space c ≡ true → lstrip (String.◌∷◌ c s) ≡ lstrip s
unfolding lstrip
lstrip_space c s h = rw h refl

nothing_kept : lstrip (rstrip (lstrip String.[])) ≡ rstrip (lstrip String.[])
unfolding lstrip rstrip
nothing_kept = refl

lstrip_kept : (s : String) → lstrip (rstrip (lstrip s)) ≡ rstrip (lstrip s)
lstrip_kept String.[] = nothing_kept
lstrip_kept (String.◌∷◌ c s) = elim (Bool-cases (is_space c)) [
  | inl space ↦ rw (lstrip_space c s space) (lstrip_kept s)
  | inr other ↦
      rw (lstrip_other c s other, rstrip_kept c s other, lstrip_other c (rstrip s) other) refl
]

pub strip_idem : (s : String) → strip (strip s) ≡ strip s
unfolding strip
strip_idem s = ap rstrip (lstrip_kept s) ∙ rstrip_idem (lstrip s)
