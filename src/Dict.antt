-- ===== src/Dict.antt =====
-- A Python dict with text keys, in the order of insertion.
use trade_post.Base.{
  ◌≡◌, ◌≢◌, refl, String, Option, none, some, List, [], ◌∷◌, arith, str_eq, eq_iff, if◌then◌else◌,
  or_else,
}

abbrev pub Dict {ℓ} : Type ℓ → Type ℓ
Dict V = List (String × V)

module _ {ℓ} {V : Type ℓ} where
  -- `d.get(k)`
  unfoldable pub get : String → Dict V → Option V
  get k [] = none
  get k ((j, v) ∷ d) = let rest = get k d in if str_eq j k then some v else rest

  -- `d[k] = v`
  unfoldable pub put : String → V → Dict V → Dict V
  put k v [] = (k, v) ∷ []
  put k v ((j, w) ∷ d) = let rest = put k v d in if str_eq j k then (j, v) ∷ d else (j, w) ∷ rest

  -- `d.pop(k, None)`
  unfoldable pub pop : String → Dict V → Dict V
  pop k [] = []
  pop k ((j, w) ∷ d) = let rest = pop k d in if str_eq j k then d else (j, w) ∷ rest

  -- `d.get(k, v)`
  abbrev pub get_or : String → V → Dict V → V
  get_or k v d = or_else (get k d) v

  pub get-put :
      (k j : String) (v : V) (d : Dict V)
      → get j (put k v d) ≡ (if str_eq k j then some v else get j d)
  unfolding get put
  get-put k j v [] = refl
  get-put k j v ((i, w) ∷ d) = ground (arith, eq_iff k j, eq_iff i k, eq_iff i j, get-put k j v d)

  pub get-pop_ne : (k j : String) (d : Dict V) → k ≢ j → get j (pop k d) ≡ get j d
  unfolding get pop
  get-pop_ne k j [] h = refl
  get-pop_ne k j ((i, w) ∷ d) h = ground (arith, eq_iff i k, eq_iff i j, get-pop_ne k j d h)
