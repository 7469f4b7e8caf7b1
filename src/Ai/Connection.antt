-- ===== src/Ai/Connection.antt =====
-- trade_post/ai/ollama.py: the HTTP client of `OllamaClient`. What the server answers is an argument.
use trade_post.Base.{
  ℕ, String, Bool, true, false, not, ◌&&◌, Option, none, some, List, [], ◌∷◌, any_of, starts, ◌==◌,
  if◌then◌else◌,
}
use trade_post.Config.{is_true_text}

-- Whether `disconnect` returns, and whether there is a client after it: one that fails to close stays.
unfoldable pub disconnect : (closes : Bool) → Bool → Bool × Bool
disconnect closes http = if http then (closes, not closes) else (true, false)

-- `is_available`: the status of the answer, and none for an exception.
unfoldable pub is_available : (is_open http : Bool) → Option ℕ → Bool
is_available is_open http none = false
is_available is_open http (some status) = not is_open && http && status == 200

-- The names of the models that have one.
unfoldable pub names_of : List (Option String) → List String
names_of [] = []
names_of (none ∷ ms) = names_of ms
names_of (some m ∷ ms) = let rest = names_of ms in if is_true_text m then m ∷ rest else rest

-- `list_models` makes the client where there is none: the names, or none for an exception, and
-- whether there is a client after it.
unfoldable pub list_models : Option (List (Option String)) → Bool → Option (List String) × Bool
unfolding names_of
list_models none http = (none, true)
list_models (some ms) http = (some (names_of ms), true)

-- `ensure_model` only logs: whether the model is there, and none for an exception.
unfoldable pub ensure_model : String → Option (List (Option String)) → Bool → Option Bool × Bool
unfolding list_models
ensure_model model answer http =
    let (models, client) = list_models answer http in
    (elim models [ none ↦ none | some ms ↦ some (any_of (λ m. starts model m) ms) ], client)
