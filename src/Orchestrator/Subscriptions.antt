-- ===== src/Orchestrator/Subscriptions.antt =====
-- trade_post/orchestrator/runtime.py: `subscribe_symbol` and `unsubscribe_symbol`, on the list of the
-- settings. `wide` gives the upper case of a character beyond ASCII.
pub mod Sets
use Prim.Native.Char.{Char}
use trade_post.Base.{
  String, Bool, true, false, not, ◌&&◌, ◌||◌, List, [], ◌∷◌, ◌++◌, str_eq, strip, upper, any_of,
  if◌then◌else◌,
}
use trade_post.Config.{Settings, is_true_text}
use trade_post.Orchestrator.{Orchestrator}

abbrev pub contains : String → List String → Bool
contains symbol symbols = any_of (λ s. str_eq s symbol) symbols

-- `symbols.remove(symbol)`, of a symbol that is there: the first one goes.
unfoldable pub remove_first : String → List String → List String
remove_first symbol [] = []
remove_first symbol (s ∷ ss) =
    let rest = remove_first symbol ss in if str_eq s symbol then ss else s ∷ rest

-- `(symbol or "").strip().upper()`
abbrev pub normal : (Char → String) → String → String
normal wide symbol = upper wide (strip symbol)

unfoldable pub subscribed : String → List String → Bool × List String
subscribed symbol symbols =
    if not (is_true_text symbol) || contains symbol symbols
    then (false, symbols)
    else (true, symbols ++ (symbol ∷ []))

unfoldable pub unsubscribed : String → List String → Bool × List String
unsubscribed symbol symbols =
    if is_true_text symbol && contains symbol symbols
    then (true, remove_first symbol symbols)
    else (false, symbols)

module _ {F : Type 0} where
  abbrev pub symbols_of : Orchestrator F → List String
  symbols_of o = o.execution.risk.settings.subscribed_symbols

  abbrev pub with_symbols : List String → Orchestrator F → Orchestrator F
  with_symbols symbols o = record o {
    execution = record o.execution {
      risk = record o.execution.risk {
        settings = record o.execution.risk.settings { subscribed_symbols = symbols };
      };
    };
  }

  unfoldable pub subscribe_symbol :
      (Char → String) → String → Orchestrator F → Bool × Orchestrator F
  unfolding subscribed
  subscribe_symbol wide symbol o =
      let (added, symbols) = subscribed (normal wide symbol) (symbols_of o) in
      (added, with_symbols symbols o)

  unfoldable pub unsubscribe_symbol :
      (Char → String) → String → Orchestrator F → Bool × Orchestrator F
  unfolding unsubscribed
  unsubscribe_symbol wide symbol o =
      let (removed, symbols) = unsubscribed (normal wide symbol) (symbols_of o) in
      (removed, with_symbols symbols o)
