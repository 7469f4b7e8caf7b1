-- ===== src/Orchestrator/Subscriptions/Sets.antt =====
-- The list of subscriptions against a set of symbols.
use Prim.Native.Char.{Char}
use mathlib.Core.Path.{fun_ext}
use trade_post.Base.{
  ◌≡◌, refl, String, Bool, false, not, ◌&&◌, ◌||◌, List, [], ◌∷◌, ◌++◌, arith, str_eq, eq_iff,
  any_of,
}
use trade_post.Config.{is_true_text}
use trade_post.Orchestrator.{Orchestrator}
use trade_post.Orchestrator.Subscriptions.{
  contains, remove_first, normal, subscribed, unsubscribed, symbols_of, subscribe_symbol,
  unsubscribe_symbol,
}

-- A set of symbols, by its members.
abbrev pub SymbolSet : Type 0
SymbolSet = String → Bool

pub data Change : Type 0 where
  subscribes : String → Change
  unsubscribes : String → Change

abbrev pub IsDistinct : List String → Type 0
IsDistinct [] = Unit {0}
IsDistinct (s ∷ ss) = (contains s ss ≡ false) × IsDistinct ss

contains-append :
    (k s : String) (ss : List String) → contains k (ss ++ (s ∷ [])) ≡ (contains k ss || str_eq s k)
unfolding any_of
contains-append k s [] = ground arith
contains-append k s (x ∷ ss) = ground (arith, contains-append k s ss)

append-IsDistinct :
    (s : String) (ss : List String)
    → contains s ss ≡ false
    → IsDistinct ss
    → IsDistinct (ss ++ (s ∷ []))
unfolding any_of
append-IsDistinct s [] h d = (refl, tt)
append-IsDistinct s (x ∷ ss) h d =
    ground (arith, contains-append x s ss, append-IsDistinct s ss, eq_iff x s, eq_iff s x)

contains-remove_first :
    (k s : String) (ss : List String)
    → IsDistinct ss
    → contains k (remove_first s ss) ≡ (contains k ss && not (str_eq s k))
unfolding any_of remove_first
contains-remove_first k s [] d = refl
contains-remove_first k s (x ∷ ss) d =
    ground (arith, contains-remove_first k s ss, eq_iff x s, eq_iff x k, eq_iff s k)

remove_first-IsDistinct :
    (s : String) (ss : List String) → IsDistinct ss → IsDistinct (remove_first s ss)
unfolding any_of remove_first
remove_first-IsDistinct s [] d = tt
remove_first-IsDistinct s (x ∷ ss) d =
    ground (arith, remove_first-IsDistinct s ss, contains-remove_first x s ss)

subscribed-refines :
    (n : String) (ss : List String)
    → IsDistinct ss
    → ((subscribed n ss).0 ≡ (is_true_text n && not (contains n ss)))
      × ((k : String)
          → contains k (subscribed n ss).1 ≡ (contains k ss || (is_true_text n && str_eq n k)))
      × IsDistinct (subscribed n ss).1
unfolding subscribed
subscribed-refines n ss d = (ground arith, members, distinct)
  where
    members :
        (k : String)
        → contains k (subscribed n ss).1 ≡ (contains k ss || (is_true_text n && str_eq n k))
    members k = ground (arith, contains-append k n ss, eq_iff n k)

    distinct : IsDistinct (subscribed n ss).1
    distinct = ground (arith, append-IsDistinct n ss)

unsubscribed-refines :
    (n : String) (ss : List String)
    → IsDistinct ss
    → ((unsubscribed n ss).0 ≡ (is_true_text n && contains n ss))
      × ((k : String)
          → contains k (unsubscribed n ss).1
            ≡ (contains k ss && not (is_true_text n && str_eq n k)))
      × IsDistinct (unsubscribed n ss).1
unfolding unsubscribed
unsubscribed-refines n ss d = (ground arith, members, distinct)
  where
    members :
        (k : String)
        → contains k (unsubscribed n ss).1 ≡ (contains k ss && not (is_true_text n && str_eq n k))
    members k = ground (arith, contains-remove_first k n ss, eq_iff n k)

    distinct : IsDistinct (unsubscribed n ss).1
    distinct = ground (arith, remove_first-IsDistinct n ss)

-- The set of the symbols that an orchestrator has subscribed to.
abbrev pub view : {F : Type 0} → Orchestrator F → SymbolSet
view o = λ k. contains k (symbols_of o)

module _ (wide : Char → String) where
  -- What a change does to a set, and whether it changes it. An empty symbol does nothing.
  abbrev pub change_set : Change → SymbolSet → Bool × SymbolSet
  change_set (subscribes s) p =
      let n = normal wide s in
      (is_true_text n && not (p n), λ k. p k || (is_true_text n && str_eq n k))
  change_set (unsubscribes s) p =
      let n = normal wide s in
      (is_true_text n && p n, λ k. p k && not (is_true_text n && str_eq n k))

  -- The answers of a sequence of changes, and the set after it.
  unfoldable pub change_sets : List Change → SymbolSet → List Bool × SymbolSet
  change_sets [] p = ([], p)
  change_sets (c ∷ cs) p =
      let (b, q) = change_set c p in let (bs, r) = change_sets cs q in (b ∷ bs, r)

  module _ {F : Type 0} where
    unfoldable pub change : Change → Orchestrator F → Bool × Orchestrator F
    change (subscribes s) o = subscribe_symbol wide s o
    change (unsubscribes s) o = unsubscribe_symbol wide s o

    unfoldable pub changes : List Change → Orchestrator F → List Bool × Orchestrator F
    unfolding change
    changes [] o = ([], o)
    changes (c ∷ cs) o = let (b, o') = change c o in let (bs, o'') = changes cs o' in (b ∷ bs, o'')

    change-refines :
        (c : Change) (o : Orchestrator F)
        → IsDistinct (symbols_of o)
        → ((change c o).0 ≡ (change_set c (view o)).0)
          × (view (change c o).1 ≡ (change_set c (view o)).1)
          × IsDistinct (symbols_of (change c o).1)
    unfolding change subscribe_symbol unsubscribe_symbol
    change-refines (subscribes s) o d =
        let (answer, members, distinct) = subscribed-refines (normal wide s) (symbols_of o) d in
        (answer, fun_ext members, distinct)
    change-refines (unsubscribes s) o d =
        let (answer, members, distinct) = unsubscribed-refines (normal wide s) (symbols_of o) d in
        (answer, fun_ext members, distinct)

    -- Where no symbol is listed twice, any sequence of subscriptions and their withdrawals answers and
    -- acts as on a set of symbols, in which each symbol is first stripped and put in upper case; and
    -- it leaves no symbol listed twice.
    pub changes-refines :
        (cs : List Change) (o : Orchestrator F)
        → IsDistinct (symbols_of o)
        → ((changes cs o).0 ≡ (change_sets cs (view o)).0)
          × (view (changes cs o).1 ≡ (change_sets cs (view o)).1)
          × IsDistinct (symbols_of (changes cs o).1)
    unfolding changes change_sets
    changes-refines [] o d = (refl, refl, d)
    changes-refines (c ∷ cs) o d =
        let (answer, members, distinct) = change-refines c o d in
        let (answers, after, distincts) = changes-refines cs (change c o).1 distinct in
        rw (← members) (ground (arith, answer, answers, after, distincts))
