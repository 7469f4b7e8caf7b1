-- ===== src/Server/Opening/Rows.antt =====
-- The rows of a login: users by their ids, and a new session.
use trade_post.Base.{
  ◌≡◌, subst, String, Bool, true, false, some, List, [], ◌∷◌, ◌++◌, map, arith, eq_iff,
  if◌then◌else◌, find_first, any_of, Bool-cases, inl, inr,
}
use trade_post.Persistence.{UserRow, SessionRow}
use trade_post.Persistence.Users.{has_user_id, has_username, has_session_id, is_unrevoked}

-- No two users share an id.
abbrev pub HasUniqueIds : List UserRow → Type 0
HasUniqueIds [] = Unit {0}
HasUniqueIds (u ∷ us) = (any_of (has_user_id u.id) us ≡ false) × HasUniqueIds us

find_first-any :
    {A : Type 0} (p : A → Bool) (xs : List A) (x : A)
    → find_first p xs ≡ some x
    → any_of p xs ≡ true
unfolding find_first any_of
find_first-any p [] x e = absurd (ground arith)
find_first-any p (y ∷ xs) x e = ground (arith, find_first-any p xs x)

-- The user found by a name is the one found by its id.
pub by_name-by_id :
    (n : String) (us : List UserRow) (u : UserRow)
    → HasUniqueIds us
    → find_first (has_username n) us ≡ some u
    → find_first (has_user_id u.id) us ≡ some u
unfolding find_first
by_name-by_id n [] u q e = absurd (ground arith)
by_name-by_id n (x ∷ us) u q e = elim (Bool-cases (has_username n x)) [
  | inl here ↦ ground (arith, eq_iff x.id u.id)
  | inr there ↦ later (by_name-by_id n us u q.1 (ground arith))
]
  where
    later :
        find_first (has_user_id u.id) us ≡ some u → find_first (has_user_id u.id) (x ∷ us) ≡ some u
    later found = elim (Bool-cases (has_user_id u.id x)) [
      | inr other ↦ ground arith
      | inl same ↦
          let known = find_first-any (has_user_id u.id) us u found in
          absurd (
            ground (
              arith,
              subst (λ i. any_of (has_user_id i) us ≡ false) ((eq_iff x.id u.id).0 same) q.0,
            ))
    ]

-- An update of the rows of one id is found at that id.
pub find_user-update :
    (i : String) (f : UserRow → UserRow) (us : List UserRow) (u : UserRow)
    → ((v : UserRow) → (f v).id ≡ v.id)
    → find_first (has_user_id i) us ≡ some u
    → find_first (has_user_id i) (map (λ v. if has_user_id i v then f v else v) us) ≡ some (f u)
unfolding find_first
find_user-update i f [] u same e = absurd (ground arith)
find_user-update i f (x ∷ us) u same e = ground (arith, find_user-update i f us u same, same x)

pub find_new :
    (s : SessionRow) (ss : List SessionRow)
    → any_of (has_session_id s.id) ss ≡ false
    → s.revoked ≡ false
    → find_first (is_unrevoked s.id) (ss ++ (s ∷ [])) ≡ some s
unfolding any_of find_first
find_new s [] h live = ground (arith, eq_iff s.id s.id)
find_new s (x ∷ ss) h live = ground (arith, find_new s ss)
