-- ===== src/Server/Bodies/Rows.antt =====
-- The statements on users keep their rows such as the data model `User` takes.
use trade_post.Base.{
  ℕ, ◌≡◌, refl, String, Bool, true, ◌&&◌, ◌||◌, Option, none, some, List, [], ◌∷◌, ◌++◌, map, arith,
  eq_iff, if◌then◌else◌, &&-true, if_either, is_some, keep_if,
}
use trade_post.Domain.Records.{is_username, roles}
use trade_post.Domain.Texts.{of_value}
use trade_post.Persistence.{Database, UserRow, SessionRow}
use trade_post.Persistence.Users.{
  has_user_id, update_user_row, update_user_login, update_user_password, reset_failed_login,
  update_user_role_status, insert_session, new_user, given,
}
use trade_post.Server.Bodies.{is_role, is_status, fits, create_user_request, update_user_request}

-- The username has 3 to 64 characters, `Role` takes the role, and the account is active or disabled.
abbrev pub is_typed : UserRow → Bool
is_typed u = is_username u.username && is_some (of_value roles u.role) && is_status u.account_status

unfoldable pub all_typed : List UserRow → Bool
all_typed [] = true
all_typed (u ∷ us) = is_typed u && all_typed us

pub all_typed-append :
    (us : List UserRow) (u : UserRow)
    → all_typed us ≡ true
    → is_typed u ≡ true
    → all_typed (us ++ (u ∷ [])) ≡ true
unfolding all_typed
all_typed-append [] u h k = ground arith
all_typed-append (x ∷ us) u h k = ground (arith, all_typed-append us u)

pub all_typed-keep_if :
    (p : UserRow → Bool) (us : List UserRow) → all_typed us ≡ true → all_typed (keep_if p us) ≡ true
unfolding all_typed keep_if
all_typed-keep_if p [] h = refl
all_typed-keep_if p (u ∷ us) h = ground (arith, all_typed-keep_if p us)

module _ (i : String) (f : UserRow → UserRow)
    (typed : (u : UserRow) → is_typed u ≡ true → is_typed (f u) ≡ true) where
  all_typed-map :
      (us : List UserRow)
      → all_typed us ≡ true
      → all_typed (map (λ u. if has_user_id i u then f u else u) us) ≡ true
  unfolding all_typed
  all_typed-map [] h = refl
  all_typed-map (u ∷ us) h =
      let both = &&-true {a = is_typed u} {b = all_typed us} h in
      cc (
        if_either (λ v. is_typed v ≡ true) (has_user_id i u) (f u) u (typed u both.0) both.0,
        all_typed-map us both.1,
      )

-- The database holds typed users only.
abbrev pub IsTyped : Database → Type 0
IsTyped db = all_typed db.users ≡ true

update_user_row-IsTyped :
    (i : String) (f : UserRow → UserRow) (db : Database)
    → ((u : UserRow) → is_typed u ≡ true → is_typed (f u) ≡ true)
    → IsTyped db
    → IsTyped (update_user_row i f db)
unfolding update_user_row
update_user_row-IsTyped i f db typed h = all_typed-map i f typed db.users h

pub reset_failed_login-IsTyped :
    (i : String) (db : Database) → IsTyped db → IsTyped (reset_failed_login i db)
unfolding reset_failed_login
reset_failed_login-IsTyped i db h = update_user_row-IsTyped i _ db (λ u k. k) h

pub update_user_login-IsTyped :
    (i : String) (when : ℕ) (db : Database) → IsTyped db → IsTyped (update_user_login i when db)
unfolding update_user_login
update_user_login-IsTyped i when db h = update_user_row-IsTyped i _ db (λ u k. k) h

pub update_user_password-IsTyped :
    (i digest : String) (db : Database) → IsTyped db → IsTyped (update_user_password i digest db)
unfolding update_user_password
update_user_password-IsTyped i digest db h = update_user_row-IsTyped i _ db (λ u k. k) h

pub insert_session-IsTyped :
    (x : SessionRow) (db db' : Database) → insert_session x db ≡ some db' → IsTyped db → IsTyped db'
unfolding insert_session
insert_session-IsTyped x db db' e h = ground arith

is_role-of_value : (t : String) → is_role t ≡ true → is_some (of_value roles t) ≡ true
unfolding of_value
is_role-of_value t h = ground (
  arith,
  eq_iff t "viewer",
  eq_iff t "operator",
  eq_iff t "admin",
  eq_iff "viewer" t,
  eq_iff "operator" t,
  eq_iff "admin" t,
)

-- The row that a request makes.
pub new_user-IsTyped :
    (i name hashed rank password : String) (mail : Option String) (now : ℕ)
    → create_user_request name password rank ≡ true
    → is_typed (new_user i name mail hashed rank now) ≡ true
new_user-IsTyped i name hashed rank password mail now ok =
    ground (arith, is_role-of_value rank, eq_iff "active" "active")

given-role :
    (rank : Option String) (u : UserRow)
    → fits is_role rank ≡ true
    → is_some (of_value roles u.role) ≡ true
    → is_some (of_value roles (given rank u.role)) ≡ true
given-role none u ok h = h
given-role (some t) u ok h = is_role-of_value t ok

given-status :
    (status : Option String) (u : UserRow)
    → fits is_status status ≡ true
    → is_status u.account_status ≡ true
    → is_status (given status u.account_status) ≡ true
given-status none u ok h = h
given-status (some t) u ok h = ok

pub update_user_role_status-IsTyped :
    (now : ℕ) (uid : String) (rank status : Option String) (db : Database)
    → update_user_request rank status ≡ true
    → IsTyped db
    → IsTyped (update_user_role_status now uid rank status db)
unfolding update_user_role_status
update_user_role_status-IsTyped now uid rank status db ok h =
    if_either IsTyped (is_some rank || is_some status) _ db
      (update_user_row-IsTyped uid _ db
        (λ u k. ground (arith, given-role rank u, given-status status u)) h)
      h
