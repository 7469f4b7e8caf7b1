-- ===== src/Orchestrator/Startup.antt =====
-- trade_post/orchestrator/runtime.py: `startup_core` and `_bootstrap_admin`, on a connected database
-- after its migrations.
pub mod Admin
use trade_post.Base.{
  ℕ, ◌≡◌, ◌⊎◌, inl, inr, refl, ◌∙◌, ap, sym, String, Bool, true, false, Option, none, some, List,
  [], ◌∷◌, ◌++◌, arith, str_eq, eq_iff, find_first, any_of, is_some, if◌then◌else◌, Bool-cases,
  Option-cases,
}
use trade_post.Config.{Settings, is_true_text}
use trade_post.Execution
use trade_post.Execution.{Execution}
use trade_post.Floats.{Floats}
use trade_post.Persistence.{Database, UserRow}
use trade_post.Persistence.Users.{
  get_user_by_username, has_username, new_user, insert_user, insert_event,
}
use trade_post.Risk.{Engine, bind_database, load}

-- The random texts and the clock of one start, and whether its session commits.
pub record Start : Type 0 where
  pub user_id : String
  pub token : String  -- the one-time password
  pub created : ℕ
  pub commits : Bool

-- The password that the settings give, or the one-time one.
abbrev pub password_of : Option String → String → String
password_of none token = token
password_of (some p) token = if is_true_text p then p else token

module _ {F : Type 0} (hash : String → String) where
  abbrev pub admin_row : Settings F → Start → UserRow
  admin_row s start =
      new_user start.user_id "admin" none (hash (password_of s.drox_admin_password start.token))
        "admin" start.created

  -- `_bootstrap_admin`; an id that is taken raises.
  unfoldable pub bootstrap_admin : Settings F → Start → Database → Option Database
  bootstrap_admin s start db = elim (insert_user (admin_row s start) db) [
    | none ↦ none
    | some db' ↦ some (
        insert_event (record { type = "account_created"; severity = "warning"; actor = "system" })
          db')
  ]

  unfoldable pub ensure_admin : Settings F → Start → Database → Option Database
  unfolding bootstrap_admin
  ensure_admin s start db =
      if is_some (get_user_by_username "admin" db) then some db else bootstrap_admin s start db

-- The risk engine of the process that starts, and an exception as `none`. The repository of the
-- execution engine stands on the session of this start, whose later writes nothing commits: the tables
-- of the result are those that this session sees, and the commit that is missing is left out.
unfoldable pub startup_core :
    {F : Type 0} ⦃fl : Floats F⦄ → (String → String) → Start → Engine F → Option (Execution F)
startup_core hash start e =
    let loaded = load (bind_database e) in
    elim (ensure_admin hash e.settings start e.db) [
      | none ↦ none
      | some db ↦ if start.commits then some (Execution.init (record loaded { db = db })) else none
    ]
