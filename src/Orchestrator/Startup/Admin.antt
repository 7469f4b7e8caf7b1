-- ===== src/Orchestrator/Startup/Admin.antt =====
-- The first administrator, over several starts.
use trade_post.Base.{
  ◌≡◌, ◌⊎◌, inl, inr, refl, ◌∙◌, String, Bool, true, Option, none, some, List, [], ◌∷◌, ◌++◌, arith,
  eq_iff, find_first, Option-cases,
}
use trade_post.Config.{Settings}
use trade_post.Execution
use trade_post.Execution.{Execution}
use trade_post.Floats.{Floats}
use trade_post.Orchestrator.Startup.{Start, admin_row, bootstrap_admin, ensure_admin, startup_core}
use trade_post.Persistence.{Database, UserRow, EventRow}
use trade_post.Persistence.Users.{get_user_by_username, has_username, insert_user, insert_event}
use trade_post.Risk.{Engine}

find_first-append :
    {A : Type 0} (p : A → Bool) (xs : List A) (a : A)
    → find_first p xs ≡ none
    → p a ≡ true
    → find_first p (xs ++ (a ∷ [])) ≡ some a
unfolding find_first
find_first-append p [] a h e = ground arith
find_first-append p (x ∷ xs) a h e = ground (arith, find_first-append p xs a)

insert_user-found :
    (u : UserRow) (db db' : Database)
    → get_user_by_username u.username db ≡ none
    → insert_user u db ≡ some db'
    → get_user_by_username u.username db' ≡ some u
unfolding get_user_by_username insert_user
insert_user-found u db db' h inserted =
    ground
      (arith, find_first-append (has_username u.username) db.users u, eq_iff u.username u.username)

insert_event-kept :
    (e : EventRow) (db : Database)
    → get_user_by_username "admin" (insert_event e db) ≡ get_user_by_username "admin" db
unfolding get_user_by_username insert_event
insert_event-kept e db = refl

module _ {F : Type 0} (hash : String → String) where
  -- Who is named admin after a start.
  abbrev pub IsBootstrapped : Settings F → Start → (before after : Database) → UserRow → Type 0
  IsBootstrapped s start before after u =
      (get_user_by_username "admin" after ≡ some u)
      × (((get_user_by_username "admin" before ≡ some u) × (after ≡ before))
          ⊎ ((get_user_by_username "admin" before ≡ none)
              × (u ≡ admin_row hash s start)
              × (u.role ≡ "admin")
              × (u.account_status ≡ "active")))

  bootstrap_admin-found :
      (s : Settings F) (start : Start) (db db' : Database)
      → get_user_by_username "admin" db ≡ none
      → bootstrap_admin hash s start db ≡ some db'
      → get_user_by_username "admin" db' ≡ some (admin_row hash s start)
  unfolding bootstrap_admin
  bootstrap_admin-found s start db db' missing h = at (insert_user (admin_row hash s start) db) refl
    where
      named :
          (new : Database)
          → get_user_by_username "admin" new ≡ some (admin_row hash s start)
          → db'
            ≡ insert_event
                (record { type = "account_created"; severity = "warning"; actor = "system" })
                new
          → get_user_by_username "admin" db' ≡ some (admin_row hash s start)
      named new found e = rw e (insert_event-kept _ new ∙ found)

      at :
          (o : Option Database)
          → insert_user (admin_row hash s start) db ≡ o
          → get_user_by_username "admin" db' ≡ some (admin_row hash s start)
      at none e = ground (arith, h, e)
      at (some new) e =
          named new (insert_user-found (admin_row hash s start) db new missing e)
            (ground (arith, h, e))

  ensure_admin-IsBootstrapped :
      (s : Settings F) (start : Start) (db db' : Database)
      → ensure_admin hash s start db ≡ some db'
      → (u : UserRow) × IsBootstrapped s start db db' u
  unfolding ensure_admin
  ensure_admin-IsBootstrapped s start db db' h =
      elim (Option-cases (get_user_by_username "admin" db)) [
        | inr (u, found) ↦ (u, (ground (arith, found), inl (found, ground (arith, found))))
        | inl missing ↦ (
          admin_row hash s start,
          (
            bootstrap_admin-found s start db db' missing (ground (arith, missing)),
            inr (missing, refl, refl, refl),
          ),
        )
      ]

module _ {F : Type 0} ⦃fl : Floats F⦄ (hash : String → String) where
  started_db :
      (start : Start) (e : Engine F) (x : Execution F)
      → startup_core hash start e ≡ some x
      → ensure_admin hash e.settings start e.db ≡ some x.risk.db
  unfolding startup_core Execution.init
  started_db start e x h = at (ensure_admin hash e.settings start e.db) refl
    where
      at :
          (o : Option Database)
          → ensure_admin hash e.settings start e.db ≡ o
          → ensure_admin hash e.settings start e.db ≡ some x.risk.db
      at none k = ground (arith, h, k)
      at (some db) k = ground (arith, h, k)

  -- After a start that succeeds there is a user named admin: either the one who was there before,
  -- whatever its role and status, and then the start changes nothing in the database, or, where there
  -- was none, a new active one with the role admin and with the password of the settings or the
  -- one-time password. And a second start that succeeds changes nothing in the database.
  pub startup_twice :
      (first second : Start) (e : Engine F) (x y : Execution F)
      → startup_core hash first e ≡ some x
      → startup_core hash second x.risk ≡ some y
      → ((u : UserRow) × IsBootstrapped hash e.settings first e.db x.risk.db u)
        × (y.risk.db ≡ x.risk.db)
  startup_twice first second e x y started again =
      let (u, admin) =
        ensure_admin-IsBootstrapped hash e.settings first e.db x.risk.db
          (started_db first e x started) in
      let (v, next) =
        ensure_admin-IsBootstrapped hash x.risk.settings second x.risk.db y.risk.db
          (started_db second x.risk y again) in
      ((u, admin), same u v admin.0 next.1)
    where
      same :
          (u v : UserRow)
          → get_user_by_username "admin" x.risk.db ≡ some u
          → ((get_user_by_username "admin" x.risk.db ≡ some v) × (y.risk.db ≡ x.risk.db))
            ⊎ ((get_user_by_username "admin" x.risk.db ≡ none)
                × (v ≡ admin_row hash x.risk.settings second)
                × (v.role ≡ "admin")
                × (v.account_status ≡ "active"))
          → y.risk.db ≡ x.risk.db
      same u v found (inl (kept, e)) = e
      same u v found (inr (missing, e, role, status)) = cc
