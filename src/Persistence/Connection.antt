-- ===== src/Persistence/Connection.antt =====
-- trade_post/persistence/database.py: the engine of a `Database`, its sessions, and the one database
-- of the process. What the driver answers is an argument.
use Prim.Native.Char.{code}
use Prim.Native.String.{◌++◌}
use trade_post.Base.{
  String, Bool, true, false, ◌&&◌, Option, none, some, is_some, starts, ◌==◌, if◌then◌else◌,
}

-- An engine with its session factory. On SQLite it allows other threads, waits 30 seconds for a lock,
-- and writes ahead.
pub record AsyncEngine : Type 0 where
  pub url : String
  pub is_sqlite : Bool

pub record Handle : Type 0 where
  pub database_url : String
  pub engine : Option AsyncEngine

abbrev pub engine_of : String → AsyncEngine
engine_of url = record { url = url; is_sqlite = starts "sqlite" url }

-- Whether `connect` returns, and the handle after it; `creates` is whether the engine can be made.
unfoldable pub connect : (creates : Bool) → Handle → Bool × Handle
connect creates h =
    if is_some h.engine
    then (true, h)
    else if creates
    then (true, record h { engine = some (engine_of h.database_url) })
    else (false, h)

-- The engine is kept where its disposal raises.
unfoldable pub disconnect : (disposes : Bool) → Handle → Bool × Handle
disconnect disposes h =
    if is_some h.engine
    then if disposes then (true, record h { engine = none }) else (false, h)
    else (true, h)

-- How a body in a session ends, and the tables after it.
pub data Scoped (A : Type 0) : Type 0 where
  not_initialized raised : Scoped A
  returned : A → Scoped A

-- `async with db.session()`: the body returns or raises; then the changes are committed, or they are
-- rolled back, also where the commit raises.
unfoldable pub session :
    {A T : Type 0} → Handle → (commits : Bool) → (T → Option A × T) → T → Scoped A × T
session h commits body t =
    let (answer, changed) = body t in
    let ended : Scoped _ × _ = elim answer [
      | none ↦ (raised, t)
      | some a ↦ if commits then (returned a, changed) else (raised, t)
    ] in
    if is_some h.engine then ended else (not_initialized, t)

-- `healthcheck`: a session in which `SELECT 1` answers.
unfoldable pub healthcheck : Handle → (answers commits : Bool) → Bool
healthcheck h answers commits = is_some h.engine && answers && commits

-- `init_database`: the settings of a second call are not looked at.
unfoldable pub init_database : String → Option Handle → Handle
init_database url none = record { database_url = url; engine = none }
init_database url (some h) = h

-- `url.split("@", 1)[1]`
unfoldable pub after_at : String → Option String
after_at String.[] = none
after_at (String.◌∷◌ c s) = let rest = after_at s in if code c == b'@' then some s else rest

-- `_redact_url`, for the line of the log.
unfoldable pub redact_url : String → String
unfolding after_at
redact_url url = elim (after_at url) [ none ↦ url | some tail ↦ "***@" ++ tail ]
