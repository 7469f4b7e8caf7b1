-- ===== src/Server/Socket/Example.antt =====
-- The session of a user of some role, and requests, sockets and messages with it.
use trade_post.Base.{String, false, none, some, [], ◌∷◌, any_of, find_first}
use trade_post.Decimal.{Decimal}
use trade_post.Execution
use trade_post.Floats.Sample.{decimal_floats}
use trade_post.Orchestrator.{Orchestrator}
use trade_post.Orchestrator.Example.{start, scan, desk}
use trade_post.Persistence.{UserRow, SessionRow}
use trade_post.Persistence.Users.{new_user, get_user_by_id, get_active_session}
use trade_post.Samples.{database}
use trade_post.Security.{
  Identity, is_locked, is_active, resolve_session, current_user, require_role, validate_csrf_token,
}
use trade_post.Server.{Request}
use trade_post.Server.Control.{gate, perform, control}
use trade_post.Server.Socket.{Tick, Peer}

abbrev bob : String → UserRow
bob role = new_user "u2" "bob" none "pass" role 2

abbrev session : SessionRow
session = record {
  id = "sb";
  user_id = "u2";
  issued_at = 3;
  expires_at = 1000;
  ip = "10.0.0.1";
  user_agent = "curl";
  revoked = false;
  revoked_at = none;
}

-- The orchestrator on a database with the session of a user of a role.
abbrev pub office : String → Orchestrator Decimal
office role = record (desk start) {
  execution = record start {
    risk = record start.risk {
      db = record database { users = bob role ∷ []; sessions = session ∷ [] };
    };
  };
}

abbrev pub request : Request
request = record {
  cookie = some "sb";
  csrf_cookie = some "t";
  csrf_header = some "t";
  ip = "10.0.0.1";
  agent = "curl";
  seen = 500;
  checked = 500;
  now = 501;
  fresh = "sc";
}

abbrev pub who : String → Identity
who role = record {
  user_id = "u2";
  username = "bob";
  role = role;
  session_id = "sb";
  ip = "10.0.0.1";
}

abbrev pub peer : String → Peer
peer role = record { sid = "sb"; role = role; username = "bob" }

abbrev pub tick : Tick Decimal
tick = record { seen = 600; checked = 600; now = 600; scans = λ _. scan }

unfoldable pub program : Unit {0}
unfolding Execution.init find_first any_of get_user_by_id get_active_session is_locked is_active
    resolve_session current_user require_role validate_csrf_token gate perform control
program = tt
