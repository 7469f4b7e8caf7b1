-- ===== src/Server/Bodies.antt =====
-- trade_post/api/server.py: the models of the requests' bodies. A body that its model refuses gets the
-- answer 422, and its handler does not run. A text's length is counted in characters.
pub mod Rows
pub mod Typed
use Prim.Native.String.{count}
use trade_post.Base.{
  ℕ, String, Bool, true, false, not, ◌&&◌, ◌||◌, Option, none, some, List, [], ◌∷◌, leb, str_eq,
  length, is_some, if◌then◌else◌,
}
use trade_post.Config.{Settings}
use trade_post.Domain.Records.{has_length, is_username, roles}
use trade_post.Domain.Texts.{of_value}
use trade_post.Persistence.{Database}
use trade_post.Server.Calls.{
  Call, logs_in, logs_out, changes_password, creates, updates, deletes, step,
}

-- `^(viewer|operator|admin)$` and `^(active|disabled)$`; the library takes `$` for the end alone.
abbrev pub is_role : String → Bool
is_role t = str_eq t "viewer" || str_eq t "operator" || str_eq t "admin"

abbrev pub is_status : String → Bool
is_status t = str_eq t "active" || str_eq t "disabled"

abbrev pub fits : (String → Bool) → Option String → Bool
fits p none = true
fits p (some t) = p t

abbrev pub login_request : String → String → Bool
login_request name password = has_length 1 120 name && has_length 1 512 password

abbrev pub change_password_request : String → String → Bool
change_password_request current new = has_length 1 512 current && has_length 8 512 new

abbrev pub create_user_request : String → String → String → Bool
create_user_request name password rank =
    has_length 3 64 name && has_length 8 512 password && is_role rank

abbrev pub update_user_request : Option String → Option String → Bool
update_user_request rank status = fits is_role rank && fits is_status status

-- `SubscribeRequest` and `AnalyzeRequest`.
abbrev pub subscribe_request : List String → Bool
subscribe_request symbols = leb 1 (length symbols) && leb (length symbols) 20

abbrev pub analyze_request : String → Bool
analyze_request symbol = has_length 1 32 symbol

unfoldable pub accepts : Call → Bool
accepts (logs_in r name password) = login_request name password
accepts (logs_out r) = true
accepts (changes_password r current new) = change_password_request current new
accepts (creates r name password rank mail) = create_user_request name password rank
accepts (updates r uid rank status) = update_user_request rank status
accepts (deletes r uid) = true

module _ {F : Type 0} (s : Settings F) (verify : String → String → Bool)
    (hash : String → String) where
  -- A request, with the check of its body before the handler.
  unfoldable pub receive : Call → Database → Database
  unfolding accepts
  receive c db = if accepts c then step s verify hash c db else db

  unfoldable pub receive_all : List Call → Database → Database
  unfolding receive
  receive_all [] db = db
  receive_all (c ∷ cs) db = receive_all cs (receive c db)
