-- ===== src/Server/Calls.antt =====
-- Sequences of requests to the handlers of sessions and users.
use trade_post.Base.{Bool, String, Option, List, [], ◌∷◌}
use trade_post.Config.{Settings}
use trade_post.Persistence.{Database}
use trade_post.Server.{
  Request, login, logout, change_password, create_user, update_user, delete_user,
}

pub data Call : Type 0 where
  logs_in : Request → String → String → Call
  logs_out : Request → Call
  changes_password : Request → String → String → Call
  creates : Request → String → String → String → Option String → Call
  updates : Request → String → Option String → Option String → Call
  deletes : Request → String → Call

module _ {F : Type 0} (s : Settings F) (verify : String → String → Bool)
    (hash : String → String) where
  unfoldable pub step : Call → Database → Database
  step (logs_in r name password) db = (login s verify r name password db).1
  step (logs_out r) db = logout r db
  step (changes_password r current new) db = (change_password s verify hash r current new db).1
  step (creates r name password rank mail) db = (create_user hash r name password rank mail db).1
  step (updates r uid rank status) db = (update_user r uid rank status db).1
  step (deletes r uid) db = (delete_user r uid db).1

  unfoldable pub run : List Call → Database → Database
  run [] db = db
  run (c ∷ cs) db = run cs (step c db)
