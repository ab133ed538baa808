-- ===== src/Server.antt =====
-- The chat server as a whole: the callbacks of IMServer.cpp, and OnRead of each open connection, one
-- after the other in the event loop.
pub mod Ensures
pub mod Grown
pub mod Handled
pub mod Kept
pub mod Loads
pub mod Start
pub mod Restart
mod Tests
mod StartTests
mod RestartTests
use sever_code.Prelude.{Bool, List, Bytes, ok, ◌≡◌, true}
use sever_code.Users.Types.{SqlClient, World}
use sever_code.Connections.{SessionEntry, has_key, on_connection}
use sever_code.Session.{JsonLib}
use sever_code.Session.TableId.{TimeLib, Moment}
use sever_code.Session.Process.{on_read}

-- The sessions by connection, and what UserManager has in memory, with the database server.
pub record ServerState (S : Type 0) : Type 0 where
  pub sessions : List SessionEntry
  pub world : World S

module _ (J : JsonLib) (D : SqlClient) (T : TimeLib) where
  -- A connection opens or closes, or an open one has bytes to read and the handler returns.
  pub data Step : ServerState D.Server → ServerState D.Server → Type 0 where
    connection :
        (s : ServerState D.Server) (connected : Bool) (key : Bytes)
        → Step s (record s { sessions = on_connection connected key s.sessions })
    message :
        (s : ServerState D.Server) (key : Bytes) (moment : Moment) (buf : Bytes) (closed : Bool)
        (out : List Bytes) (w : World D.Server)
        → has_key key s.sessions ≡ true
        → on_read J D T moment buf s.world ≡ ok (closed, (out, w))
        → Step s (record s { world = w })

  pub data Reach (s : ServerState D.Server) : ServerState D.Server → Type 0 where
    here : Reach s s
    next : {t u : ServerState D.Server} → Reach s t → Step t u → Reach s u
