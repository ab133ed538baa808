-- ===== src/Server/Start.antt =====
-- The start of the chat server (main of ServerMain.cpp), behind the options and the signals. The
-- password of the database is a parameter.
use sever_code.Prelude.{
  Bool, List, ℕ, ◌<◌, ◌%◌, ◌^◌, ◌-◌, ◌≡◌, refl, ap, true, Option, none, some, [], Bytes, text,
  length, if◌then◌else◌,
}
use sever_code.Prelude.{Outcome, ok, fault, bad_access, ◌>>=◌}
use sever_code.Sql.{Column, QueryResult, ResultSet, new_query_result}
use sever_code.Users.Types.{UserManager, World}
use sever_code.Users.Loading.{users_table}
use sever_code.Users.Loading as Loading
use sever_code.Users.Loaded.{init_empty}
use sever_code.Database.{MySqlLib, Link, query, send, attempt, real_query, stored_result}
use sever_code.Database.Manager.{MySqlManager, manager_query, on_tool}
use sever_code.Database.Manager as Manager
use sever_code.Database.Schema.{tables}
use sever_code.Database.Client.{client_of, run_query, managed}
use sever_code.Server.{ServerState}

abbrev pub new_manager : UserManager
new_manager = record {
  cached_users = [];
  cache_video_info = [];
  cache_audio_info = [];
  cache_word_info = [];
  cache_browse_info = [];
  cache_collect_info = [];
  map_users = [];
  base_user_id = 0;
}

-- What main comes to: the value that it returns, as 32 bits, or the event loop.
pub data Started (S : Type 0) : Type 0 where
  exited : ℕ → Started S
  running : ServerState S → Started S

module _ (L : MySqlLib) where
  -- `UserManager::Init` over the database manager: a crash in a query is one of the process.
  unfoldable pub init_users :
      MySqlManager L.Server → Outcome (Bool × World (Outcome (MySqlManager L.Server)))
  init_users m = do
    loaded ← Loading.init (client_of L) (record { manager = new_manager; server = ok m })
    elim (loaded.1.server) [ fault f ↦ fault f | ok m' ↦ ok loaded ]

  unfoldable pub start : ℕ → Bytes → L.Server → Outcome (Started (Outcome (MySqlManager L.Server)))
  unfolding init_users
  start fuel passwd server = do
    prepared ←
        Manager.init L fuel (text "127.0.0.1") (text "debian-sys-maint") passwd (text "learnMS_DB")
          3306 tables (record { tool = none; server = server })
    if prepared.0
        then (do
          loaded ← init_users prepared.1
          ok (
              if loaded.0
              then running (record { sessions = []; world = loaded.1 })
              else exited (2 ^ 32 - 3)))
        else ok (exited (2 ^ 32 - 2))

  query_stored :
      (sql : Bytes) (l : Link L.Server) (rs : ResultSet)
      → l.tool.connected ≡ true
      → (L.query sql l.server).0 ≡ 0
      → L.stored (L.query sql l.server).1 ≡ some rs
      → query L sql l
        ≡ ok (
          some (new_query_result rs (L.affected (L.query sql l.server).1 % 2 ^ 32)),
          record l { server = (L.query sql l.server).1 },
        )
  unfolding query send attempt real_query stored_result
  query_stored sql l rs c e stored = rw (c) (rw (e) (rw (stored, stored_result) refl))

  manager_query-query :
      (sql : Bytes) (l l' : Link L.Server) (r : Option QueryResult)
      → query L sql l ≡ ok (r, l')
      → manager_query L sql (managed l) ≡ ok (r, managed l')
  unfolding manager_query on_tool
  manager_query-query sql l l' r e =
      ap (λ o. o >>= λ (x : Option QueryResult × Link L.Server). ok (x.0, managed x.1)) e

  -- A query of the connected manager that the server accepts.
  pub run_query_stored :
      (sql : Bytes) (l : Link L.Server) (rs : ResultSet)
      → l.tool.connected ≡ true
      → (L.query sql l.server).0 ≡ 0
      → L.stored (L.query sql l.server).1 ≡ some rs
      → run_query L sql (ok (managed l)) ≡ (
        some (new_query_result rs (L.affected (L.query sql l.server).1 % 2 ^ 32)),
        ok (managed (record l { server = (L.query sql l.server).1 })),
      )
  unfolding run_query
  run_query_stored sql l rs c e stored =
      rw (manager_query-query sql l _ _ (query_stored sql l rs c e stored), run_query) refl

  init_users_empty :
      (l : Link L.Server) (columns : List Column)
      → l.tool.connected ≡ true
      → (L.query users_table.sql l.server).0 ≡ 0
      → L.stored (L.query users_table.sql l.server).1
        ≡ some (record { columns = columns; rows = [] })
      → 0 < length columns
      → init_users (managed l) ≡ fault bad_access
  unfolding init_users
  init_users_empty l columns c e stored wide =
      ap (λ o. do loaded ← o; elim (loaded.1.server) [ fault f ↦ fault f | ok m' ↦ ok loaded ])
        (init_empty (client_of L) (record { manager = new_manager; server = ok (managed l) })
          columns (L.affected (L.query users_table.sql l.server).1 % 2 ^ 32)
          (ok (managed (record l { server = (L.query users_table.sql l.server).1 }))) wide
          (run_query_stored users_table.sql l _ c e stored))

  -- If the checks of the database succeed and the table of users has no rows, the chat server crashes
  -- at its start, before it accepts a connection.
  pub start_empty :
      (fuel : ℕ) (passwd : Bytes) (server : L.Server) (l : Link L.Server) (columns : List Column)
      → Manager.init L fuel
          (text "127.0.0.1")
          (text "debian-sys-maint")
          passwd
          (text "learnMS_DB")
          3306
          tables
          (record { tool = none; server = server })
        ≡ ok (true, managed l)
      → l.tool.connected ≡ true
      → (L.query users_table.sql l.server).0 ≡ 0
      → L.stored (L.query users_table.sql l.server).1
        ≡ some (record { columns = columns; rows = [] })
      → 0 < length columns
      → start fuel passwd server ≡ fault bad_access
  unfolding start
  start_empty fuel passwd server l columns prepared c e stored wide =
      rw (prepared) (rw (init_users_empty l columns c e stored wide) refl)
