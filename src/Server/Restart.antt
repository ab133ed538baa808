-- ===== src/Server/Restart.antt =====
-- What the chat server knows when it starts over a database with users.
use sever_code.Prelude.{
  ℕ, ◌<◌, ◌^◌, ◌-◌, ◌≡◌, ap, ◌∙◌, Bool, true, false, none, some, List, [], ◌∷◌, Bytes, text, length,
  same, if◌then◌else◌, Outcome, ok, fault,
}
use sever_code.Sql.{Column, Row}
use sever_code.Users.Types.{User, World}
use sever_code.Users.Account.{find_user}
use sever_code.Users.Loading.{users_table}
use sever_code.Users.Loaded.{decoded}
use sever_code.Database.{MySqlLib, Link}
use sever_code.Database.Manager.{MySqlManager}
use sever_code.Database.Manager as Manager
use sever_code.Database.Schema.{tables}
use sever_code.Database.Client.{client_of, managed}
use sever_code.Session.{JsonLib, minus_one}
use sever_code.Session.TableId.{TimeLib}
use sever_code.Session.Login.{login_state}
use sever_code.Session.Accounts.{login_state-find_user, login_answer}
use sever_code.Server.{ServerState, Reach}
use sever_code.Server.Ensures.{Ensures, Ensures-ok, Ensures-fault, Ensures-then}
use sever_code.Server.Loads.{Has, init-Has}
use sever_code.Server.Kept.{Reach-login_state}
use sever_code.Server.Start.{
  Started, running, exited, new_manager, init_users, start, run_query_stored,
}

-- If the server runs, it has these users in memory.
unfoldable Serves : {S : Type 0} → List User → Started S → Type 0
Serves users (exited n) = Unit {0}
Serves users (running s) = s.world.manager.cached_users ≡ users

module _ (L : MySqlLib) (l : Link L.Server) (columns : List Column) (row : Row) (rest : List Row)
    (users : List User) (connected : l.tool.connected ≡ true)
    (accepted : (L.query users_table.sql l.server).0 ≡ 0)
    (stored : L.stored (L.query users_table.sql l.server).1
      ≡ some (record { columns = columns; rows = row ∷ rest }))
    (wide : 0 < length columns) (rows : decoded users_table columns (row ∷ rest) ≡ ok users) where
  init_users-Has : Ensures (Has (client_of L) users) (init_users L (managed l))
  unfolding init_users Has
  init_users-Has =
      Ensures-then (Has (client_of L) users) (Has (client_of L) users) _ _
        (init-Has (client_of L) (record { manager = new_manager; server = ok (managed l) }) columns
          row rest _ _ users wide (run_query_stored L users_table.sql l _ connected accepted stored)
          rows)
        go
    where
      alive :
          (o : Outcome (MySqlManager L.Server)) (x : Bool × World (Outcome (MySqlManager L.Server)))
          → Has (client_of L) users x
          → Ensures (Has (client_of L) users) (elim o [ fault f ↦ fault f | ok m ↦ ok x ])
      alive (ok m) x h = Ensures-ok _ x h
      alive (fault f) x h = Ensures-fault _ f

      go :
          (x : Bool × World (Outcome (MySqlManager L.Server)))
          → Has (client_of L) users x
          → Ensures
              (Has (client_of L) users)
              (elim (x.1.server) [ fault f ↦ fault f | ok m ↦ ok x ])
      go x h = alive (x.1.server) x h

  module _ (fuel : ℕ) (passwd : Bytes) (server : L.Server)
      (prepared : Manager.init L fuel
          (text "127.0.0.1")
          (text "debian-sys-maint")
          passwd
          (text "learnMS_DB")
          3306
          tables
          (record { tool = none; server = server })
        ≡ ok (true, managed l)) where
    start-Serves : Ensures (Serves users) (start L fuel passwd server)
    unfolding start Serves Has
    start-Serves =
        rw (prepared) (Ensures-then (Has (client_of L) users) (Serves users) _ _ init_users-Has go)
      where
        go :
            (x : Bool × World (Outcome (MySqlManager L.Server)))
            → Has (client_of L) users x
            → Ensures (Serves users) (
                ok (
                  if x.0
                  then running (record { sessions = []; world = x.1 })
                  else exited (2 ^ 32 - 3)))
        go (true, w) h = Ensures-ok (Serves users) _ h
        go (false, w) h = Ensures-ok (Serves users) _ tt

    -- The chat server starts over a table of users with rows, after checks that succeed, and runs.
    -- Then at any later time, whatever connections and messages came, a login with the name of a
    -- user of those rows is answered by that table: 1 if the password is that of the first row with
    -- the name, else -1, with the fields of the row.
    pub start-login_state :
        (J : JsonLib) (T : TimeLib) (s t : ServerState (Outcome (MySqlManager L.Server)))
        (name password : Bytes) (u : User)
        → start L fuel passwd server ≡ ok (running s)
        → Reach J (client_of L) T s t
        → find_user name users ≡ some u
        → login_state name password t.world.manager
          ≡ (if same password u.password then 1 else minus_one, u)
    unfolding Serves login_answer
    start-login_state J T s t name password u started r found =
        let h : s.world.manager.cached_users ≡ users = start-Serves.held (running s) started in
        let known = ap (find_user name) h ∙ found in
        Reach-login_state J (client_of L) T s t name password u r known
        ∙ login_state-find_user name password s.world.manager
        ∙ ap (login_answer name password) known
