-- ===== src/Database/Client.antt =====
-- MySqlManager as the database client of UserManager: what a registration leaves in the server's
-- log.
use sever_code.Prelude.{◌≡◌, refl, ap, ◌∙◌, Bool, true, false, Option, none, some, ◌++◌, Bytes}
use sever_code.Prelude.{Outcome, ok, fault, ◌>>=◌}
use sever_code.Users.Types.{User, SqlClient, World}
use sever_code.Users.Statements.{insert_user}
use sever_code.Users.Account.{add_user, add_user-execute}
use sever_code.Database.{MySqlLib, Link, Sent, c_str, execute}
use sever_code.Sql.{QueryResult}
use sever_code.Database.Manager.{MySqlManager, on_tool, manager_query, excute}
use sever_code.Database.Retry.{execute-Shows}
use sever_code.Database.Logged.{Log, logged, Shows, LoggedLink, is_done}

-- `Singleton<MySqlManager>::instance()` as the server of UserManager. Its state is a fault once a
-- call has crashed the process; no call returns from there.
unfoldable pub run_execute :
    (L : MySqlLib)
    → Bytes
    → Outcome (MySqlManager L.Server)
    → Bool × Outcome (MySqlManager L.Server)
unfolding excute
run_execute L sql (fault f) = (false, fault f)
run_execute L sql (ok m) = elim (excute L sql m) [
  | fault f ↦ (false, fault f)
  | ok x ↦ (x.0, ok x.1)
]

unfoldable pub run_query :
    (L : MySqlLib)
    → Bytes
    → Outcome (MySqlManager L.Server)
    → Option QueryResult × Outcome (MySqlManager L.Server)
unfolding manager_query
run_query L sql (fault f) = (none, fault f)
run_query L sql (ok m) = elim (manager_query L sql m) [
  | fault f ↦ (none, fault f)
  | ok x ↦ (x.0, ok x.1)
]

abbrev pub client_of : MySqlLib → SqlClient
client_of L = record {
  Server = Outcome (MySqlManager L.Server);
  execute = run_execute L;
  query = run_query L;
}

-- The manager behind Init.
abbrev pub managed : {S : Type 0} → Link S → MySqlManager S
managed l = record { tool = some l.tool; server = l.server }

module _ (L : MySqlLib) (user : User) where
  excute-execute :
      (sql : Bytes) (l l' : LoggedLink L) (b : Bool)
      → execute (logged L) sql l ≡ ok (b, l')
      → excute (logged L) sql (managed l) ≡ ok (b, managed l')
  unfolding excute on_tool
  excute-execute sql l l' b e = ap (λ o. o >>= λ (x : Bool × LoggedLink L). ok (x.0, managed x.1)) e

  run_execute-ok :
      (sql : Bytes) (server : Outcome (MySqlManager (L.Server × Log))) (l l' : LoggedLink L)
      (b : Bool)
      → server ≡ ok (managed l)
      → execute (logged L) sql l ≡ ok (b, l')
      → run_execute (logged L) sql server ≡ (b, ok (managed l'))
  unfolding run_execute
  run_execute-ok sql server l l' b at e =
      ap (run_execute (logged L) sql) at ∙ rw (excute-execute sql l l' b e, run_execute) refl

  -- AddUser over a connection returns, and its result says whether the server has accepted the
  -- statement of that user at the last attempt; nothing else reaches the server, but for a second
  -- attempt with the greeting before it.
  pub add_user-Shows :
      (w : World (Outcome (MySqlManager (L.Server × Log)))) (l : LoggedLink L)
      → w.server ≡ ok (managed l)
      → l.tool.connected ≡ true
      → (sent : Sent) × (l' : LoggedLink L) × (log : Log) × ((add_user
            (client_of (logged L))
            user
            w).0
          ≡ is_done sent)
        × ((add_user (client_of (logged L)) user w).2.server ≡ ok (managed l'))
        × (l'.server.1 ≡ l.server.1 ++ log)
        × Shows (c_str (insert_user user)) sent log
  add_user-Shows w l at c =
      let (sent, l', log, e, grown, shows, _) = execute-Shows L (insert_user user) l c in
      let (result, server) =
        add_user-execute (client_of (logged L)) user w (is_done sent) (ok (managed l'))
          (run_execute-ok (insert_user user) w.server l l' (is_done sent) at e) in
      (sent, l', log, result, server, grown, shows)
