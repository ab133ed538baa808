-- ===== src/Database/Created.antt =====
-- CreateDatabase of MySqlManager against the log of the server.
use sever_code.Prelude.{◌%◌, ◌^◌, ◌≡◌, refl, sym, ap, ◌∙◌, true, false, ◌&&◌, ◌++◌}
use sever_code.Prelude.{Bytes, text, ◌==◌}
use sever_code.Prelude.{ok}
use sever_code.Database.{MySqlLib, Sent, failed, at_once, again, c_str}
use sever_code.Database.{send}
use sever_code.Database.{execute_counted}
use sever_code.Database.Manager.{create_database}
use sever_code.Database.Retry.{attempt-Attempted, send-attempt}
use sever_code.Database.Logged.{Log, logged, Shows, LoggedLink}

module _ (L : MySqlLib) where
  abbrev pub create_statement : Bytes → Bytes
  create_statement dbname = c_str (text " create database " ++ (dbname ++ text ";"))

  create_database-send :
      (l l' l'' : LoggedLink L) (sent : Sent)
      → send (logged L) (create_statement l.tool.dbname) l ≡ ok (sent, l'')
      → create_database (logged L) l ≡ ok (true, l')
      → (sent ≡ again) × (l'' ≡ l')
  unfolding create_database execute_counted
  create_database-send l l' l'' failed e e' =
      let stopped : create_database (logged L) l ≡ ok (false, l'') = rw e refl in cc
  create_database-send l l' l'' at_once e e' =
      let stopped : create_database (logged L) l ≡ ok (false, l'') = rw e refl in cc
  create_database-send l l' l'' again e e' =
      let went : create_database (logged L) l
          ≡ ok (true && (L.affected l''.server.0 % 2 ^ 32 == 1), l'') =
        rw e refl in
      (refl, cc)

  -- CreateDatabase returns true only if the server had gone and accepts the statement at the second
  -- attempt: the count of rows that it tests is set nowhere else.
  pub create_database-again :
      (l l' : LoggedLink L)
      → l.tool.connected ≡ true
      → create_database (logged L) l ≡ ok (true, l')
      → (log : Log) × (l'.server.1 ≡ l.server.1 ++ log)
        × Shows (create_statement l.tool.dbname) again log
  create_database-again l l' c e =
      let (sent, l'', log, e', grown, shows, _) =
        attempt-Attempted L (create_statement l.tool.dbname) l c in
      let (twice, same_link) = create_database-send l l' l'' sent (send-attempt L _ l c ∙ e') e in
      (log, ap (λ (k : LoggedLink L). k.server.1) (sym same_link) ∙ grown, rw twice at shows)
