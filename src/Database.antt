-- ===== src/Database.antt =====
-- mysqltool.cpp: one connection to the database server, with a second attempt when the server has
-- gone. The MySQL client library is a parameter.
pub mod Maps
pub mod Schema
pub mod Manager
pub mod Logged
pub mod Retry
pub mod Lost
pub mod Created
pub mod Erased
pub mod Scanned
pub mod Columns
pub mod Client
pub mod Small
mod Tests
use sever_code.Prelude.{ℕ, Bool, true, false, ◌%◌, ◌^◌, Option, none, some, [], ◌∷◌, Bytes, text}
use sever_code.Prelude.{◌==◌, if◌then◌else◌, Outcome, ok, fault, bad_access, ◌>>=◌}
use sever_code.Sql.{ResultSet, QueryResult, new_query_result}

-- What the library does to the server and answers: mysql_real_connect (is the handle not null?);
-- mysql_real_query with mysql_errno, which is 0 if the statement went through; and what the last
-- statement left, mysql_store_result and mysql_affected_rows.
pub record MySqlLib : Type 1 where
  pub Server : Type 0
  pub connect : Bytes → Bytes → Bytes → Bytes → ℕ → Server → Bool × Server
  pub query : Bytes → Server → ℕ × Server
  pub stored : Server → Option ResultSet
  pub affected : Server → ℕ

-- `m_mysql != nullptr` is `connected`. `m_port` is never read.
pub record MySqlTool : Type 0 where
  pub connected : Bool
  pub host : Bytes
  pub user : Bytes
  pub passwd : Bytes
  pub dbname : Bytes

unfoldable pub new_tool : MySqlTool
new_tool = record { connected = false; host = []; user = []; passwd = []; dbname = [] }

-- A tool with the server that it talks to.
pub record Link (S : Type 0) : Type 0 where
  pub tool : MySqlTool
  pub server : S

-- The end of a statement: given up, accepted at once, accepted at the second attempt.
pub data Sent : Type 0 where
  failed at_once again : Sent

-- `Execute` with its two reference parameters.
pub record Executed : Type 0 where
  pub success : Bool
  pub affected_count : ℕ
  pub error_number : ℕ

abbrev pub server_gone : ℕ
server_gone = 2006

-- What mysql_query reads of a string: the bytes before the first zero.
unfoldable pub c_str : Bytes → Bytes
c_str [] = []
c_str (b ∷ s) = if b == 0 then [] else b ∷ c_str s

module _ (L : MySqlLib) where
  unfoldable pub connect : Bytes → Bytes → Bytes → Bytes → ℕ → Link L.Server → Bool × Link L.Server
  connect host user passwd db port l =
      let (fine, s) = L.connect host user passwd db port l.server in
      if fine
      then (
        true,
        record {
          tool = record {
            connected = true;
            host = host;
            user = user;
            passwd = passwd;
            dbname = db;
          };
          server = (L.query (text "set name utf8;") s).1;
        },
      )
      else (false, record { tool = record (l.tool) { connected = false }; server = s })

  -- `connect(m_host, m_user, m_passwd, m_dbname)`, at the default port.
  unfoldable pub reconnect : Link L.Server → Bool × Link L.Server
  unfolding connect
  reconnect l = connect l.tool.host l.tool.user l.tool.passwd l.tool.dbname 3306 l

  -- The library reads through the handle.
  unfoldable pub real_query : Bytes → Link L.Server → Outcome (ℕ × Link L.Server)
  real_query sql l =
      if l.tool.connected
      then (let (e, s) = L.query sql l.server in ok (e, record l { server = s }))
      else fault bad_access

  -- A statement on the handle, once more if the server has gone.
  unfoldable pub attempt : Bytes → Link L.Server → Outcome (Sent × Link L.Server)
  unfolding real_query reconnect
  attempt sql l = do
    first ← real_query sql l
    if first.0 == 0
        then ok (at_once, first.1)
        else if first.0 == server_gone
        then (let (fine, l') = reconnect first.1 in
            if fine
            then (do
              second ← real_query sql l'
              ok (if second.0 == 0 then again else failed, second.1))
            else ok (failed, l'))
        else ok (failed, first.1)

  -- The start of Query and of Execute. Without a handle they give up if connect succeeds, and go on
  -- without one if it fails.
  unfoldable pub send : Bytes → Link L.Server → Outcome (Sent × Link L.Server)
  unfolding attempt
  send sql l =
      if l.tool.connected
      then attempt sql l
      else (let (fine, l') = reconnect l in if fine then ok (failed, l') else attempt sql l')

  -- The constructor of QueryResult reads through the pointer that mysql_store_result returns.
  unfoldable pub stored_result : Link L.Server → Outcome (Option QueryResult × Link L.Server)
  stored_result l = elim (L.stored l.server) [
    | none ↦ fault bad_access
    | some rs ↦ ok (some (new_query_result rs (L.affected l.server % 2 ^ 32)), l)
  ]

  unfoldable pub query : Bytes → Link L.Server → Outcome (Option QueryResult × Link L.Server)
  unfolding send stored_result
  query sql l = do
    sent ← send sql l
    elim (sent.0) [
      | failed ↦ ok (none, sent.1)
      | at_once ↦ stored_result sent.1
      | again ↦ stored_result sent.1
    ]

  -- The count is set only behind a second attempt; the error number never, since a local of the
  -- same name hides it.
  unfoldable pub execute_counted :
      Bytes → ℕ → ℕ → Link L.Server → Outcome (Executed × Link L.Server)
  unfolding send c_str
  execute_counted sql affected error l = do
    sent ← send (c_str sql) l
    elim (sent.0) [
      | failed ↦
          ok (record { success = false; affected_count = affected; error_number = error }, sent.1)
      | at_once ↦
          ok (record { success = true; affected_count = affected; error_number = error }, sent.1)
      | again ↦ ok (
        record {
          success = true;
          affected_count = L.affected sent.1.server % 2 ^ 32;
          error_number = error;
        },
        sent.1,
      )
    ]

  -- `Execute` without the parameters, whose values are then dropped.
  unfoldable pub execute : Bytes → Link L.Server → Outcome (Bool × Link L.Server)
  unfolding execute_counted
  execute sql l = do done ← execute_counted sql 0 0 l; ok (done.0.success, done.1)
