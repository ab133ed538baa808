-- ===== src/Database/Manager.antt =====
-- MySqlManager.cpp: the checks of the database and of its tables at the start of the server.
use sever_code.Prelude.{
  ℕ, zero, suc, Bool, true, false, ◌&&◌, Option, none, some, [], ◌∷◌, ◌++◌, Bytes, text,
}
use sever_code.Prelude.{same, length, ltb, ◌==◌, if◌then◌else◌, Outcome, ok, fault, bad_access}
use sever_code.Prelude.{no_end, ◌>>=◌}
use sever_code.Sql.{QueryResult, next_row, fetch_is_null, field_at}
use sever_code.Sql.Loop.{rows_left}
use sever_code.Upload.{contains}
use sever_code.Database.{MySqlLib, MySqlTool, new_tool, Link, connect, query, execute}
use sever_code.Database.{execute_counted}
use sever_code.Database.Maps.{find, insert, erase}
use sever_code.Database.Schema.{FieldInfo, Fields, TableInfo, Tables}

-- `m_mysql` is null before Init.
pub record MySqlManager (S : Type 0) : Type 0 where
  pub tool : Option MySqlTool
  pub server : S

-- The columns that the table lacks, and those to change.
pub record Scan : Type 0 where
  pub rest : Fields
  pub change : Fields

-- `pRow[index].GetString()`.
unfoldable pub column_text : ℕ → QueryResult → Outcome Bytes
unfolding field_at
column_text i r = do f ← field_at (some i) r.current_row; ok f.value

-- The loop of CheckDatabase over the names.
unfoldable pub find_database : ℕ → Bytes → QueryResult → Outcome Bool
unfolding fetch_is_null column_text
find_database zero dbname r = fault no_end
find_database (suc fuel) dbname r = elim (fetch_is_null r) [
  | true ↦ ok false
  | false ↦ do
    name ← column_text 0 r
    elim (same name dbname) [
      | true ↦ ok true
      | false ↦
          let (more, r') = next_row r in
          elim more [ true ↦ find_database fuel dbname r' | false ↦ ok false ]
    ]
]

-- The loop of CheckTable over the columns of the table. At a name that is none of the described the
-- next round starts with no new row.
unfoldable pub scan_columns : Fields → ℕ → QueryResult → Scan → Outcome Scan
unfolding fetch_is_null column_text contains find erase insert
scan_columns described zero r s = fault no_end
scan_columns described (suc fuel) r s = elim (fetch_is_null r) [
  | true ↦ ok s
  | false ↦ do
    name ← column_text 0 r
    type ← column_text 1 r
    elim (find name described) [
      | none ↦ scan_columns described fuel r s
      | some field ↦ elim (contains type field.desc) [
        | false ↦ ok (record { rest = erase name s.rest; change = insert name field s.change })
        | true ↦
            let (more, r') = next_row r in
            let s' : Scan = record s { rest = erase name s.rest } in
            elim more [ true ↦ scan_columns described fuel r' s' | false ↦ ok s' ]
      ]
    ]
]

unfoldable pub add_column : TableInfo → FieldInfo → Bytes
add_column info f =
    text " alter table "
    ++ (info.name ++ (text " add colum " ++ (f.name ++ (text " " ++ (f.type ++ text ";")))))

unfoldable pub modify_column : TableInfo → FieldInfo → Bytes
modify_column info f =
    text " alter table "
    ++ (info.name ++ (text " modify column " ++ (f.name ++ (text " " ++ (f.type ++ text ";")))))

-- The columns with their types, with a comma between two.
unfoldable pub column_list : Fields → Bytes
column_list [] = []
column_list ((k, f) ∷ []) = f.name ++ (text " " ++ f.type)
column_list ((k, f) ∷ e ∷ fields) =
    f.name ++ (text " " ++ (f.type ++ (text "," ++ column_list (e ∷ fields))))

unfoldable pub create_text : TableInfo → Bytes
unfolding column_list
create_text info =
    text " create table if not exists `"
    ++ (info.name
        ++ (text "` ("
            ++ (column_list info.fields
                ++ ((if ltb 0 (length info.key) then text "," ++ info.key else [])
                    ++ text ") default charset=utf8,ENGINE=InnoDB;"))))

-- A method on a manager; the test of the pointer that every method begins with.
unfoldable pub on_tool :
    {S A : Type 0}
    → A
    → (Link S → Outcome (A × Link S))
    → MySqlManager S
    → Outcome (A × MySqlManager S)
on_tool otherwise method m = elim m.tool [
  | none ↦ ok (otherwise, m)
  | some t ↦ do
    x ← method (record { tool = t; server = m.server })
    ok (x.0, record { tool = some x.1.tool; server = x.1.server })
]

module _ (L : MySqlLib) where
  -- One statement for each column, up to the first that the server refuses.
  unfoldable pub alter_columns :
      (FieldInfo → Bytes) → Fields → Link L.Server → Outcome (Bool × Link L.Server)
  alter_columns statement [] l = ok (true, l)
  alter_columns statement ((k, f) ∷ fields) l = do
    done ← execute L (statement f) l
    elim (done.0) [ true ↦ alter_columns statement fields done.1 | false ↦ ok (false, done.1) ]

  unfoldable pub create_table : TableInfo → Link L.Server → Outcome (Bool × Link L.Server)
  unfolding create_text
  create_table info l =
      if length info.fields == 0 then ok (false, l) else execute L (create_text info) l

  unfoldable pub alter_table : TableInfo → Scan → Link L.Server → Outcome (Bool × Link L.Server)
  unfolding alter_columns add_column modify_column
  alter_table info scan l = do
    added ← alter_columns (add_column info) scan.rest l
    if added.0 then alter_columns (modify_column info) scan.change added.1 else ok added

  -- With the fuel of the loop over the columns.
  unfoldable pub check_table_fuel : ℕ → TableInfo → Link L.Server → Outcome (Bool × Link L.Server)
  unfolding scan_columns alter_table create_table
  check_table_fuel fuel info l = do
    described ← query L (text " desc " ++ (info.name ++ text ";")) l
    elim (described.0) [
      | none ↦ create_table info described.1
      | some r ↦ do
        scan ← scan_columns info.fields fuel r (record { rest = info.fields; change = [] })
        alter_table info scan described.1
    ]

  unfoldable pub check_database : Link L.Server → Outcome (Bool × Link L.Server)
  unfolding find_database rows_left
  check_database l = do
    listed ← query L (text "show databases;") l
    elim (listed.0) [
      | none ↦ ok (false, listed.1)
      | some r ↦ do
        there ← find_database (suc (rows_left r)) listed.1.tool.dbname r
        ok (there, listed.1)
    ]

  unfoldable pub create_database : Link L.Server → Outcome (Bool × Link L.Server)
  create_database l = do
    done ← execute_counted L (text " create database " ++ (l.tool.dbname ++ text ";")) 0 0 l
    ok (done.0.success && done.0.affected_count == 1, done.1)

  module _ (fuel : ℕ) where
    unfoldable pub update_table : TableInfo → Link L.Server → Outcome (Bool × Link L.Server)
    unfolding check_table_fuel create_table
    update_table info l = do
      checked ← check_table_fuel fuel info l
      if checked.0 then ok checked else create_table info checked.1

    unfoldable pub update_tables : Tables → Link L.Server → Outcome (Bool × Link L.Server)
    unfolding update_table
    update_tables [] l = ok (true, l)
    update_tables ((k, info) ∷ rest) l = do
      updated ← update_table info l
      elim (updated.0) [ true ↦ update_tables rest updated.1 | false ↦ ok (false, updated.1) ]

    -- The database, then tab_user, then all tables in the order of their names.
    unfoldable pub check_tables : Tables → Link L.Server → Outcome (Bool × Link L.Server)
    unfolding update_table update_tables find
    check_tables tables l = elim (find (text "tab_user") tables) [
      | none ↦ fault bad_access
      | some user ↦ do
        users ← update_table user l
        elim (users.0) [ true ↦ update_tables tables users.1 | false ↦ ok (false, users.1) ]
    ]

    unfoldable pub prepare : Tables → Link L.Server → Outcome (Bool × Link L.Server)
    unfolding check_database create_database check_tables
    prepare tables l = do
      there ← check_database l
      if there.0 then check_tables tables there.1 else do
        created ← create_database there.1
        if created.0 then check_tables tables created.1 else ok (false, created.1)

    unfoldable pub init :
        Bytes
        → Bytes
        → Bytes
        → Bytes
        → ℕ
        → Tables
        → MySqlManager L.Server
        → Outcome (Bool × MySqlManager L.Server)
    unfolding prepare connect on_tool
    init host user passwd dbname port tables m =
        let (fine, l) =
          connect L host user passwd dbname port (record { tool = new_tool; server = m.server }) in
        let m' : MySqlManager L.Server = record { tool = some l.tool; server = l.server } in
        if fine then on_tool false (prepare tables) m' else ok (false, m')

  -- `MySqlManager::Query` and `Excute`.
  unfoldable pub manager_query :
      Bytes → MySqlManager L.Server → Outcome (Option QueryResult × MySqlManager L.Server)
  unfolding on_tool
  manager_query sql m = on_tool none (query L sql) m

  unfoldable pub excute : Bytes → MySqlManager L.Server → Outcome (Bool × MySqlManager L.Server)
  unfolding on_tool
  excute sql m = on_tool false (execute L sql) m
