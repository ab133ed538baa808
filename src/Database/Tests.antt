-- ===== src/Database/Tests.antt =====
-- Runs of the database manager, and its tables.
use sever_code.Prelude.{◌≡◌, refl, true, false, none, some, List, [], ◌∷◌, ◌++◌, map}
use sever_code.Prelude.{Bytes, text, All, if◌then◌else◌, ok, fault, no_end, bad_access}
use sever_code.Prelude.{same}
use sever_code.Sql.{new_query_result, Column, Row, string}
use sever_code.Database.{Link, Sent, execute, execute_counted, query, reconnect, c_str, again}
use sever_code.Database.Maps.{find, Distinct, unlisted}
use sever_code.Database.Schema.{TableInfo, FieldInfo, column, tables, collect_table, user_table}
use sever_code.Database.Manager.{create_database, check_table_fuel, create_text}
use sever_code.Database.Retry.{expected, execute-Shows}
use sever_code.Database.Logged.{logged, noted, Log, Shows, LoggedLink, is_done}
use sever_code.Database.Lost.{execute_disconnected}
use sever_code.Database.Created.{create_statement, create_database-again}
use sever_code.Database.Scanned.{told_name, told_type, Fits}
use sever_code.Upload.{contains}
use sever_code.Database.Columns.{run_statements, adding, check_table-Fits, check_table-unknown}
use sever_code.Users.Types.{User, new_user, World}
use sever_code.Users.Statements.{insert_user}
use sever_code.Users.Account.{add_user}
use sever_code.Database.Client.{client_of, managed, add_user-Shows}
use sever_code.Database.Manager.{MySqlManager}
use sever_code.Prelude.{Outcome}
use sever_code.Database.Small.{take_answer, Script, scripted, plain_answer, script, tool_at, linked}

-- The keys of the tables, and the columns of tab_assetsCollect.
table_names :
    map (λ (e : Bytes × TableInfo). e.0) tables
    ≡ text "tab_assetsCollect"
      ∷ text "tab_audioData"
      ∷ text "tab_browseRecords"
      ∷ text "tab_user"
      ∷ text "tab_videoData"
      ∷ []
unfolding tables same
table_names = refl

collect_columns :
    map (λ (e : Bytes × FieldInfo). e.0) collect_table.fields
    ≡ map text (
        "c_assetsTitle" ∷ "c_assetsType" ∷ "c_id" ∷ "c_uID" ∷ "t_courses" ∷ "t_id" ∷ "t_title"
        ∷ "t_uID" ∷ "t_upName" ∷ [])
unfolding collect_table same
collect_columns = refl

user_text :
    create_text user_table
    ≡ text
        " create table if not exists `tab_user` (u_headImage varchar(255) NULL,u_id varchar(64) NOT NULL,u_password varchar(255) NOT NULL,u_sex bit NOT NULL,u_userName varchar(255) NOT NULL,PRIMARY KEY (u_id)) default charset=utf8,ENGINE=InnoDB;"
unfolding create_text user_table same
user_text = refl

abbrev sql : Bytes
sql = text "delete from t;"

-- The server has gone once.
abbrev flaky : LoggedLink scripted
flaky = record {
  tool = tool_at true;
  server = (script (plain_answer 2006 ∷ plain_answer 0 ∷ plain_answer 0 ∷ []), []);
}

execute-Shows_example :
    (sent : Sent) × (l' : LoggedLink scripted) × (log : Log) × (execute (logged scripted) sql flaky
      ≡ ok (is_done sent, l'))
    × (l'.server.1 ≡ flaky.server.1 ++ log)
    × Shows (c_str sql) sent log
    × (log
        ≡ expected scripted
            (c_str sql)
            (scripted.query (c_str sql) flaky.server.0).0
            (noted scripted (c_str sql) flaky))
execute-Shows_example = execute-Shows scripted sql flaky refl

abbrev lost : Link Script
lost = record { tool = tool_at false; server = script [] }

execute_disconnected_example :
    (execute scripted sql lost ≡ (
      if (reconnect scripted lost).0
      then ok (false, (reconnect scripted lost).1)
      else fault bad_access))
    × (query scripted sql lost ≡ (
        if (reconnect scripted lost).0
        then ok (none, (reconnect scripted lost).1)
        else fault bad_access))
execute_disconnected_example = execute_disconnected scripted sql lost refl

abbrev flaky_end : LoggedLink scripted
flaky_end = record {
  tool = tool_at true;
  server = (
    script [],
    (text " create database ;", 2006)
        ∷ (text "set name utf8;", 0)
        ∷ (text " create database ;", 0)
        ∷ [],
  );
}

flaky_creates : create_database (logged scripted) flaky ≡ ok (true, flaky_end)
unfolding create_database execute_counted take_answer
flaky_creates = refl

create_database-again_example :
    (log : Log) × (flaky_end.server.1 ≡ flaky.server.1 ++ log)
    × Shows (create_statement scripted []) again log
create_database-again_example = create_database-again scripted flaky flaky_end refl flaky_creates

-- A table of two columns, of which the server knows one, and then one more that is not described.
abbrev pair_table : TableInfo
pair_table = record {
  name = text "t";
  fields = column "b" "bit" "bit" (column "a" "int" "int" []);
  key = [];
}

abbrev desc_columns : List Column
desc_columns =
    record { name = text "Field"; type = string }
    ∷ record { name = text "Type"; type = string }
    ∷ []

abbrev row_a : Row
row_a = some (text "a") ∷ some (text "int") ∷ []

abbrev row_z : Row
row_z = some (text "z") ∷ some (text "int") ∷ []

abbrev described : List Row → Link Script
described rows = linked (
    record { number = 0; result = some (record { columns = desc_columns; rows = rows }); count = 1 }
    ∷ [])

abbrev described_end : List Row → Link Script
described_end rows = record {
  tool = tool_at true;
  server = record {
    up = true;
    last = record {
      number = 0;
      result = some (record { columns = desc_columns; rows = rows });
      count = 1;
    };
    next = [];
  };
}

desc_answered :
    (rows : List Row)
    → query scripted (text " desc t;") (described rows)
      ≡ ok (
        some (new_query_result (record { columns = desc_columns; rows = rows }) 1),
        described_end rows,
      )
unfolding query take_answer
desc_answered rows = refl

row_a-Fits : All (Fits pair_table.fields) (row_a ∷ [])
unfolding column told_name told_type contains find same
row_a-Fits = ((record { name = text "a"; type = text "int"; desc = text "int" }, refl, refl), tt)

pair_table-Distinct : Distinct pair_table.fields
unfolding column find same
pair_table-Distinct = (refl, (refl, tt))

z_unknown : find (told_name row_z) pair_table.fields ≡ none
unfolding column find told_name same
z_unknown = refl

check_table-Fits_example :
    check_table_fuel scripted 1 pair_table (described (row_a ∷ []))
    ≡ run_statements scripted
        (map (adding pair_table) (unlisted (map told_name (row_a ∷ [])) pair_table.fields))
        (described_end (row_a ∷ []))
check_table-Fits_example =
    check_table-Fits scripted pair_table (described (row_a ∷ [])) (described_end (row_a ∷ []))
      (record { name = text "Field"; type = string }) (record { name = text "Type"; type = string })
      [] 1 row_a [] (desc_answered (row_a ∷ [])) (row_a-Fits) pair_table-Distinct

check_table-unknown_example :
    check_table_fuel scripted 1000 pair_table (described (row_a ∷ row_z ∷ [])) ≡ fault no_end
check_table-unknown_example =
    check_table-unknown scripted pair_table (described (row_a ∷ row_z ∷ []))
      (described_end (row_a ∷ row_z ∷ [])) (record { name = text "Field"; type = string })
      (record { name = text "Type"; type = string }) [] 1 1000 (row_a ∷ []) row_z []
      (desc_answered (row_a ∷ row_z ∷ [])) (row_a-Fits) z_unknown

-- A registration over a connection that is lost once.
abbrev one_user : User
one_user = new_user

abbrev flaky_world : World (Outcome (MySqlManager (Script × Log)))
flaky_world = record {
  manager = record {
    cached_users = [];
    cache_video_info = [];
    cache_audio_info = [];
    cache_word_info = [];
    cache_browse_info = [];
    cache_collect_info = [];
    map_users = [];
    base_user_id = 0;
  };
  server = ok (managed flaky);
}

add_user-Shows_example :
    (sent : Sent) × (l' : LoggedLink scripted) × (log : Log) × ((add_user
        (client_of (logged scripted))
        one_user
        flaky_world).0
      ≡ is_done sent)
    × ((add_user (client_of (logged scripted)) one_user flaky_world).2.server ≡ ok (managed l'))
    × (l'.server.1 ≡ flaky.server.1 ++ log)
    × Shows (c_str (insert_user one_user)) sent log
add_user-Shows_example = add_user-Shows scripted one_user flaky_world flaky refl refl
