-- ===== src/Server/StartTests.antt =====
-- The start of the chat server on small databases.
use sever_code.Prelude.{◌≡◌, refl, true, none, some, List, [], ◌∷◌, ◌++◌, text, ok, same}
use sever_code.Prelude.{fault, bad_access, arith}
use sever_code.Sql.{Column, string, new_query_result}
use sever_code.Users.Loading.{users_table}
use sever_code.Database.{Link, MySqlTool, query, execute}
use sever_code.Database.Small.{Answer, Script, script, scripted, plain_answer, take_answer}
use sever_code.Database.Manager.{init}
use sever_code.Database.Schema.{tables}
use sever_code.Database.Client.{managed}
use sever_code.Session.Small.{}
use sever_code.Server.Start.{start, start_empty}

-- A database server that has learnMS_DB, no table at first, and no row in the tables it makes.
abbrev pub name_column : List Column
name_column = record { name = text "Database"; type = string } ∷ []

abbrev pub listed : Answer
listed = record {
  number = 0;
  result = some (record { columns = name_column; rows = (some (text "learnMS_DB") ∷ []) ∷ [] });
  count = 1;
}

abbrev pub no_users : Answer
no_users = record {
  number = 0;
  result = some (record { columns = name_column; rows = [] });
  count = 0;
}

-- What the server answers to `desc` and `create table` of one table.
abbrev pub made : List Answer
made = plain_answer 1146 ∷ plain_answer 0 ∷ []

-- Its answers to the checks of the tables.
abbrev pub checks : List Answer
checks = plain_answer 0 ∷ listed ∷ (made ++ (made ++ (made ++ (made ++ (made ++ made)))))

abbrev pub server_of : List Answer → Script
server_of answers = script (checks ++ answers)

abbrev pub tool : MySqlTool
tool = record {
  connected = true;
  host = text "127.0.0.1";
  user = text "debian-sys-maint";
  passwd = text "secret";
  dbname = text "learnMS_DB";
}

abbrev pub link : List Answer → Link Script
link answers = record { tool = tool; server = script answers }

pub prepared :
    (answers : List Answer)
    → init scripted 9
        (text "127.0.0.1")
        (text "debian-sys-maint")
        (text "secret")
        (text "learnMS_DB")
        3306
        tables
        (record { tool = none; server = server_of answers })
      ≡ ok (true, managed (link answers))
unfolding init take_answer tables same query execute new_query_result
prepared answers = refl

nobody : (scripted.query users_table.sql (script (no_users ∷ []))).0 ≡ 0
unfolding take_answer
nobody = refl

no_rows :
    scripted.stored (scripted.query users_table.sql (script (no_users ∷ []))).1
    ≡ some (record { columns = name_column; rows = [] })
unfolding take_answer
no_rows = refl

start_empty_example :
    start scripted 9 (text "secret") (server_of (no_users ∷ [])) ≡ fault bad_access
start_empty_example =
    start_empty scripted 9 (text "secret") (server_of (no_users ∷ [])) (link (no_users ∷ []))
      name_column (prepared (no_users ∷ [])) refl nobody no_rows (omega arith)
