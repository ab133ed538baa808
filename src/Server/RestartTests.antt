-- ===== src/Server/RestartTests.antt =====
-- The start of the chat server over a database with one user, and a registration after it.
use sever_code.Prelude.{
  ◌≡◌, refl, true, false, none, some, List, [], ◌∷◌, Bytes, text, ok, same, map,
}
use sever_code.Prelude.{Outcome, arith, if◌then◌else◌}
use sever_code.Sql.{
  Column, Row, string, new_query_result, atoi_nonzero, nonzero_digits, skip_sign, skip_space,
}
use sever_code.Sql.Rows.{row_text, cells, cell}
use sever_code.Users.Types.{User, new_user}
use sever_code.Users.Account.{find_user}
use sever_code.Users.Loading.{users_table, read_user}
use sever_code.Users.Loading as Loading
use sever_code.Users.Loaded.{decoded}
use sever_code.Database.{query, execute}
use sever_code.Database.Small.{Answer, Script, script, scripted, plain_answer, take_answer}
use sever_code.Database.Manager.{MySqlManager, init}
use sever_code.Database.Schema.{tables}
use sever_code.Sql.Loop.{each_row}
use sever_code.Database.Client.{run_query, run_execute, client_of, managed}
use sever_code.Session.{minus_one}
use sever_code.Session.Login.{login_state}
use sever_code.Connections.{has_key, on_connection, place}
use sever_code.Users.Account.{add_user}
use sever_code.Session.{number, msg_type_register}
use sever_code.Session.Models.{state_text}
use sever_code.Session.Process.{on_read}
use sever_code.Server.Tests.{buf, new_ann}
use sever_code.Sql.{text_of, next_row}
use sever_code.Session.Small.{
  get, parse, members, split, as_int, value, as_string, as_bool, json, clock, moment,
}
use sever_code.Server.{ServerState, Reach, connection, message, here, next}
use sever_code.Server.Start.{init_users, start, running}
use sever_code.Server.Restart.{start-login_state}
use sever_code.Server.StartTests.{no_users, server_of, tool, link, prepared}

-- The same server with one user, and one row in each table of assets.
abbrev columns_of : List Bytes → List Column
columns_of = map (λ name. record { name = name; type = string })

abbrev filled : List Bytes → Answer
filled names = record {
  number = 0;
  result =
      some (record { columns = columns_of names; rows = map (λ name. some (text "x")) names ∷ [] });
  count = 1;
}

abbrev user_columns : List Column
user_columns =
    columns_of
      (text "u_id" ∷ text "u_userName" ∷ text "u_password" ∷ text "u_headImage" ∷ text "u_sex" ∷ [])

abbrev ann_row : Row
ann_row = some (text "u1") ∷ some (text "ann") ∷ some (text "pw") ∷ none ∷ some (text "1") ∷ []

abbrev ann : User
ann = record {
  userid = 0;
  u_id = text "u1";
  username = text "ann";
  password = text "pw";
  custimface = [];
  sex = true;
}

abbrev others : List Answer
others =
    filled (
      map text (
        "v_id" ∷ "v_upName" ∷ "v_filePath" ∷ "v_videoTitle" ∷ "v_headImgPath" ∷ "v_synopsis"
        ∷ "v_courses" ∷ "v_uID" ∷ []))
    ∷ filled (
        map text (
          "a_id" ∷ "a_upName" ∷ "a_filePath" ∷ "a_audioTitle" ∷ "a_headImgPath" ∷ "a_courses"
          ∷ "a_uID" ∷ []))
    ∷ filled (map text ("t_id" ∷ "t_upName" ∷ "t_data" ∷ "t_title" ∷ "t_courses" ∷ "t_uID" ∷ []))
    ∷ no_users
    ∷ no_users
    ∷ plain_answer 0
    ∷ []

abbrev users_answer : Answer
users_answer = record {
  number = 0;
  result = some (record { columns = user_columns; rows = ann_row ∷ [] });
  count = 1;
}

abbrev running_state : ServerState (Outcome (MySqlManager Script))
running_state = record {
  sessions = [];
  world = record {
    manager = record {
      cached_users = ann ∷ [];
      cache_video_info =
          record {
            v_id = text "x";
            v_up_name = text "x";
            v_title = text "x";
            v_file_path = text "x";
            v_head_img_path = text "x";
            v_courses = text "x";
            v_synopsis = text "x";
            v_uid = text "x";
          }
          ∷ [];
      cache_audio_info =
          record {
            a_id = text "x";
            a_up_name = text "x";
            a_title = text "x";
            a_file_path = text "x";
            a_head_img_path = text "x";
            a_courses = text "x";
            a_uid = text "x";
          }
          ∷ [];
      cache_word_info =
          record {
            uid = text "x";
            t_id = text "x";
            title = text "x";
            up_name = text "x";
            courses_str = text "x";
            file_data = text "x";
          }
          ∷ [];
      cache_browse_info = [];
      cache_collect_info = [];
      map_users = [];
      base_user_id = 0;
    };
    server = ok (
        managed (record {
          tool = tool;
          server = record { up = true; last = no_users; next = plain_answer 0 ∷ [] };
        }));
  };
}

accepted : (scripted.query users_table.sql (script (users_answer ∷ others))).0 ≡ 0
unfolding take_answer
accepted = refl

stored :
    scripted.stored (scripted.query users_table.sql (script (users_answer ∷ others))).1
    ≡ some (record { columns = user_columns; rows = ann_row ∷ [] })
unfolding take_answer
stored = refl

ann-decoded : decoded users_table user_columns (ann_row ∷ []) ≡ ok (ann ∷ [])
unfolding decoded read_user new_user row_text cells cell same atoi_nonzero nonzero_digits skip_sign
    skip_space
ann-decoded = refl

started :
    start scripted 9 (text "secret") (server_of (users_answer ∷ others))
    ≡ ok (running running_state)
unfolding start init_users Loading.init run_query init take_answer tables same query execute
    new_query_result each_row atoi_nonzero nonzero_digits skip_sign skip_space new_user text_of
    next_row
started = refl

ann-found : find_user (text "ann") (ann ∷ []) ≡ some ann
unfolding find_user same
ann-found = refl

-- One connection opens and registers the name that is in the database.
abbrev opened : ServerState (Outcome (MySqlManager Script))
opened = record running_state { sessions = on_connection true (text "0x1") [] }

abbrev last : ServerState (Outcome (MySqlManager Script))
last = record opened { world = (add_user (client_of scripted) new_ann opened.world).2 }

read :
    on_read json (client_of scripted) clock moment buf opened.world
    ≡ ok (false, (state_text json (number msg_type_register) 1 [] ∷ [], last.world))
unfolding on_read get parse members split same as_int value as_string as_bool run_execute execute
    take_answer
read = refl

is_open : has_key (text "0x1") opened.sessions ≡ true
unfolding has_key on_connection place same
is_open = refl

run : Reach json (client_of scripted) clock running_state last
run = next (next here (connection running_state true (text "0x1"))) (
    message opened (text "0x1") moment buf false
      (state_text json (number msg_type_register) 1 [] ∷ []) last.world is_open read)

start-login_state_example :
    login_state (text "ann") (text "pw") last.world.manager
    ≡ (if same (text "pw") (text "pw") then 1 else minus_one, ann)
start-login_state_example =
    start-login_state scripted (link (users_answer ∷ others)) user_columns ann_row [] (ann ∷ [])
      refl accepted stored (omega arith) ann-decoded 9 (text "secret")
      (server_of (users_answer ∷ others)) (prepared (users_answer ∷ others)) json clock
      running_state last (text "ann") (text "pw") ann started run ann-found
