-- ===== src/Users/Tests.antt =====
-- Runs of UserManager on a server with one answer to every query, which accepts every statement.
use sever_code.Prelude.{
  ◌≡◌, refl, arith, true, false, none, some, List, [], ◌∷◌, ◌++◌, Bytes, text, same, if◌then◌else◌,
  ok,
}
use sever_code.Sql.{
  Column, Row, ResultSet, new_query_result, string, nonzero_digits, skip_sign, skip_space,
  atoi_nonzero,
}
use sever_code.Sql.Rows.{row_text, cells, cell}
use sever_code.Users.Types.{User, new_user, VideoInfo, CollectInfo, UserManager, SqlClient, World}
use sever_code.Users.Account.{find_user}
use sever_code.Users.Assets.{no_assets, add_collect_info}
use sever_code.Users.Statements.{insert_user, insert_user_ambiguous}
use sever_code.Users.Loading.{load, users_table, read_user}
use sever_code.Users.Loaded.{decoded, load-decoded}
use sever_code.Users.Selection.{entries, selected, join}
use sever_code.Users.Titles.{get_history_info}
use sever_code.Users.Selection.{get_history_info_rows}
use sever_code.Users.Collect.{
  IsFirst, is_collect, exists_collect, remove_one_collect_info, remove_one_collect_info_first,
}

abbrev column : Bytes → Column
column name = record { name = name; type = string }

abbrev client : ResultSet → SqlClient
client answer = record {
  Server = Unit;
  execute = λ sql s. (true, s);
  query = λ sql s. (some (new_query_result answer 1), s);
}

abbrev empty_manager : UserManager
empty_manager = record {
  cached_users = [];
  cache_video_info = [];
  cache_audio_info = [];
  cache_word_info = [];
  cache_browse_info = [];
  cache_collect_info = [];
  map_users = [];
  base_user_id = 0;
}

abbrev user_columns : List Column
user_columns =
    column (text "u_id")
    ∷ column (text "u_userName")
    ∷ column (text "u_password")
    ∷ column (text "u_headImage")
    ∷ column (text "u_sex")
    ∷ []

abbrev ann_row : Row
ann_row = some (text "u1") ∷ some (text "ann") ∷ some (text "pw") ∷ none ∷ some (text "1") ∷ []

abbrev ann : User
ann = record {
  userid = 0;
  u_id = text "u1";
  username = text "ann";
  password = text "pw";
  custimface = [];
  sex = true;
}

abbrev users_answer : SqlClient
users_answer = client (record { columns = user_columns; rows = ann_row ∷ [] })

abbrev start : World Unit
start = record { manager = empty_manager; server = tt }

ann-decoded : decoded users_table user_columns (ann_row ∷ []) ≡ ok (ann ∷ [])
unfolding decoded read_user new_user row_text cells cell same atoi_nonzero nonzero_digits skip_sign
    skip_space
ann-decoded = refl

load-decoded_example :
    load users_answer users_table start
    ≡ ok (
      true,
      record { manager = record empty_manager { cached_users = [] ++ (ann ∷ []) }; server = tt },
    )
load-decoded_example =
    load-decoded users_answer users_table start user_columns 1 tt (omega arith) ann_row []
      (ann ∷ []) refl ann-decoded

abbrev film : VideoInfo
film = record {
  v_id = text "v1";
  v_up_name = text "ann";
  v_title = text "film";
  v_file_path = text "f.mp4";
  v_head_img_path = [];
  v_courses = [];
  v_synopsis = [];
  v_uid = text "u1";
}

abbrev with_film : World Unit
with_film = record {
  manager = record empty_manager { cached_users = ann ∷ []; cache_video_info = film ∷ [] };
  server = tt;
}

abbrev entry_row : Row
entry_row = some (text "video") ∷ some (text "film") ∷ []

abbrev history_columns : List Column
history_columns = column (text "b_assetsType") ∷ column (text "b_browseTitle") ∷ []

abbrev collect_columns : List Column
collect_columns = column (text "c_assetsType") ∷ column (text "c_assetsTitle") ∷ []

ann-found : find_user (text "ann") (ann ∷ []) ≡ some ann
unfolding find_user same
ann-found = refl

history-entries :
    entries history_columns (text "b_assetsType") (text "b_browseTitle") (entry_row ∷ [])
    ≡ ok ((text "video", text "film") ∷ [])
unfolding entries row_text cells cell same
history-entries = refl

collect-entries :
    entries collect_columns (text "c_assetsType") (text "c_assetsTitle") (entry_row ∷ [])
    ≡ ok ((text "video", text "film") ∷ [])
unfolding entries row_text cells cell same
collect-entries = refl

get_history_info_rows_example :
    get_history_info
      (client (record { columns = history_columns; rows = entry_row ∷ [] }))
      no_assets
      (text "ann")
      with_film
    ≡ ok (
      true,
      join no_assets (selected with_film.manager ((text "video", text "film") ∷ [])),
      with_film,
    )
get_history_info_rows_example =
    get_history_info_rows (client (record { columns = history_columns; rows = entry_row ∷ [] }))
      with_film (text "ann") no_assets ann history_columns entry_row [] 1 tt
      ((text "video", text "film") ∷ []) ann-found (omega arith) refl history-entries

abbrev other_entry : CollectInfo
other_entry = record {
  c_id = text "c0";
  c_uid = text "u2";
  c_assets_type = text "video";
  c_assets_title = text "film";
}

abbrev entry : CollectInfo
entry = record {
  c_id = text "c1";
  c_uid = text "u1";
  c_assets_type = text "video";
  c_assets_title = text "film";
}

abbrev collected : List CollectInfo → World Unit
collected l = record { manager = record empty_manager { cache_collect_info = l }; server = tt }

entry-fits : IsFirst (text "u1") (text "film") (text "video") (other_entry ∷ []) entry
unfolding is_collect exists_collect same
entry-fits = record { here = refl; not_before = refl }

entry_absent : exists_collect (text "u1") (text "film") (text "video") (other_entry ∷ []) ≡ false
unfolding is_collect exists_collect same
entry_absent = refl

remove_one_collect_info_first_example :
    remove_one_collect_info users_answer
      (text "u1")
      (text "film")
      (text "video")
      (collected (other_entry ∷ entry ∷ entry ∷ []))
    ≡ (
      true,
      record {
        manager = record empty_manager {
          cache_collect_info =
              if true
              then (other_entry ∷ []) ++ (entry ∷ [])
              else (other_entry ∷ []) ++ (entry ∷ entry ∷ []);
        };
        server = tt;
      },
    )
remove_one_collect_info_first_example =
    remove_one_collect_info_first (text "u1") (text "film") (text "video") entry (entry ∷ [])
      users_answer (collected (other_entry ∷ entry ∷ entry ∷ [])) (other_entry ∷ []) refl entry-fits

added-accepted :
    (add_collect_info users_answer
      (text "c1")
      (text "u1")
      (text "video")
      (text "film")
      (collected (other_entry ∷ []))).0
    ≡ true
unfolding add_collect_info
added-accepted = refl

insert_user_ambiguous_example :
    insert_user
      (record ann { username = text "a" ++ (text "','" ++ text "b"); password = text "c" })
    ≡ insert_user
        (record ann { username = text "a"; password = text "b" ++ (text "','" ++ text "c") })
insert_user_ambiguous_example = insert_user_ambiguous ann (text "a") (text "b") (text "c")
