-- ===== src/Session/Tests.antt =====
-- Runs of ClientSession.
use sever_code.Prelude.{
  ◌≡◌, ◌≢◌, refl, arith, true, false, none, some, List, [], ◌∷◌, ◌++◌, Bytes, text, same,
}
use sever_code.Prelude.{ok}
use sever_code.Users.Types.{User, new_user, WordInfo, AudioInfo, VideoInfo, World}
use sever_code.Users.Account.{find_user, add_user, get_user_info_by_username}
use sever_code.Session.{MsgType, number, string_at, bool_at, int_at, minus_one, with_members}
use sever_code.Session.{
  msg_type_heartbeat, msg_type_login, msg_type_register, msg_type_upload_video,
}
use sever_code.Session.{msg_type_upload_audio, msg_type_upload_text, msg_type_load_history}
use sever_code.Session.{msg_type_load_dynamic, msg_type_load_normal, msg_type_load_collect}
use sever_code.Session.{msg_type_load_search, msg_type_add_history, msg_type_add_collect}
use sever_code.Session.TableId.{get_table_id}
use sever_code.Session.Distance.{levenshtein_distance, next_cells, last_row, count_from, last_cell}
use sever_code.Session.Distance.{edit, turned, levenshtein_distance-edit}
use sever_code.Session.Models.{state_text}
use sever_code.Session.Login.{login_state, name_text}
use sever_code.Session.Register.{registered, on_register}
use sever_code.Session.Upload.{uid_of, uploaded_text, uploaded_audio, uploaded_video}
use sever_code.Session.Process.{handle, on_read}
use sever_code.Session.Dispatch.{left_open, route, routes, on_read-route}
use sever_code.Session.Replies.{Sends, replies, handle-Sends}
use sever_code.Session.Accounts.{
  login_answer, login_state-find_user, on_register-login_state, on_register-login_state_taken,
}
use sever_code.Session.Stored.{word_of}
use sever_code.Session.Small.{
  Json, null, int, str, member, get, as_string, as_int, as_bool, split, value, members, parse, json,
}
use sever_code.Session.Small.{clock, moment, client, empty_manager, start}

-- Names and values as a message.
abbrev joined : List Bytes → Bytes
joined [] = []
joined (s ∷ ss) = s ++ (0 ∷ joined ss)

abbrev message : List Bytes → Bytes
message fields = b'{' ∷ joined fields

abbrev register_ann : Bytes
register_ann =
    message (
      text "msgType" ∷ text "#f" ∷ text "username" ∷ text "ann" ∷ text "password" ∷ text "new" ∷ [])

abbrev register_root : Json
register_root =
    member (text "msgType") (int 102) (
      member (text "username") (str (text "ann"))
        (member (text "password") (str (text "new")) null))

abbrev ann : User
ann = record {
  userid = 0;
  u_id = get_table_id clock moment (text "user");
  username = text "ann";
  password = text "new";
  custimface = [];
  sex = false;
}

-- Another user of the name, with another password.
abbrev first_ann : User
first_ann = record ann { password = text "old" }

abbrev taken : World Unit
taken = record { manager = record empty_manager { cached_users = first_ann ∷ [] }; server = tt }

ann-parsed : json.parse register_ann ≡ (true, register_root)
unfolding parse members split value
ann-parsed = refl

ann-registered : registered json clock moment register_root ≡ ok ann
unfolding registered string_at bool_at get as_string as_bool same new_user
ann-registered = refl

ann-msg_type :
    int_at json (text "msgType") (json.parse register_ann).1 ≡ ok (number msg_type_register)
unfolding int_at get as_int same parse members split value
ann-msg_type = refl

first_ann-found : find_user (text "ann") (first_ann ∷ []) ≡ some first_ann
unfolding find_user same
first_ann-found = refl

no_user : find_user (text "ann") [] ≡ none
unfolding find_user
no_user = refl

login_state-find_user_example :
    login_state [] [] empty_manager ≡ login_answer [] [] (find_user [] [])
login_state-find_user_example = login_state-find_user [] [] empty_manager

on_register-login_state_example :
    (w' : World Unit) × (on_register json client clock moment register_ann start
      ≡ ok (state_text json (number msg_type_register) 1 [] ∷ [], w'))
    × (login_state (text "ann") (text "new") w'.manager ≡ (1, (add_user client ann start).1))
on_register-login_state_example =
    on_register-login_state json client clock start register_ann register_root moment ann ann-parsed
      ann-registered refl no_user

differ : same (text "new") (text "old") ≡ false
unfolding same
differ = refl

on_register-login_state_taken_example :
    (w' : World Unit) × (on_register json client clock moment register_ann taken
      ≡ ok (state_text json (number msg_type_register) 1 [] ∷ [], w'))
    × (login_state (text "ann") (text "new") w'.manager ≡ (minus_one, first_ann))
on_register-login_state_taken_example =
    on_register-login_state_taken json client clock taken register_ann register_root moment ann
      first_ann ann-parsed ann-registered refl first_ann-found differ

on_read-route_example :
    on_read json client clock moment register_ann start
    ≡ left_open json client clock moment register_ann start (
        route json client clock moment register_ann start 102
          (routes json client clock moment register_ann start))
on_read-route_example = on_read-route json client clock moment register_ann start 102 ann-msg_type

abbrev unknown_msg : Bytes
unknown_msg = message (text "msgType" ∷ text "#A" ∷ [])

unknown-msg_type : int_at json (text "msgType") (json.parse unknown_msg).1 ≡ ok 65
unfolding int_at get as_int same parse members split value
unknown-msg_type = refl

not_65 : (t : MsgType) → number t ≢ 65
not_65 msg_type_heartbeat e = omega arith
not_65 msg_type_login e = omega arith
not_65 msg_type_register e = omega arith
not_65 msg_type_upload_video e = omega arith
not_65 msg_type_upload_audio e = omega arith
not_65 msg_type_upload_text e = omega arith
not_65 msg_type_load_history e = omega arith
not_65 msg_type_load_dynamic e = omega arith
not_65 msg_type_load_normal e = omega arith
not_65 msg_type_load_collect e = omega arith
not_65 msg_type_load_search e = omega arith
not_65 msg_type_add_history e = omega arith
not_65 msg_type_add_collect e = omega arith

unparsed : (json.parse (text "no JSON")).0 ≡ false
unfolding parse
unparsed = refl

written : (user : User) → (json.parse (name_text json user)).0 ≡ true
unfolding name_text with_members parse
written user = refl

ann-readable : (json.parse register_ann).0 ≡ true
unfolding parse
ann-readable = refl

handle-Sends_example :
    Sends
      (replies msg_type_login)
      (handle json client clock msg_type_login moment register_ann start)
handle-Sends_example =
    handle-Sends json client clock moment register_ann start written msg_type_login ann-readable

-- An upload with the name of nobody.
abbrev upload : Bytes
upload = message (text "username" ∷ text "bob" ∷ text "title" ∷ text "film" ∷ [])

abbrev upload_root : Json
upload_root =
    member (text "username") (str (text "bob")) (member (text "title") (str (text "film")) null)

abbrev word : WordInfo
word = record {
  uid = [];
  t_id = get_table_id clock moment [];
  title = text "film";
  up_name = text "bob";
  courses_str = [];
  file_data = [];
}

abbrev audio : AudioInfo
audio = record {
  a_id = get_table_id clock moment [];
  a_up_name = text "bob";
  a_title = text "film";
  a_file_path = [];
  a_head_img_path = [];
  a_courses = [];
  a_uid = [];
}

abbrev video : VideoInfo
video = record {
  v_id = get_table_id clock moment [];
  v_up_name = text "bob";
  v_title = text "film";
  v_file_path = [];
  v_head_img_path = [];
  v_courses = [];
  v_synopsis = [];
  v_uid = [];
}

word-uploaded : uploaded_text json clock moment upload_root empty_manager ≡ ok word
unfolding uploaded_text string_at get as_string same uid_of get_user_info_by_username find_user
    new_user
word-uploaded = refl

audio-uploaded : uploaded_audio json clock moment upload_root empty_manager ≡ ok audio
unfolding uploaded_audio string_at get as_string same uid_of get_user_info_by_username find_user
    new_user
audio-uploaded = refl

video-uploaded : uploaded_video json clock moment upload_root empty_manager ≡ ok video
unfolding uploaded_video string_at get as_string same uid_of get_user_info_by_username find_user
    new_user
video-uploaded = refl

abbrev stored_word : WordInfo
stored_word =
    word_of json client clock start upload upload_root moment (text "bob") [] [] [] (text "film")

levenshtein_distance-edit_example :
    levenshtein_distance (text "kitten") (text "sitting")
    ≡ edit (turned (text "kitten") []) (turned (text "sitting") [])
levenshtein_distance-edit_example =
    levenshtein_distance-edit (text "kitten") (text "sitting") (omega arith)

kitten : levenshtein_distance (text "kitten") (text "sitting") ≡ 3
unfolding levenshtein_distance last_row next_cells count_from last_cell
kitten = refl
