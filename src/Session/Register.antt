-- ===== src/Session/Register.antt =====
-- `OnRegisterResponse` of ClientSession.cpp.
use sever_code.Prelude.{[], ◌∷◌, Bytes, text, Outcome, ok, ◌>>=◌, if◌then◌else◌}
use sever_code.Users.Types.{User, new_user, SqlClient, World}
use sever_code.Users.Account.{add_user}
use sever_code.Session.{JsonLib, Reply, number, msg_type_register, string_at, bool_at}
use sever_code.Session.TableId.{TimeLib, Moment, get_table_id}
use sever_code.Session.Models.{state_text}

module _ (J : JsonLib) (T : TimeLib) where
  -- The user that the message describes.
  unfoldable pub registered : Moment → J.Value → Outcome User
  unfolding new_user string_at bool_at get_table_id
  registered moment root = do
    username ← string_at J (text "username") root
    password ← string_at J (text "password") root
    file_path ← string_at J (text "filePath") root
    user_sex ← bool_at J (text "user_sex") root
    ok (record new_user {
      username = username;
      password = password;
      u_id = get_table_id T moment (text "user");
      custimface = file_path;
      sex = user_sex;
    })

module _ (J : JsonLib) (D : SqlClient) (T : TimeLib) where
  unfoldable pub on_register : Moment → Bytes → World D.Server → Outcome (Reply D.Server)
  unfolding registered add_user state_text
  on_register moment msg w =
      let (parsed, root) = J.parse msg in
      if parsed
      then (do
        user ← registered J T moment root
        let (added, user', w') = add_user D user w
        ok (state_text J (number msg_type_register) (if added then 1 else 0) [] ∷ [], w'))
      else ok ([], w)
