-- ===== src/Session/Login.antt =====
-- `OnLoginResponse` of ClientSession.cpp.
use sever_code.Prelude.{
  ℕ, [], ◌∷◌, ◌++◌, Bytes, text, same, ◌&&◌, Outcome, ok, ◌>>=◌, if◌then◌else◌,
}
use sever_code.Users.Types.{User, new_user, UserManager, SqlClient, World}
use sever_code.Users.Account.{get_user_info_by_username}
use sever_code.Session.{
  JsonLib, Reply, number, msg_type_login, f_type_img, minus_one, string_at, with_members,
}
use sever_code.Session.Models.{state_text}
use sever_code.Session.Info.{on_get_dynamic_info, on_get_history_info, on_get_collect_info}

-- `l_state` and `_user`: the test of name and password runs on `_user` also where no user was
-- found, when it is the one that the default constructor makes.
unfoldable pub login_state : Bytes → Bytes → UserManager → ℕ × User
unfolding get_user_info_by_username new_user
login_state user_name password m =
    let (found, user) = get_user_info_by_username user_name new_user m in
    let l_state = if found then minus_one else 0 in
    (if same user_name user.username && same password user.password then 1 else l_state, user)

module _ (J : JsonLib) where
  unfoldable pub login_text : ℕ → User → Bytes
  unfolding state_text
  login_text l_state user = state_text J (number msg_type_login) l_state (
      (text "username", J.str user.username)
      ∷ (text "user_sex", J.bool user.sex)
      ∷ (text "filePath", J.str user.custimface)
      ∷ (text "filetype", J.int f_type_img)
      ∷ [])

  -- The message that the handler writes for the three that follow it.
  unfoldable pub name_text : User → Bytes
  unfolding with_members
  name_text user = J.write (with_members J J.null ((text "username", J.str user.username) ∷ []))

-- Two handlers in turn: the messages of the second follow those of the first.
unfoldable pub in_turn :
    {S : Type 0} → Outcome (Reply S) → (World S → Outcome (Reply S)) → Outcome (Reply S)
in_turn m next = do (first, w) ← m; (second, w') ← next w; ok (first ++ second, w')

module _ (J : JsonLib) (D : SqlClient) where
  -- The three handlers that follow a login.
  unfoldable pub login_info : Bytes → World D.Server → Outcome (Reply D.Server)
  unfolding on_get_dynamic_info on_get_history_info on_get_collect_info in_turn
  login_info name w =
      in_turn (on_get_dynamic_info J D name w)
        λ w₁. in_turn (on_get_history_info J D name w₁) λ w₂. on_get_collect_info J D name w₂

  unfoldable pub on_login : Bytes → World D.Server → Outcome (Reply D.Server)
  unfolding string_at login_state login_text name_text login_info in_turn
  on_login msg w =
      let (parsed, root) = J.parse msg in
      if parsed
      then (do
        user_name ← string_at J (text "username") root
        password ← string_at J (text "password") root
        let (l_state, user) = login_state user_name password w.manager
        in_turn (ok (login_text J l_state user ∷ [], w)) (login_info (name_text J user)))
      else ok ([], w)
