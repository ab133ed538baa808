-- ===== src/Session/Records.antt =====
-- The handlers of ClientSession.cpp for collecting an asset and for the browsing history.
use sever_code.Prelude.{
  ℕ, Bool, false, List, [], ◌∷◌, Bytes, text, ltb, ◌&&◌, Outcome, ok, ◌>>=◌, if◌then◌else◌,
}
use sever_code.Users.Types.{User, new_user, SqlClient, World}
use sever_code.Users.Account.{get_user_info_by_username}
use sever_code.Users.Assets.{add_collect_info, add_browse_info}
use sever_code.Users.Collect.{remove_one_collect_info}
use sever_code.Session.{JsonLib, Reply, number, msg_type_add_collect, msg_type_add_history}
use sever_code.Session.{minus_one, string_at, int_at, with_members}
use sever_code.Session.TableId.{TimeLib, Moment, get_table_id}

-- `c_State > 0` on an int.
unfoldable pub positive : ℕ → Bool
positive n = ltb 0 n && ltb n 2147483648

module _ (J : JsonLib) where
  -- The reply of both handlers. The state is assigned after the other members.
  unfoldable pub record_text : ℕ → Bool → List (Bytes × J.Value) → Bytes
  unfolding with_members
  record_text msg_type is_ok members =
      let json = with_members J J.null ((text "msgType", J.int msg_type) ∷ []) in
      let json' = if is_ok then with_members J json members else json in
      J.write (
        with_members J json' ((text "responsesState", J.int (if is_ok then 1 else minus_one)) ∷ []))

module _ (J : JsonLib) (D : SqlClient) (T : TimeLib) where
  -- The handler behind the search for the user.
  unfoldable pub collect_for :
      Moment → J.Value → Bytes → User → World D.Server → Outcome (Reply D.Server)
  unfolding string_at int_at get_table_id add_collect_info remove_one_collect_info positive
      record_text
  collect_for moment root username u w = do
    assets_title ← string_at J (text "title") root
    f_type ← string_at J (text "fileType") root
    c_state ← int_at J (text "collectState") root
    let (is_ok, w') =
        if positive c_state
        then add_collect_info D (get_table_id T moment (text "collect")) u.u_id f_type assets_title
            w
        else remove_one_collect_info D u.u_id assets_title f_type w
    ok (
      record_text J (number msg_type_add_collect) is_ok (
            (text "title", J.str assets_title)
            ∷ (text "fileType", J.str f_type)
            ∷ (text "username", J.str username)
            ∷ (text "collectState", J.int c_state)
            ∷ [])
          ∷ [],
      w',
    )

  unfoldable pub on_add_collect_info : Moment → Bytes → World D.Server → Outcome (Reply D.Server)
  unfolding string_at get_user_info_by_username new_user record_text collect_for
  on_add_collect_info moment msg w =
      let (parsed, root) = J.parse msg in
      if parsed
      then (do
        username ← string_at J (text "username") root
        let (found, u) = get_user_info_by_username username new_user w.manager
        if found
            then collect_for moment root username u w
            else ok (record_text J (number msg_type_add_collect) false [] ∷ [], w))
      else ok ([], w)

  unfoldable pub browse_for :
      Moment → J.Value → Bytes → User → World D.Server → Outcome (Reply D.Server)
  unfolding string_at get_table_id add_browse_info record_text
  browse_for moment root username u w = do
    assets_title ← string_at J (text "title") root
    f_type ← string_at J (text "fileType") root
    let b_id = get_table_id T moment (text "browse")
    let (is_ok, w') = add_browse_info D b_id u.u_id f_type assets_title w
    ok (
      record_text J (number msg_type_add_history) is_ok (
            (text "title", J.str assets_title)
            ∷ (text "fileType", J.str f_type)
            ∷ (text "username", J.str username)
            ∷ [])
          ∷ [],
      w',
    )

  unfoldable pub on_add_history_info : Moment → Bytes → World D.Server → Outcome (Reply D.Server)
  unfolding string_at get_user_info_by_username new_user record_text browse_for
  on_add_history_info moment msg w =
      let (parsed, root) = J.parse msg in
      if parsed
      then (do
        username ← string_at J (text "username") root
        let (found, u) = get_user_info_by_username username new_user w.manager
        if found
            then browse_for moment root username u w
            else ok (record_text J (number msg_type_add_history) false [] ∷ [], w))
      else ok ([], w)
