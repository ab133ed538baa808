-- ===== src/Server/Handled.antt =====
-- What each handler of ClientSession.cpp leaves of the lists in memory.
use sever_code.Prelude.{◌≡◌, refl, sym, Bool, true, false, Option, none, some, List, [], ◌++◌}
use sever_code.Prelude.{◌∷◌, text, Bytes, Outcome, ok, ◌>>=◌, if◌then◌else◌}
use mathlib.Core.Path.{subst}
use sever_code.Sql.{QueryResult}
use sever_code.Sql.Loop.{each_row, sized}
use sever_code.Users.Types.{User, new_user, UserManager, SqlClient, World}
use sever_code.Users.Assets.{Lists, no_assets, add_collect_info}
use sever_code.Users.Collect.{remove_one_collect_info}
use sever_code.Users.Titles.{
  selection_of, get_selection, get_history_info, get_collect_info, select_row,
}
use sever_code.Users.Account.{get_user_info_by_username}
use sever_code.Session.{JsonLib, Reply, MsgType, number, string_at, int_at}
use sever_code.Session.Models.{info_text}
use sever_code.Users.Statements.{select_browse, select_collect}
use sever_code.Session.{
  msg_type_heartbeat, msg_type_login, msg_type_register, msg_type_upload_video,
}
use sever_code.Session.{msg_type_upload_audio, msg_type_upload_text, msg_type_load_history}
use sever_code.Session.{msg_type_load_dynamic, msg_type_load_normal, msg_type_load_collect}
use sever_code.Session.{msg_type_load_search, msg_type_add_history, msg_type_add_collect}
use sever_code.Session.TableId.{TimeLib, Moment}
use sever_code.Session.Info.{
  on_get_dynamic_info, on_get_collect_info, on_get_history_info, on_get_search_info,
}
use sever_code.Session.Login.{on_login, login_info, in_turn, login_state, login_text, name_text}
use sever_code.Session.Register.{on_register}
use sever_code.Session.Upload.{on_upload_text, on_upload_audio, on_upload_video}
use sever_code.Session.Records.{on_add_collect_info, on_add_history_info, collect_for, browse_for}
use sever_code.Session.Process.{handle, on_read, process, dispatch, msg_type_of}
use sever_code.Server.Ensures.{Ensures, Ensures-ok, Ensures-bind, Ensures-then, Ensures-if}
use sever_code.Server.Grown.{
  Grows, Grows-refl, Grows-trans, add_user-Grows, add_word_info-Grows, add_audio_info-Grows,
  add_video_info-Grows, add_browse_info-Grows, add_collect_info-Grows,
  remove_one_collect_info-Grows,
}

-- The reply leaves a world that has grown.
abbrev pub Kept : {S : Type 0} → UserManager → Reply S → Type 0
Kept m r = Grows m r.1.manager

abbrev pub Keeps : {S : Type 0} → World S → Outcome (Reply S) → Type 0
Keeps w o = Ensures (Kept w.manager) o

-- A query changes no list.
abbrev Same : {S : Type 0} → World S → Bool × Lists × World S → Type 0
Same w r = r.2.manager ≡ w.manager

module _ (D : SqlClient) (select : Bytes → Bytes) (type title : Bytes) (l : Lists)
    (w : World D.Server) where
  selection_of-Same : (u : User) → Ensures (Same w) (selection_of D select type title l u w)
  unfolding selection_of
  selection_of-Same u = go (D.query (select u.u_id) w.server).0
    where
      go :
          (result : Option QueryResult)
          → Ensures (Same w) (elim result [
            | none ↦ ok (false, l, record w { server = (D.query (select u.u_id) w.server).1 })
            | some r ↦ do
              l' ← each_row sized (select_row w.manager type title) r l
              ok (true, l', record w { server = (D.query (select u.u_id) w.server).1 })
          ])
      go none = Ensures-ok (Same w) _ refl
      go (some r) = Ensures-bind (Same w) _ _ (λ l'. Ensures-ok (Same w) _ refl)

  get_selection-Same :
      (name : Bytes) → Ensures (Same w) (get_selection D select type title l name w)
  unfolding get_selection
  get_selection-Same name =
      Ensures-if (Same w) _ _ _
        (selection_of-Same ((get_user_info_by_username name new_user w.manager).1))
        (Ensures-ok (Same w) _ refl)

Kept-Same :
    {S : Type 0} (w : World S) (out : List Bytes) (r : Bool × Lists × World S)
    → Same w r
    → Kept w.manager (out, r.2)
Kept-Same w out r h = subst (Grows w.manager) (sym h) (Grows-refl w.manager)

Keeps-in_turn :
    {S : Type 0} (w : World S) (m : Outcome (Reply S)) (next : World S → Outcome (Reply S))
    → Keeps w m
    → ((v : World S) → Keeps v (next v))
    → Keeps w (in_turn m next)
unfolding in_turn
Keeps-in_turn w m next h hs = Ensures-then (Kept w.manager) (Kept w.manager) m _ h λ first kept.
    Ensures-then (Kept first.1.manager) (Kept w.manager) (next first.1) _ (hs first.1)
      λ second more. Ensures-ok (Kept w.manager) _ (Grows-trans _ _ _ kept more)

module _ (J : JsonLib) (D : SqlClient) (msg : Bytes) (w : World D.Server) where
  on_get_dynamic_info-Keeps : Keeps w (on_get_dynamic_info J D msg w)
  on_get_dynamic_info-Keeps =
      unfold on_get_dynamic_info in search (Ensures-bind, Ensures-ok, Ensures-if, Grows-refl)

  on_get_search_info-Keeps : Keeps w (on_get_search_info J D msg w)
  on_get_search_info-Keeps =
      unfold on_get_search_info in search (Ensures-bind, Ensures-ok, Ensures-if, Grows-refl)

  reply : MsgType → Bool × Lists × World D.Server → Outcome (Reply D.Server)
  unfolding info_text
  reply t r = ok ((info_text J (number t) r.1 ++ text "\r\n") ∷ [], r.2)

  replied : (t : MsgType) (r : Bool × Lists × World D.Server) → Same w r → Keeps w (reply t r)
  unfolding reply
  replied t r same = Ensures-ok (Kept w.manager) _ (Kept-Same w [] r same)

  get_history_info-Same : (name : Bytes) → Ensures (Same w) (get_history_info D no_assets name w)
  unfolding get_history_info
  get_history_info-Same name =
      get_selection-Same D select_browse (text "b_assetsType") (text "b_browseTitle") no_assets w
        name

  get_collect_info-Same : (name : Bytes) → Ensures (Same w) (get_collect_info D no_assets name w)
  unfolding get_collect_info
  get_collect_info-Same name =
      get_selection-Same D select_collect (text "c_assetsType") (text "c_assetsTitle") no_assets w
        name

  on_get_history_info-Keeps : Keeps w (on_get_history_info J D msg w)
  on_get_history_info-Keeps =
      unfold on_get_history_info reply in
      Ensures-if (Kept w.manager) (J.parse msg).0
        (string_at J (text "username") (J.parse msg).1 >>= λ name.
          get_history_info D no_assets name w >>= reply msg_type_load_history)
        (ok ([], w))
        (Ensures-bind (Kept w.manager) (string_at J (text "username") (J.parse msg).1)
          (λ name. get_history_info D no_assets name w >>= reply msg_type_load_history)
          λ name.
            Ensures-then (Same w) (Kept w.manager) (get_history_info D no_assets name w)
              (reply msg_type_load_history) (get_history_info-Same name)
              (replied msg_type_load_history))
        (Ensures-ok (Kept w.manager) ([], w) (Grows-refl w.manager))

  on_get_collect_info-Keeps : Keeps w (on_get_collect_info J D msg w)
  on_get_collect_info-Keeps =
      unfold on_get_collect_info reply in
      Ensures-if (Kept w.manager) (J.parse msg).0
        (string_at J (text "username") (J.parse msg).1 >>= λ name.
          get_collect_info D no_assets name w >>= reply msg_type_load_collect)
        (ok ([], w))
        (Ensures-bind (Kept w.manager) (string_at J (text "username") (J.parse msg).1)
          (λ name. get_collect_info D no_assets name w >>= reply msg_type_load_collect)
          λ name.
            Ensures-then (Same w) (Kept w.manager) (get_collect_info D no_assets name w)
              (reply msg_type_load_collect) (get_collect_info-Same name)
              (replied msg_type_load_collect))
        (Ensures-ok (Kept w.manager) ([], w) (Grows-refl w.manager))

module _ (J : JsonLib) (D : SqlClient) (T : TimeLib) (moment : Moment) (msg : Bytes)
    (w : World D.Server) where
  on_register-Keeps : Keeps w (on_register J D T moment msg w)
  on_register-Keeps =
      unfold on_register in
      search (Ensures-bind, Ensures-ok, Ensures-if, Grows-refl, add_user-Grows)

  on_upload_text-Keeps : Keeps w (on_upload_text J D T moment msg w)
  on_upload_text-Keeps =
      unfold on_upload_text in
      search (Ensures-bind, Ensures-ok, Ensures-if, Grows-refl, add_word_info-Grows)

  on_upload_audio-Keeps : Keeps w (on_upload_audio J D T moment msg w)
  on_upload_audio-Keeps =
      unfold on_upload_audio in
      search (Ensures-bind, Ensures-ok, Ensures-if, Grows-refl, add_audio_info-Grows)

  on_upload_video-Keeps : Keeps w (on_upload_video J D T moment msg w)
  on_upload_video-Keeps =
      unfold on_upload_video in
      search (Ensures-bind, Ensures-ok, Ensures-if, Grows-refl, add_video_info-Grows)

  browse_for-Keeps :
      (root : J.Value) (name : Bytes) (u : User) → Keeps w (browse_for J D T moment root name u w)
  browse_for-Keeps root name u =
      unfold browse_for in search (Ensures-bind, Ensures-ok, add_browse_info-Grows)

  changed :
      (b : Bool) (id uid type title : Bytes)
      → Grows w.manager
          (if b
            then add_collect_info D id uid type title w
            else remove_one_collect_info D uid title type w).1.manager
  changed true id uid type title = add_collect_info-Grows D w id uid type title
  changed false id uid type title = remove_one_collect_info-Grows D w uid title type

  collect_for-Keeps :
      (root : J.Value) (name : Bytes) (u : User) → Keeps w (collect_for J D T moment root name u w)
  collect_for-Keeps root name u = unfold collect_for in search (Ensures-bind, Ensures-ok, changed)

  on_add_history_info-Keeps : Keeps w (on_add_history_info J D T moment msg w)
  on_add_history_info-Keeps =
      unfold on_add_history_info in
      search (browse_for-Keeps, Ensures-bind, Ensures-ok, Ensures-if, Grows-refl)

  on_add_collect_info-Keeps : Keeps w (on_add_collect_info J D T moment msg w)
  on_add_collect_info-Keeps =
      unfold on_add_collect_info in
      search (collect_for-Keeps, Ensures-bind, Ensures-ok, Ensures-if, Grows-refl)

login_info-Keeps :
    (J : JsonLib) (D : SqlClient) (name : Bytes) (w : World D.Server)
    → Keeps w (login_info J D name w)
unfolding login_info
login_info-Keeps J D name w = Keeps-in_turn w _ _ (on_get_dynamic_info-Keeps J D name w) λ w₁.
    Keeps-in_turn w₁ _ _ (on_get_history_info-Keeps J D name w₁)
      λ w₂. on_get_collect_info-Keeps J D name w₂

answered-Keeps :
    (J : JsonLib) (D : SqlClient) (w : World D.Server) (name password : Bytes)
    → let (l_state, user) = login_state name password w.manager in
      Keeps w (in_turn (ok (login_text J l_state user ∷ [], w)) (login_info J D (name_text J user)))
answered-Keeps J D w name password =
    Keeps-in_turn w _ _ (Ensures-ok (Kept w.manager) _ (Grows-refl w.manager))
      λ v. login_info-Keeps J D _ v

on_login-Keeps :
    (J : JsonLib) (D : SqlClient) (msg : Bytes) (w : World D.Server) → Keeps w (on_login J D msg w)
on_login-Keeps J D msg w =
    unfold on_login in search (answered-Keeps, Ensures-bind, Ensures-ok, Ensures-if, Grows-refl)

module _ (J : JsonLib) (D : SqlClient) (T : TimeLib) (moment : Moment) (msg : Bytes)
    (w : World D.Server) where
  handle-Keeps : (t : MsgType) → Keeps w (handle J D T t moment msg w)
  unfolding handle
  handle-Keeps msg_type_heartbeat = Ensures-ok (Kept w.manager) _ (Grows-refl w.manager)
  handle-Keeps msg_type_login = on_login-Keeps J D msg w
  handle-Keeps msg_type_register = on_register-Keeps J D T moment msg w
  handle-Keeps msg_type_upload_video = on_upload_video-Keeps J D T moment msg w
  handle-Keeps msg_type_upload_audio = on_upload_audio-Keeps J D T moment msg w
  handle-Keeps msg_type_upload_text = on_upload_text-Keeps J D T moment msg w
  handle-Keeps msg_type_load_history = on_get_history_info-Keeps J D msg w
  handle-Keeps msg_type_load_dynamic = on_get_dynamic_info-Keeps J D msg w
  handle-Keeps msg_type_load_normal = Ensures-ok (Kept w.manager) _ (Grows-refl w.manager)
  handle-Keeps msg_type_load_collect = on_get_collect_info-Keeps J D msg w
  handle-Keeps msg_type_load_search = on_get_search_info-Keeps J D msg w
  handle-Keeps msg_type_add_history = on_add_history_info-Keeps J D T moment msg w
  handle-Keeps msg_type_add_collect = on_add_collect_info-Keeps J D T moment msg w

  -- What a message leaves, if the server is still there behind it.
  abbrev pub Answered : Bool × Reply D.Server → Type 0
  Answered r = Grows w.manager r.1.1.manager

  dispatch-Keeps : (t : Option MsgType) → Ensures Answered (dispatch J D T t moment msg w)
  unfolding dispatch
  dispatch-Keeps none = Ensures-ok Answered _ (Grows-refl w.manager)
  dispatch-Keeps (some t) =
      Ensures-then (Kept w.manager) Answered _ _ (handle-Keeps t)
        λ r kept. Ensures-ok Answered _ kept

  pub on_read-Keeps : Ensures Answered (on_read J D T moment msg w)
  unfolding on_read process
  on_read-Keeps =
      Ensures-then Answered Answered (process J D T moment msg w) _
        (unfold process in
          Ensures-bind Answered (int_at J (text "msgType") (J.parse msg).1) _
            λ cmd. dispatch-Keeps (msg_type_of cmd))
        λ r kept. Ensures-ok Answered _ kept
