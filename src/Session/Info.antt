-- ===== src/Session/Info.antt =====
-- The handlers of ClientSession.cpp that list assets.
use sever_code.Prelude.{[], ◌∷◌, ◌++◌, Bytes, text, Outcome, ok, ◌>>=◌, if◌then◌else◌}
use sever_code.Users.Types.{SqlClient, World}
use sever_code.Users.Assets.{
  no_assets, get_video_info, get_audio_info, get_word_info, get_dynamic_info,
}
use sever_code.Users.Titles.{get_history_info, get_collect_info}
use sever_code.Session.{
  JsonLib, Reply, number, msg_type_load_collect, msg_type_load_dynamic, msg_type_load_history,
  msg_type_load_normal, string_at,
}
use sever_code.Session.Models.{info_text}

module _ (J : JsonLib) (D : SqlClient) where
  -- `OnGetNotmalInfoResponse`: all assets; what the client sent is not looked at.
  unfoldable pub on_get_normal_info : Bytes → World D.Server → Outcome (Reply D.Server)
  unfolding get_video_info get_audio_info get_word_info info_text
  on_get_normal_info msg w = ok (
    info_text J (number msg_type_load_normal) (record {
      videos = (get_video_info [] w.manager).1;
      audios = (get_audio_info [] w.manager).1;
      words = (get_word_info [] w.manager).1;
    })
        ∷ [],
    w,
  )

  -- `OnGetDynamicInfoResponse`.
  unfoldable pub on_get_dynamic_info : Bytes → World D.Server → Outcome (Reply D.Server)
  unfolding string_at get_dynamic_info no_assets info_text
  on_get_dynamic_info msg w =
      let (parsed, root) = J.parse msg in
      if parsed
      then (do
        user_name ← string_at J (text "username") root
        let (done, l) = get_dynamic_info no_assets user_name w.manager
        ok ((info_text J (number msg_type_load_dynamic) l ++ text "\r\n") ∷ [], w))
      else ok ([], w)

  -- `OnGetCollectInfoResponse`.
  unfoldable pub on_get_collect_info : Bytes → World D.Server → Outcome (Reply D.Server)
  unfolding string_at get_collect_info no_assets info_text
  on_get_collect_info msg w =
      let (parsed, root) = J.parse msg in
      if parsed
      then (do
        user_name ← string_at J (text "username") root
        (done, l, w') ← get_collect_info D no_assets user_name w
        ok ((info_text J (number msg_type_load_collect) l ++ text "\r\n") ∷ [], w'))
      else ok ([], w)

  -- `OnGetHistoryInfoResponse`.
  unfoldable pub on_get_history_info : Bytes → World D.Server → Outcome (Reply D.Server)
  unfolding string_at get_history_info no_assets info_text
  on_get_history_info msg w =
      let (parsed, root) = J.parse msg in
      if parsed
      then (do
        user_name ← string_at J (text "username") root
        (done, l, w') ← get_history_info D no_assets user_name w
        ok ((info_text J (number msg_type_load_history) l ++ text "\r\n") ∷ [], w'))
      else ok ([], w)

  -- `OnGetSearchInfoResponse`: the text searched for is read, and nothing is sent.
  unfoldable pub on_get_search_info : Bytes → World D.Server → Outcome (Reply D.Server)
  unfolding string_at
  on_get_search_info msg w =
      let (parsed, root) = J.parse msg in
      if parsed
      then (do search_str ← string_at J (text "searchInfo") root; ok ([], w))
      else ok ([], w)
