-- ===== src/Session/Upload.antt =====
-- The handlers of ClientSession.cpp for uploads. The user that is not found counts as one with
-- empty fields, and the asset is stored all the same.
use sever_code.Prelude.{Bool, true, false, [], ◌∷◌, Bytes, text, Outcome, ok, ◌>>=◌, if◌then◌else◌}
use sever_code.Users.Types.{new_user, UserManager, WordInfo, AudioInfo, VideoInfo, SqlClient, World}
use sever_code.Users.Account.{get_user_info_by_username}
use sever_code.Users.Assets.{add_word_info, add_audio_info, add_video_info}
use sever_code.Session.{
  JsonLib, Reply, number, msg_type_upload_audio, msg_type_upload_text, msg_type_upload_video,
  string_at,
}
use sever_code.Session.TableId.{TimeLib, Moment, get_table_id}
use sever_code.Session.Models.{state_text}

-- The id of the user of a name, empty for a name without a user.
unfoldable pub uid_of : Bytes → UserManager → Bytes
unfolding get_user_info_by_username new_user
uid_of username m = (get_user_info_by_username username new_user m).1.u_id

module _ (J : JsonLib) (T : TimeLib) where
  -- The asset that a message describes, and its kind.
  unfoldable pub uploaded_text : Moment → J.Value → UserManager → Outcome WordInfo
  unfolding string_at uid_of get_table_id
  uploaded_text moment root m = do
    username ← string_at J (text "username") root
    type ← string_at J (text "fileType") root
    file_data ← string_at J (text "fileData") root
    courses ← string_at J (text "courses") root
    title ← string_at J (text "title") root
    ok (record {
      uid = uid_of username m;
      t_id = get_table_id T moment type;
      title = title;
      up_name = username;
      courses_str = courses;
      file_data = file_data;
    })

  unfoldable pub uploaded_audio : Moment → J.Value → UserManager → Outcome AudioInfo
  unfolding string_at uid_of get_table_id
  uploaded_audio moment root m = do
    username ← string_at J (text "username") root
    type ← string_at J (text "fileType") root
    courses ← string_at J (text "courses") root
    file_data ← string_at J (text "fileData") root
    head_img_path ← string_at J (text "headImgPath") root
    title ← string_at J (text "title") root
    ok (record {
      a_id = get_table_id T moment type;
      a_up_name = username;
      a_title = title;
      a_file_path = file_data;
      a_head_img_path = head_img_path;
      a_courses = courses;
      a_uid = uid_of username m;
    })

  unfoldable pub uploaded_video : Moment → J.Value → UserManager → Outcome VideoInfo
  unfolding string_at uid_of get_table_id
  uploaded_video moment root m = do
    username ← string_at J (text "username") root
    type ← string_at J (text "fileType") root
    courses ← string_at J (text "courses") root
    file_data ← string_at J (text "fileData") root
    head_img_path ← string_at J (text "headImgPath") root
    title ← string_at J (text "title") root
    synopsis ← string_at J (text "synopsis") root
    ok (record {
      v_id = get_table_id T moment type;
      v_up_name = username;
      v_title = title;
      v_file_path = file_data;
      v_head_img_path = head_img_path;
      v_courses = courses;
      v_synopsis = synopsis;
      v_uid = uid_of username m;
    })

-- The replies: the asset as it was stored, or state 0.
module _ (J : JsonLib) where
  unfoldable pub text_reply : Bool → WordInfo → Bytes
  unfolding state_text
  text_reply true info = state_text J (number msg_type_upload_text) 1 (
      (text "title", J.str info.title)
      ∷ (text "courses", J.str info.courses_str)
      ∷ (text "fileData", J.str info.file_data)
      ∷ (text "username", J.str info.up_name)
      ∷ [])
  text_reply false info = state_text J (number msg_type_upload_text) 0 []

  unfoldable pub audio_reply : Bool → AudioInfo → Bytes
  unfolding state_text
  audio_reply true info = state_text J (number msg_type_upload_audio) 1 (
      (text "title", J.str info.a_title)
      ∷ (text "courses", J.str info.a_courses)
      ∷ (text "fileData", J.str info.a_file_path)
      ∷ (text "headImgPath", J.str info.a_head_img_path)
      ∷ (text "username", J.str info.a_up_name)
      ∷ [])
  audio_reply false info = state_text J (number msg_type_upload_audio) 0 []

  unfoldable pub video_reply : Bool → VideoInfo → Bytes
  unfolding state_text
  video_reply true info = state_text J (number msg_type_upload_video) 1 (
      (text "title", J.str info.v_title)
      ∷ (text "courses", J.str info.v_courses)
      ∷ (text "fileData", J.str info.v_file_path)
      ∷ (text "headImgPath", J.str info.v_head_img_path)
      ∷ (text "username", J.str info.v_up_name)
      ∷ (text "synopsis", J.str info.v_synopsis)
      ∷ [])
  video_reply false info = state_text J (number msg_type_upload_video) 0 []

module _ (J : JsonLib) (D : SqlClient) (T : TimeLib) where
  unfoldable pub on_upload_text : Moment → Bytes → World D.Server → Outcome (Reply D.Server)
  unfolding uploaded_text add_word_info text_reply
  on_upload_text moment msg w =
      let (parsed, root) = J.parse msg in
      if parsed
      then (do
        info ← uploaded_text J T moment root w.manager
        let (added, w') = add_word_info D info w
        ok (text_reply J added info ∷ [], w'))
      else ok ([], w)

  unfoldable pub on_upload_audio : Moment → Bytes → World D.Server → Outcome (Reply D.Server)
  unfolding uploaded_audio add_audio_info audio_reply
  on_upload_audio moment msg w =
      let (parsed, root) = J.parse msg in
      if parsed
      then (do
        info ← uploaded_audio J T moment root w.manager
        let (added, w') = add_audio_info D info w
        ok (audio_reply J added info ∷ [], w'))
      else ok ([], w)

  unfoldable pub on_upload_video : Moment → Bytes → World D.Server → Outcome (Reply D.Server)
  unfolding uploaded_video add_video_info video_reply
  on_upload_video moment msg w =
      let (parsed, root) = J.parse msg in
      if parsed
      then (do
        info ← uploaded_video J T moment root w.manager
        let (added, w') = add_video_info D info w
        ok (video_reply J added info ∷ [], w'))
      else ok ([], w)
