-- ===== src/Session/Models.antt =====
-- The JSON values of ClientSession.cpp for assets and for the replies that list them.
use sever_code.Prelude.{ℕ, List, [], ◌∷◌, map, Bytes, text}
use sever_code.Users.Types.{VideoInfo, AudioInfo, WordInfo}
use sever_code.Users.Assets.{Lists}
use sever_code.Session.{JsonLib, with_members, with_elements}

module _ (J : JsonLib) where
  unfoldable pub video_json : VideoInfo → J.Value
  unfolding with_members
  video_json i = with_members J J.null (
      (text "fileData", J.str i.v_file_path)
      ∷ (text "courses", J.str i.v_courses)
      ∷ (text "title", J.str i.v_title)
      ∷ (text "synopsis", J.str i.v_synopsis)
      ∷ (text "upName", J.str i.v_up_name)
      ∷ (text "headImgPath", J.str i.v_head_img_path)
      ∷ [])

  unfoldable pub audio_json : AudioInfo → J.Value
  unfolding with_members
  audio_json i = with_members J J.null (
      (text "fileData", J.str i.a_file_path)
      ∷ (text "courses", J.str i.a_courses)
      ∷ (text "title", J.str i.a_title)
      ∷ (text "upName", J.str i.a_up_name)
      ∷ (text "headImgPath", J.str i.a_head_img_path)
      ∷ [])

  unfoldable pub word_json : WordInfo → J.Value
  unfolding with_members
  word_json i = with_members J J.null (
      (text "fileData", J.str i.file_data)
      ∷ (text "courses", J.str i.courses_str)
      ∷ (text "title", J.str i.title)
      ∷ (text "upName", J.str i.up_name)
      ∷ [])

  -- An element of `modelInfo`.
  unfoldable pub model : Bytes → List J.Value → J.Value
  unfolding with_members with_elements
  model file_type items =
      with_members J J.null
        ((text "fileType", J.str file_type) ∷ (text "data", with_elements J J.null items) ∷ [])

  unfoldable pub model_info : Lists → J.Value
  unfolding with_elements model video_json audio_json word_json
  model_info l = with_elements J J.null (
      model (text "video") (map video_json l.videos)
      ∷ model (text "audio") (map audio_json l.audios)
      ∷ model (text "text") (map word_json l.words)
      ∷ [])

  -- The text of a reply that lists assets.
  unfoldable pub info_text : ℕ → Lists → Bytes
  unfolding with_members model_info
  info_text msg_type l = J.write (
      with_members J J.null
        ((text "msgType", J.int msg_type) ∷ (text "modelInfo", model_info l) ∷ []))

  -- The text of a reply with a state.
  unfoldable pub state_text : ℕ → ℕ → List (Bytes × J.Value) → Bytes
  unfolding with_members
  state_text msg_type state members = J.write (
      with_members J J.null
        ((text "msgType", J.int msg_type) ∷ (text "responsesState", J.int state) ∷ members))
