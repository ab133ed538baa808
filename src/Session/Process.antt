-- ===== src/Session/Process.antt =====
-- `OnRead` and `Process` of ClientSession.cpp.
use sever_code.Prelude.{
  ℕ, Bool, true, not, Option, none, some, [], Bytes, text, ◌==◌, Outcome, ok, ◌>>=◌, if◌then◌else◌,
}
use sever_code.Users.Types.{SqlClient, World}
use sever_code.Session.{JsonLib, Reply, MsgType, int_at}
use sever_code.Session.{
  msg_type_heartbeat, msg_type_login, msg_type_register, msg_type_upload_video,
}
use sever_code.Session.{msg_type_upload_audio, msg_type_upload_text, msg_type_load_history}
use sever_code.Session.{msg_type_load_dynamic, msg_type_load_normal, msg_type_load_collect}
use sever_code.Session.{msg_type_load_search, msg_type_add_history, msg_type_add_collect}
use sever_code.Session.TableId.{TimeLib, Moment}
use sever_code.Session.Info.{on_get_normal_info, on_get_dynamic_info, on_get_collect_info}
use sever_code.Session.Info.{on_get_history_info, on_get_search_info}
use sever_code.Session.Login.{on_login}
use sever_code.Session.Register.{on_register}
use sever_code.Session.Upload.{on_upload_text, on_upload_audio, on_upload_video}
use sever_code.Session.Records.{on_add_collect_info, on_add_history_info}

-- The labels of the switch, in order.
unfoldable pub msg_type_of : ℕ → Option MsgType
msg_type_of cmd =
    if cmd == 100
    then some msg_type_heartbeat
    else if cmd == 101
    then some msg_type_login
    else if cmd == 102
    then some msg_type_register
    else if cmd == 105
    then some msg_type_upload_text
    else if cmd == 104
    then some msg_type_upload_audio
    else if cmd == 103
    then some msg_type_upload_video
    else if cmd == 108
    then some msg_type_load_normal
    else if cmd == 107
    then some msg_type_load_dynamic
    else if cmd == 106
    then some msg_type_load_history
    else if cmd == 109
    then some msg_type_load_collect
    else if cmd == 110
    then some msg_type_load_search
    else if cmd == 112
    then some msg_type_add_collect
    else if cmd == 111
    then some msg_type_add_history
    else none

module _ (J : JsonLib) (D : SqlClient) (T : TimeLib) where
  -- The cases of the switch.
  unfoldable pub handle : MsgType → Moment → Bytes → World D.Server → Outcome (Reply D.Server)
  unfolding on_login on_register on_upload_text on_upload_audio on_upload_video on_get_normal_info
      on_get_dynamic_info on_get_history_info on_get_collect_info on_get_search_info
      on_add_collect_info on_add_history_info
  handle msg_type_heartbeat moment msg w = ok ([], w)
  handle msg_type_login moment msg w = on_login J D msg w
  handle msg_type_register moment msg w = on_register J D T moment msg w
  handle msg_type_upload_video moment msg w = on_upload_video J D T moment msg w
  handle msg_type_upload_audio moment msg w = on_upload_audio J D T moment msg w
  handle msg_type_upload_text moment msg w = on_upload_text J D T moment msg w
  handle msg_type_load_history moment msg w = on_get_history_info J D msg w
  handle msg_type_load_dynamic moment msg w = on_get_dynamic_info J D msg w
  handle msg_type_load_normal moment msg w = on_get_normal_info J D msg w
  handle msg_type_load_collect moment msg w = on_get_collect_info J D msg w
  handle msg_type_load_search moment msg w = on_get_search_info J D msg w
  handle msg_type_add_history moment msg w = on_add_history_info J D T moment msg w
  handle msg_type_add_collect moment msg w = on_add_collect_info J D T moment msg w

  -- The switch, and the result of `Process` behind it.
  unfoldable pub dispatch :
      Option MsgType → Moment → Bytes → World D.Server → Outcome (Bool × Reply D.Server)
  unfolding handle
  dispatch none moment msg w = ok (true, ([], w))
  dispatch (some t) moment msg w = do reply ← handle t moment msg w; ok (true, reply)

  -- `Process`. A message that is no JSON is looked at all the same.
  unfoldable pub process : Moment → Bytes → World D.Server → Outcome (Bool × Reply D.Server)
  unfolding int_at dispatch msg_type_of
  process moment msgbuff w = do
    let (is_ok, json_data) = J.parse msgbuff
    cmd ← int_at J (text "msgType") json_data
    dispatch (msg_type_of cmd) moment msgbuff w

  -- `OnRead` on the bytes of the buffer, all of which it takes: whether the connection is closed
  -- by force, and the reply.
  unfoldable pub on_read : Moment → Bytes → World D.Server → Outcome (Bool × Reply D.Server)
  unfolding process
  on_read moment buf w = do (done, reply) ← process moment buf w; ok (not done, reply)
