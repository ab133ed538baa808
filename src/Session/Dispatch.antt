-- ===== src/Session/Dispatch.antt =====
-- Which handler a message reaches (`OnRead` and `Process` of ClientSession.cpp).
use sever_code.Prelude.{
  ℕ, if◌then◌else◌, ◌==◌, Option, ◌≡◌, ◌≢◌, refl, ap, ◌∙◌, arith, Bool, true, false, not, none,
  some, List, [], ◌∷◌,
}
use sever_code.Prelude.{Bytes, text, Outcome, ok, fault, ◌>>=◌}
use sever_code.Users.Types.{SqlClient, World}
use sever_code.Session.{JsonLib, Reply, MsgType, number, int_at}
use sever_code.Session.{
  msg_type_heartbeat, msg_type_login, msg_type_register, msg_type_upload_video,
}
use sever_code.Session.{msg_type_upload_audio, msg_type_upload_text, msg_type_load_history}
use sever_code.Session.{msg_type_load_dynamic, msg_type_load_normal, msg_type_load_collect}
use sever_code.Session.{msg_type_load_search, msg_type_add_history, msg_type_add_collect}
use sever_code.Session.TableId.{TimeLib, Moment}
use sever_code.Users.Assets.{push_all-append, get_video_info, get_audio_info, get_word_info}
use sever_code.Session.Info.{on_get_normal_info, on_get_dynamic_info, on_get_collect_info}
use sever_code.Session.Info.{on_get_history_info, on_get_search_info}
use sever_code.Session.Models.{info_text}
use sever_code.Session.Login.{on_login}
use sever_code.Session.Register.{on_register}
use sever_code.Session.Upload.{on_upload_text, on_upload_audio, on_upload_video}
use sever_code.Session.Records.{on_add_collect_info, on_add_history_info}
use sever_code.Session.Process.{msg_type_of, handle, dispatch, process, on_read}

-- The switch reads every number of `rInfoType` as that type,
msg_type_of-number : (t : MsgType) → msg_type_of (number t) ≡ some t
unfolding msg_type_of
msg_type_of-number msg_type_heartbeat = refl
msg_type_of-number msg_type_login = refl
msg_type_of-number msg_type_register = refl
msg_type_of-number msg_type_upload_video = refl
msg_type_of-number msg_type_upload_audio = refl
msg_type_of-number msg_type_upload_text = refl
msg_type_of-number msg_type_load_history = refl
msg_type_of-number msg_type_load_dynamic = refl
msg_type_of-number msg_type_load_normal = refl
msg_type_of-number msg_type_load_collect = refl
msg_type_of-number msg_type_load_search = refl
msg_type_of-number msg_type_add_history = refl
msg_type_of-number msg_type_add_collect = refl

-- and no other number.
msg_type_of_other : (cmd : ℕ) → ((t : MsgType) → number t ≢ cmd) → msg_type_of cmd ≡ none
unfolding msg_type_of
msg_type_of_other cmd h = ground (
  arith,
  h msg_type_heartbeat,
  h msg_type_login,
  h msg_type_register,
  h msg_type_upload_video,
  h msg_type_upload_audio,
  h msg_type_upload_text,
  h msg_type_load_history,
  h msg_type_load_dynamic,
  h msg_type_load_normal,
  h msg_type_load_collect,
  h msg_type_load_search,
  h msg_type_add_history,
  h msg_type_add_collect,
)

module _ (J : JsonLib) (D : SqlClient) (T : TimeLib) (moment : Moment) (msg : Bytes)
    (w : World D.Server) where
  answered : Outcome (Reply D.Server) → Outcome (Bool × Reply D.Server)
  answered o = do reply ← o; ok (true, reply)

  closed_by_not : Outcome (Reply D.Server) → Outcome (Bool × Reply D.Server)
  closed_by_not o = do (done, reply) ← answered o; ok (not done, reply)

  -- The result of a handler, with the connection left open.
  unfoldable pub left_open : Outcome (Reply D.Server) → Outcome (Bool × Reply D.Server)
  left_open (ok r) = ok (false, r)
  left_open (fault x) = fault x

  -- The handler of each number of `rInfoType`.
  unfoldable pub routes : List (ℕ × Outcome (Reply D.Server))
  routes =
      (100, ok ([], w))
      ∷ (101, on_login J D msg w)
      ∷ (102, on_register J D T moment msg w)
      ∷ (103, on_upload_video J D T moment msg w)
      ∷ (104, on_upload_audio J D T moment msg w)
      ∷ (105, on_upload_text J D T moment msg w)
      ∷ (106, on_get_history_info J D msg w)
      ∷ (107, on_get_dynamic_info J D msg w)
      ∷ (108, on_get_normal_info J D msg w)
      ∷ (109, on_get_collect_info J D msg w)
      ∷ (110, on_get_search_info J D msg w)
      ∷ (111, on_add_history_info J D T moment msg w)
      ∷ (112, on_add_collect_info J D T moment msg w)
      ∷ []

  -- The effect of a number without a handler: none.
  unfoldable pub route : ℕ → List (ℕ × Outcome (Reply D.Server)) → Outcome (Reply D.Server)
  route cmd [] = ok ([], w)
  route cmd ((n, effect) ∷ rest) = if cmd == n then effect else route cmd rest

  effect_of : Option MsgType → Outcome (Reply D.Server)
  effect_of none = ok ([], w)
  effect_of (some t) = handle J D T t moment msg w

  effect_of-route : (cmd : ℕ) → effect_of (msg_type_of cmd) ≡ route cmd routes
  unfolding effect_of msg_type_of route routes handle
  effect_of-route cmd = ground arith

  -- Whatever the message and its `msgType`: it has the effect of the handler that `routes` names for
  -- that number, and none if there is none, and the connection stays open.
  pub on_read-route :
      (cmd : ℕ)
      → int_at J (text "msgType") (J.parse msg).1 ≡ ok cmd
      → on_read J D T moment msg w ≡ left_open (route cmd routes)
  unfolding on_read process dispatch left_open closed_by_not answered effect_of
  on_read-route cmd e = rw e (go (msg_type_of cmd)) ∙ ap left_open (effect_of-route cmd)
    where
      kept : (o : Outcome (Reply D.Server)) → closed_by_not o ≡ left_open o
      kept (ok r) = refl
      kept (fault x) = refl

      go :
          (o : Option MsgType)
          → (dispatch J D T o moment msg w >>= λ p. ok (not p.0, p.1)) ≡ left_open (effect_of o)
      go none = refl
      go (some t) = kept (handle J D T t moment msg w)

  -- A message with another number is dropped: nothing is sent, nothing changes, and the connection
  -- stays open.
  pub on_read_other :
      (cmd : ℕ)
      → int_at J (text "msgType") (J.parse msg).1 ≡ ok cmd
      → ((t : MsgType) → number t ≢ cmd)
      → on_read J D T moment msg w ≡ ok (false, ([], w))
  unfolding on_read process dispatch
  on_read_other cmd e h =
      rw e (
        ap (λ o. dispatch J D T o moment msg w >>= λ p. ok (not p.0, p.1))
          (msg_type_of_other cmd h))

  -- What is sent for a message that is no JSON.
  unfoldable pub sent_unparsed : MsgType → List Bytes
  unfolding get_video_info get_audio_info get_word_info
  sent_unparsed t = elim t [
    | msg_type_load_normal ↦
        info_text J (number msg_type_load_normal) (record {
          videos = w.manager.cache_video_info;
          audios = w.manager.cache_audio_info;
          words = w.manager.cache_word_info;
        })
        ∷ []
    | _ ↦ []
  ]

  -- With a message that is no JSON, the handler of `loadInfo_normal` answers by the list of all
  -- assets; every other handler sends nothing. None changes the state or throws.
  pub handle_unparsed :
      (t : MsgType)
      → (J.parse msg).0 ≡ false
      → handle J D T t moment msg w ≡ ok (sent_unparsed t, w)
  unfolding handle sent_unparsed on_add_collect_info on_add_history_info on_get_collect_info
      on_get_dynamic_info on_get_history_info on_get_search_info on_login on_register
      on_upload_audio on_upload_text on_upload_video on_get_normal_info get_video_info
      get_audio_info get_word_info
  handle_unparsed msg_type_heartbeat e = refl
  handle_unparsed msg_type_login e = rw e refl
  handle_unparsed msg_type_register e = rw e refl
  handle_unparsed msg_type_upload_video e = rw e refl
  handle_unparsed msg_type_upload_audio e = rw e refl
  handle_unparsed msg_type_upload_text e = rw e refl
  handle_unparsed msg_type_load_history e = rw e refl
  handle_unparsed msg_type_load_dynamic e = rw e refl
  handle_unparsed msg_type_load_normal e =
      rw
        (
          push_all-append [] w.manager.cache_video_info,
          push_all-append [] w.manager.cache_audio_info,
          push_all-append [] w.manager.cache_word_info,
        )
        refl
  handle_unparsed msg_type_load_collect e = rw e refl
  handle_unparsed msg_type_load_search e = rw e refl
  handle_unparsed msg_type_add_history e = rw e refl
  handle_unparsed msg_type_add_collect e = rw e refl
