-- ===== src/Session/Replies.antt =====
-- How many messages the server sends for each request (ClientSession.cpp).
use sever_code.Prelude.{ℕ, ◌≡◌, refl, arith, Bool, true, false, List, [], ◌∷◌, ◌++◌}
use sever_code.Prelude.{Bytes, length, length-append, ◌+◌, Outcome, ok, fault, ◌>>=◌, if◌then◌else◌}
use sever_code.Users.Types.{User, SqlClient, World}
use sever_code.Session.{JsonLib, Reply, MsgType}
use sever_code.Session.{
  msg_type_heartbeat, msg_type_login, msg_type_register, msg_type_upload_video,
}
use sever_code.Session.{msg_type_upload_audio, msg_type_upload_text, msg_type_load_history}
use sever_code.Session.{msg_type_load_dynamic, msg_type_load_normal, msg_type_load_collect}
use sever_code.Session.{msg_type_load_search, msg_type_add_history, msg_type_add_collect}
use sever_code.Session.TableId.{TimeLib, Moment}
use sever_code.Session.Info.{on_get_dynamic_info, on_get_collect_info}
use sever_code.Session.Info.{on_get_history_info, on_get_search_info}
use sever_code.Session.Login.{on_login, login_info, name_text, in_turn, login_text, login_state}
use sever_code.Session.Register.{on_register}
use sever_code.Session.Upload.{on_upload_text, on_upload_audio, on_upload_video}
use sever_code.Session.Records.{on_add_collect_info, on_add_history_info, collect_for, browse_for}
use sever_code.Session.Process.{handle}

-- A handler that returns has sent `n` messages.
pub record Sends {S : Type 0} (n : ℕ) (o : Outcome (Reply S)) : Type 0 where
  pub sent : (out : List Bytes) (w : World S) → o ≡ ok (out, w) → length out ≡ n

Sends-ok :
    {S : Type 0} (n : ℕ) (out : List Bytes) (w : World S) → length out ≡ n → Sends n (ok (out, w))
Sends-ok n out w h = record { sent = λ out' w' e. cc }

Sends-bind :
    {S A : Type 0} (n : ℕ) (m : Outcome A) (f : A → Outcome (Reply S))
    → ((a : A) → Sends n (f a))
    → Sends n (m >>= f)
Sends-bind n (ok a) f h = h a
Sends-bind n (fault x) f h = record { sent = λ out w e. cc }

Sends-if :
    {S : Type 0} (n : ℕ) (b : Bool) (x y : Outcome (Reply S))
    → Sends n x
    → Sends n y
    → Sends n (if b then x else y)
Sends-if n true x y h k = h
Sends-if n false x y h k = k

Sends-parsed :
    {S : Type 0} (n : ℕ) (b : Bool) (x y : Outcome (Reply S))
    → b ≡ true
    → Sends n x
    → Sends n (if b then x else y)
Sends-parsed n b x y e h = rw e h

Sends-in_turn :
    {S : Type 0} (n k : ℕ) (m : Outcome (Reply S)) (next : World S → Outcome (Reply S))
    → Sends n m
    → ((w : World S) → Sends k (next w))
    → Sends (n + k) (in_turn m next)
unfolding in_turn
Sends-in_turn {S = S} n k (fault x) next h hs = record { sent = λ out w e. cc }
Sends-in_turn {S = S} n k (ok (first, w)) next h hs = go (next w) (hs w)
  where
    go : (o : Outcome (Reply S)) → Sends k o → Sends (n + k) (o >>= λ q. ok (first ++ q.0, q.1))
    go (fault x) hq = record { sent = λ out v e. cc }
    go (ok (second, v)) hq =
        Sends-ok (n + k) (first ++ second) v
          (omega (arith, length-append first second, h.sent first w refl, hq.sent second v refl))

abbrev pub replies : MsgType → ℕ
replies msg_type_heartbeat = 0
replies msg_type_login = 4
replies msg_type_register = 1
replies msg_type_upload_video = 1
replies msg_type_upload_audio = 1
replies msg_type_upload_text = 1
replies msg_type_load_history = 1
replies msg_type_load_dynamic = 1
replies msg_type_load_normal = 1
replies msg_type_load_collect = 1
replies msg_type_load_search = 0
replies msg_type_add_history = 1
replies msg_type_add_collect = 1

module _ (J : JsonLib) (D : SqlClient) (msg : Bytes) (w : World D.Server)
    (parsed : (J.parse msg).0 ≡ true) where
  on_get_dynamic_info-Sends : Sends 1 (on_get_dynamic_info J D msg w)
  unfolding on_get_dynamic_info
  on_get_dynamic_info-Sends =
      unfold on_get_dynamic_info in search (Sends-parsed, parsed, Sends-bind, Sends-ok, Sends-if)

  on_get_history_info-Sends : Sends 1 (on_get_history_info J D msg w)
  unfolding on_get_history_info
  on_get_history_info-Sends =
      unfold on_get_history_info in search (Sends-parsed, parsed, Sends-bind, Sends-ok, Sends-if)

  on_get_collect_info-Sends : Sends 1 (on_get_collect_info J D msg w)
  unfolding on_get_collect_info
  on_get_collect_info-Sends =
      unfold on_get_collect_info in search (Sends-parsed, parsed, Sends-bind, Sends-ok, Sends-if)

  on_get_search_info-Sends : Sends 0 (on_get_search_info J D msg w)
  unfolding on_get_search_info
  on_get_search_info-Sends =
      unfold on_get_search_info in search (Sends-parsed, parsed, Sends-bind, Sends-ok, Sends-if)

module _ (J : JsonLib) (D : SqlClient) (T : TimeLib) (moment : Moment) (msg : Bytes)
    (w : World D.Server) (parsed : (J.parse msg).0 ≡ true) where
  on_register-Sends : Sends 1 (on_register J D T moment msg w)
  unfolding on_register
  on_register-Sends =
      unfold on_register in search (Sends-parsed, parsed, Sends-bind, Sends-ok, Sends-if)

  on_upload_text-Sends : Sends 1 (on_upload_text J D T moment msg w)
  unfolding on_upload_text
  on_upload_text-Sends =
      unfold on_upload_text in search (Sends-parsed, parsed, Sends-bind, Sends-ok, Sends-if)

  on_upload_audio-Sends : Sends 1 (on_upload_audio J D T moment msg w)
  unfolding on_upload_audio
  on_upload_audio-Sends =
      unfold on_upload_audio in search (Sends-parsed, parsed, Sends-bind, Sends-ok, Sends-if)

  on_upload_video-Sends : Sends 1 (on_upload_video J D T moment msg w)
  unfolding on_upload_video
  on_upload_video-Sends =
      unfold on_upload_video in search (Sends-parsed, parsed, Sends-bind, Sends-ok, Sends-if)

  collect_for-Sends :
      (root : J.Value) (name : Bytes) (u : User) → Sends 1 (collect_for J D T moment root name u w)
  unfolding collect_for
  collect_for-Sends root name u = unfold collect_for in search (Sends-bind, Sends-ok)

  browse_for-Sends :
      (root : J.Value) (name : Bytes) (u : User) → Sends 1 (browse_for J D T moment root name u w)
  unfolding browse_for
  browse_for-Sends root name u = unfold browse_for in search (Sends-bind, Sends-ok)

  on_add_collect_info-Sends : Sends 1 (on_add_collect_info J D T moment msg w)
  unfolding on_add_collect_info
  on_add_collect_info-Sends =
      unfold on_add_collect_info in
      search (collect_for-Sends, Sends-parsed, parsed, Sends-bind, Sends-ok, Sends-if)

  on_add_history_info-Sends : Sends 1 (on_add_history_info J D T moment msg w)
  unfolding on_add_history_info
  on_add_history_info-Sends =
      unfold on_add_history_info in
      search (browse_for-Sends, Sends-parsed, parsed, Sends-bind, Sends-ok, Sends-if)

module _ (J : JsonLib) (D : SqlClient) (name : Bytes) (w : World D.Server)
    (parsed : (J.parse name).0 ≡ true) where
  login_info-Sends : Sends 3 (login_info J D name w)
  unfolding login_info
  login_info-Sends = Sends-in_turn 1 2 _ _ (on_get_dynamic_info-Sends J D name w parsed) λ w₁.
      Sends-in_turn 1 1 _ _ (on_get_history_info-Sends J D name w₁ parsed)
        λ w₂. on_get_collect_info-Sends J D name w₂ parsed

module _ (J : JsonLib) (D : SqlClient) (T : TimeLib) (moment : Moment) (msg : Bytes)
    (w : World D.Server) (written : (user : User) → (J.parse (name_text J user)).0 ≡ true) where
  answered-Sends :
      (name password : Bytes)
      → let (l_state, user) = login_state name password w.manager in
        Sends 4
          (in_turn (ok (login_text J l_state user ∷ [], w)) (login_info J D (name_text J user)))
  answered-Sends name password =
      Sends-in_turn 1 3 _ _ (Sends-ok 1 _ w refl)
        λ w'. login_info-Sends J D _ w' (written ((login_state name password w.manager).1))

  on_login-Sends : (J.parse msg).0 ≡ true → Sends 4 (on_login J D msg w)
  unfolding on_login
  on_login-Sends parsed =
      unfold on_login in search (Sends-parsed, parsed, Sends-bind, answered-Sends)

  -- A message that is JSON and that does not make its handler throw is answered by a number of
  -- messages that depends on its type alone: four for a login, none for a heartbeat or a search, one
  -- for every other type. For the login, the JSON that the server writes itself must be readable.
  pub handle-Sends :
      (t : MsgType) → (J.parse msg).0 ≡ true → Sends (replies t) (handle J D T t moment msg w)
  unfolding handle
  handle-Sends msg_type_heartbeat parsed = Sends-ok 0 [] w refl
  handle-Sends msg_type_login parsed = on_login-Sends parsed
  handle-Sends msg_type_register parsed = on_register-Sends J D T moment msg w parsed
  handle-Sends msg_type_upload_video parsed = on_upload_video-Sends J D T moment msg w parsed
  handle-Sends msg_type_upload_audio parsed = on_upload_audio-Sends J D T moment msg w parsed
  handle-Sends msg_type_upload_text parsed = on_upload_text-Sends J D T moment msg w parsed
  handle-Sends msg_type_load_history parsed = on_get_history_info-Sends J D msg w parsed
  handle-Sends msg_type_load_dynamic parsed = on_get_dynamic_info-Sends J D msg w parsed
  handle-Sends msg_type_load_normal parsed = Sends-ok 1 _ w refl
  handle-Sends msg_type_load_collect parsed = on_get_collect_info-Sends J D msg w parsed
  handle-Sends msg_type_load_search parsed = on_get_search_info-Sends J D msg w parsed
  handle-Sends msg_type_add_history parsed = on_add_history_info-Sends J D T moment msg w parsed
  handle-Sends msg_type_add_collect parsed = on_add_collect_info-Sends J D T moment msg w parsed
