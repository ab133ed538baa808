-- ===== src/Server/Kept.antt =====
-- What clients can rely on whatever other clients do.
use sever_code.Prelude.{ℕ, ◌≡◌, sym, ap, ◌∙◌, arith, some, List, [], ◌∷◌, ◌++◌, Bytes}
use sever_code.Users.Types.{User, SqlClient}
use sever_code.Users.Account.{find_user}
use sever_code.Users.Numbers.{get_user_by_id, find_number}
use sever_code.Session.{JsonLib}
use sever_code.Session.TableId.{TimeLib}
use sever_code.Session.Login.{login_state}
use sever_code.Session.Accounts.{login_state-find_user, login_answer}
use sever_code.Server.{ServerState, Step, Reach, connection, message, here, next}
use sever_code.Server.Grown.{Grows, Grows-refl, Grows-trans}
use sever_code.Server.Handled.{on_read-Keeps}

find_user-append_some :
    (name : Bytes) (users more : List User) (u : User)
    → find_user name users ≡ some u
    → find_user name (users ++ more) ≡ some u
unfolding find_user
find_user-append_some name [] more u h = cc
find_user-append_some name (v ∷ users) more u h =
    ground (arith, h, find_user-append_some name users more u)

module _ (J : JsonLib) (D : SqlClient) (T : TimeLib) where
  Step-Grows : {s t : ServerState D.Server} → Step J D T s t → Grows s.world.manager t.world.manager
  Step-Grows (connection s connected key) = Grows-refl s.world.manager
  Step-Grows (message s key moment buf closed out w open_ e) =
      (on_read-Keeps J D T moment buf s.world).held (closed, (out, w)) e

  -- In whatever order connections open and close and messages come, the users, the videos, the
  -- audios, the texts and the browse records in memory are only added to, at the end: what was in
  -- memory stays there.
  pub Reach-Grows :
      {s t : ServerState D.Server} → Reach J D T s t → Grows s.world.manager t.world.manager
  Reach-Grows {s} here = Grows-refl s.world.manager
  Reach-Grows (next r step) = Grows-trans _ _ _ (Reach-Grows r) (Step-Grows step)

  -- A name that has a user is answered at a login, with any password, in every later state as it is
  -- now: nothing that clients send takes an account away or changes its password.
  pub Reach-login_state :
      (s t : ServerState D.Server) (name password : Bytes) (u : User)
      → Reach J D T s t
      → find_user name s.world.manager.cached_users ≡ some u
      → login_state name password t.world.manager ≡ login_state name password s.world.manager
  Reach-login_state s t name password u r found =
      let (more, e) = (Reach-Grows r).users in
      login_state-find_user name password t.world.manager
      ∙ ap (login_answer name password) (
          ap (find_user name) e
          ∙ find_user-append_some name s.world.manager.cached_users more u found
          ∙ sym found)
      ∙ sym (login_state-find_user name password s.world.manager)

  -- Nothing ever puts a user into the map that GetUserByID looks in.
  pub Reach-get_user_by_id :
      (s t : ServerState D.Server) (userid : ℕ)
      → Reach J D T s t
      → get_user_by_id userid t.world.manager ≡ get_user_by_id userid s.world.manager
  unfolding get_user_by_id
  Reach-get_user_by_id s t userid r = ap (find_number userid) ((Reach-Grows r).numbers)
