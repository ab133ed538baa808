-- ===== src/Session/Accounts.antt =====
-- Registration and login together (ClientSession.cpp, UserManager.cpp).
use sever_code.Prelude.{
  ℕ, ◌≡◌, refl, ◌∙◌, arith, inl, inr, true, false, Option, none, some, List, [], ◌∷◌,
}
use sever_code.Prelude.{Bytes, same, same→eq, same_refl, Bool-cases, ◌&&◌, ok, if◌then◌else◌}
use sever_code.Users.Types.{User, new_user, UserManager, SqlClient, World}
use sever_code.Users.Statements.{insert_user}
use sever_code.Users.Account.{find_user, add_user, find_user-add_user, get_user_info_by_username}
use sever_code.Session.{JsonLib, number, msg_type_register, minus_one}
use sever_code.Session.Models.{state_text}
use sever_code.Session.TableId.{TimeLib, Moment}
use sever_code.Session.Login.{login_state}
use sever_code.Session.Register.{registered, on_register}

find_user-named :
    (name : Bytes) (users : List User) (u : User)
    → find_user name users ≡ some u
    → same name u.username ≡ true
unfolding find_user
find_user-named name [] u h = cc
find_user-named name (v ∷ users) u h = elim (Bool-cases (same v.username name)) [
  | inl e ↦ ground (arith, h, e, same→eq v.username name e, same_refl name)
  | inr e ↦ find_user-named name users u (rw e at h)
]

-- The answer to a login.
unfoldable pub login_answer : Bytes → Bytes → Option User → ℕ × User
unfolding new_user
login_answer name password (some u) = (if same password u.password then 1 else minus_one, u)
login_answer name password none = (if same name [] && same password [] then 1 else 0, new_user)

-- A login with the name of a user is answered by 1 if the password is the user's, else by -1. With
-- a name without a user the answer is 0, but for the empty name with the empty password: 1.
pub login_state-find_user :
    (name password : Bytes) (m : UserManager)
    → login_state name password m ≡ login_answer name password (find_user name m.cached_users)
unfolding login_state get_user_info_by_username login_answer new_user same
login_state-find_user name password m = go (find_user name m.cached_users) refl
  where
    go :
        (o : Option User)
        → find_user name m.cached_users ≡ o
        → login_state name password m ≡ login_answer name password o
    go (some u) e =
        rw (e, get_user_info_by_username) (rw (find_user-named name m.cached_users u e) refl)
    go none e = rw (e, get_user_info_by_username) refl

module _ (D : SqlClient) (user : User) (w : World D.Server) where
  add_user-accepted :
      (D.execute (insert_user user) w.server).0 ≡ true
      → ((add_user D user w).0 ≡ true)
        × ((add_user D user w).1.username ≡ user.username)
        × ((add_user D user w).1.password ≡ user.password)
  unfolding add_user
  add_user-accepted accepted = rw accepted (refl, refl, refl)

  added_found :
      (D.execute (insert_user user) w.server).0 ≡ true
      → find_user user.username w.manager.cached_users ≡ none
      → find_user user.username ((add_user D user w).2.manager.cached_users)
        ≡ some ((add_user D user w).1)
  added_found accepted free =
      find_user-add_user D user w user.username
      ∙ rw (free, (add_user-accepted accepted).0, same_refl user.username) refl

  taken_found :
      (v : User)
      → find_user user.username w.manager.cached_users ≡ some v
      → find_user user.username ((add_user D user w).2.manager.cached_users) ≡ some v
  taken_found v taken = find_user-add_user D user w user.username ∙ rw taken refl

module _ (J : JsonLib) (D : SqlClient) (T : TimeLib) (w : World D.Server) (msg : Bytes)
    (root : J.Value) (moment : Moment) (user : User) where
  -- A registration is answered by what `AddUser` returns, and leaves what `AddUser` leaves.
  on_register-add_user :
      J.parse msg ≡ (true, root)
      → registered J T moment root ≡ ok user
      → on_register J D T moment msg w
        ≡ ok (
          state_text J (number msg_type_register) (if (add_user D user w).0 then 1 else 0) [] ∷ [],
          (add_user D user w).2,
        )
  unfolding on_register
  on_register-add_user parsed described = rw (parsed, described) refl

  -- A registration with a name that is free, whose statement the server accepts, is answered by 1,
  -- and afterwards the name and the password log in, as the user who was registered.
  pub on_register-login_state :
      J.parse msg ≡ (true, root)
      → registered J T moment root ≡ ok user
      → (D.execute (insert_user user) w.server).0 ≡ true
      → find_user user.username w.manager.cached_users ≡ none
      → (w' : World D.Server) × (on_register J D T moment msg w
          ≡ ok (state_text J (number msg_type_register) 1 [] ∷ [], w'))
        × (login_state user.username user.password w'.manager ≡ (1, (add_user D user w).1))
  unfolding login_answer
  on_register-login_state parsed described accepted free = (
    (add_user D user w).2,
    on_register-add_user parsed described ∙ rw (add_user-accepted D user w accepted).0 refl,
    login_state-find_user user.username user.password (add_user D user w).2.manager
        ∙ rw
            (
              added_found D user w accepted free,
              (add_user-accepted D user w accepted).2,
              same_refl user.password,
            )
            refl,
  )

  -- A registration with a name that is taken is answered by 1 as well, if the server accepts the
  -- statement; afterwards the name with the new password is answered by -1, if the password is
  -- another than that of the first user of the name.
  pub on_register-login_state_taken :
      (v : User)
      → J.parse msg ≡ (true, root)
      → registered J T moment root ≡ ok user
      → (D.execute (insert_user user) w.server).0 ≡ true
      → find_user user.username w.manager.cached_users ≡ some v
      → same user.password v.password ≡ false
      → (w' : World D.Server) × (on_register J D T moment msg w
          ≡ ok (state_text J (number msg_type_register) 1 [] ∷ [], w'))
        × (login_state user.username user.password w'.manager ≡ (minus_one, v))
  unfolding login_answer
  on_register-login_state_taken v parsed described accepted taken differ = (
    (add_user D user w).2,
    on_register-add_user parsed described ∙ rw (add_user-accepted D user w accepted).0 refl,
    login_state-find_user user.username user.password (add_user D user w).2.manager
        ∙ rw (taken_found D user w v taken, differ) refl,
  )
