-- ===== src/Users/Account.antt =====
-- Registration and the search for a user.
use sever_code.Prelude.{
  ◌+◌, ◌%◌, ◌^◌, ◌≡◌, refl, arith, Bool, true, false, ◌&&◌, Option, none, some,
}
use sever_code.Prelude.{List, [], ◌∷◌, ◌++◌, Bytes, same, if◌then◌else◌}
use sever_code.Users.Types.{User, UserManager, SqlClient, World}
use sever_code.Users.Statements.{insert_user}

unfoldable pub find_user : Bytes → List User → Option User
find_user name [] = none
find_user name (u ∷ users) = if same u.username name then some u else find_user name users

-- `GetUserInfoByUsername`: the result, and the caller's `user`, kept where there is none.
unfoldable pub get_user_info_by_username : Bytes → User → UserManager → Bool × User
unfolding find_user
get_user_info_by_username name user m = elim (find_user name m.cached_users) [
  | none ↦ (false, user)
  | some u ↦ (true, u)
]

module _ (D : SqlClient) where
  -- `AddUser`: the result, the caller's `user`, and the new state.
  unfoldable pub add_user : User → World D.Server → Bool × User × World D.Server
  add_user user w =
      let id = (w.manager.base_user_id + 1) % 2 ^ 32 in
      let m : UserManager = record (w.manager) { base_user_id = id } in
      let (result, server) = D.execute (insert_user user) w.server in
      let user' : User = record user { userid = id } in
      if result
      then (
        true,
        user',
        record {
          manager = record m { cached_users = m.cached_users ++ (user' ∷ []) };
          server = server;
        },
      )
      else (false, user, record { manager = m; server = server })

-- The first user of a name counts: a user added behind is found only where none was found before.
find_user-append :
    (name : Bytes) (users : List User) (u : User)
    → find_user name (users ++ (u ∷ [])) ≡ elim (find_user name users) [
      | some v ↦ some v
      | none ↦ if same u.username name then some u else none
    ]
unfolding find_user
find_user-append name [] u = refl
find_user-append name (v ∷ users) u = ground (arith, find_user-append name users u)

module _ (D : SqlClient) (user : User) (w : World D.Server) where
  -- After `AddUser` every name that had a user still has the same one; a name that had none has
  -- the new user if the statement went through and the name is that user's, and none otherwise.
  pub find_user-add_user :
      (name : Bytes)
      → find_user name ((add_user D user w).2.manager.cached_users)
        ≡ elim (find_user name w.manager.cached_users) [
          | some v ↦ some v
          | none ↦
              if (add_user D user w).0 && same user.username name
              then some ((add_user D user w).1)
              else none
        ]
  unfolding add_user
  find_user-add_user name = ground (
    arith,
    find_user-append name w.manager.cached_users
        (record user { userid = (w.manager.base_user_id + 1) % 2 ^ 32 }),
  )

-- AddUser returns what the server says of its one statement, and leaves the server as that does.
pub add_user-execute :
    (D : SqlClient) (user : User) (w : World D.Server) (b : Bool) (s : D.Server)
    → D.execute (insert_user user) w.server ≡ (b, s)
    → ((add_user D user w).0 ≡ b) × ((add_user D user w).2.server ≡ s)
unfolding add_user
add_user-execute D user w true s e = rw (e, add_user) (refl, refl)
add_user-execute D user w false s e = rw (e, add_user) (refl, refl)
