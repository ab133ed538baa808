-- ===== src/Users/Numbers.antt =====
-- The methods of UserManager.cpp that take a user's number. Most bodies are commented out there.
use sever_code.Prelude.{
  ℕ, ◌==◌, if◌then◌else◌, Bool, true, false, Option, none, some, List, [], ◌∷◌, Bytes,
}
use sever_code.Users.Types.{User, UserManager}
use sever_code.Users.Assets.{Lists}

-- `find` of a std::map with numbers as keys.
unfoldable pub find_number : ℕ → List (ℕ × User) → Option User
find_number n [] = none
find_number n ((k, u) ∷ m) = if k == n then some u else find_number n m

-- `GetUserByID`: the null pointer where there is none.
unfoldable pub get_user_by_id : ℕ → UserManager → Option User
unfolding find_number
get_user_by_id userid m = find_number userid m.map_users

-- `GetUserInfoByUserId` and the caller's `u`.
unfoldable pub get_user_info_by_user_id : ℕ → User → UserManager → Bool × User
get_user_info_by_user_id userid u m = (false, u)

-- `LoadRelationshipFromDB` and the caller's set.
unfoldable pub load_relationship : ℕ → List ℕ → UserManager → Bool × List ℕ
load_relationship userid friends m = (true, friends)

unfoldable pub add_friend_to_user : ℕ → ℕ → UserManager → Bool × UserManager
add_friend_to_user userid friendid m = (false, m)

unfoldable pub update_user_info : ℕ → User → UserManager → Bool × UserManager
update_user_info userid newuserinfo m = (false, m)

unfoldable pub modify_user_password : ℕ → Bytes → UserManager → Bool × UserManager
modify_user_password userid newpassword m = (false, m)

-- `GetSearchInfoFromDB` and the caller's lists.
unfoldable pub get_search_info : Lists → UserManager → Bool × Lists
get_search_info l m = (true, l)
