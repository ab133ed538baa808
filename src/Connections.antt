-- ===== src/Connections.antt =====
-- The sessions by connection: OnConnection and OnClose of IMServer.cpp and FileServer/FileServer.cpp,
-- IsUserSessionExsit and GetSessionByID. A connection is known by the text of its address. The
-- std::map is the list of its entries, in the order of the keys.
pub mod Open
mod Tests
use sever_code.Database.Maps.{less}
use sever_code.Prelude.{
  Option, none, some, ℕ, Bool, true, false, List, [], ◌∷◌, Bytes, same, ◌==◌, ◌||◌, if◌then◌else◌,
}

-- A key, and `UserID()` of its session.
pub record SessionEntry : Type 0 where
  pub key : Bytes
  pub user_id : ℕ

unfoldable pub has_key : Bytes → List SessionEntry → Bool
has_key key [] = false
has_key key (e ∷ l) = same key e.key || has_key key l

-- Before the first greater key.
unfoldable pub place : SessionEntry → List SessionEntry → List SessionEntry
unfolding less
place e [] = e ∷ []
place e (x ∷ l) = if less e.key x.key then e ∷ x ∷ l else x ∷ place e l

-- `insert` keeps what stands under the key.
unfoldable pub insert : SessionEntry → List SessionEntry → List SessionEntry
unfolding has_key
insert e l = if has_key e.key l then l else place e l

-- `erase(find(key))`, where the key is there.
unfoldable pub erase : Bytes → List SessionEntry → List SessionEntry
erase key [] = []
erase key (e ∷ l) = if same key e.key then l else e ∷ erase key l

-- The user of a new session is a new User, with userid 0.
unfoldable pub on_close : Bytes → List SessionEntry → List SessionEntry
unfolding erase
on_close key l = erase key l

unfoldable pub on_connection : Bool → Bytes → List SessionEntry → List SessionEntry
unfolding insert on_close
on_connection connected key l =
    if connected then insert (record { key = key; user_id = 0 }) l else on_close key l

unfoldable pub is_user_session_exist : ℕ → List SessionEntry → Bool
is_user_session_exist user_id [] = false
is_user_session_exist user_id (e ∷ l) =
    if e.user_id == user_id then true else is_user_session_exist user_id l

-- The null pointer where there is none.
unfoldable pub get_session_by_id : ℕ → List SessionEntry → Option SessionEntry
get_session_by_id user_id [] = none
get_session_by_id user_id (e ∷ l) =
    if e.user_id == user_id then some e else get_session_by_id user_id l
