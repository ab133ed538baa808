-- ===== src/Session.antt =====
-- ClientSession: what the server does with a message of a client. The JSON library, the clock and
-- the database server are parameters.
pub mod Distance
pub mod TableId
pub mod Models
pub mod Info
pub mod Login
pub mod Register
pub mod Upload
pub mod Records
pub mod Process
pub mod Dispatch
pub mod Replies
pub mod Accounts
pub mod Stored
pub mod Small
mod Tests
use sever_code.Prelude.{ℕ, Bool, List, [], ◌∷◌, ◌++◌, Bytes, Outcome, ◌>>=◌}
use sever_code.Users.Types.{World}

-- What ClientSession calls of the JSON library. `get` and `set` are `operator[]` for reading and for
-- assigning, `int` and `as_int` carry the bit pattern of an int, `as_string`, `as_int`, `as_bool` and
-- `get` throw on a value of another kind, and `parse` leaves a value also where it returns false.
pub record JsonLib : Type 1 where
  pub Value : Type 0
  pub null : Value
  pub int : ℕ → Value
  pub str : Bytes → Value
  pub bool : Bool → Value
  pub get : Bytes → Value → Outcome Value
  pub set : Bytes → Value → Value → Value
  pub append : Value → Value → Value
  pub as_string : Value → Outcome Bytes
  pub as_int : Value → Outcome ℕ
  pub as_bool : Value → Outcome Bool
  pub parse : Bytes → Bool × Value
  pub write : Value → Bytes

-- The messages sent on the connection, in order, and the state left.
abbrev pub Reply : Type 0 → Type 0
Reply S = List Bytes × World S

module _ (J : JsonLib) where
  -- `root[name].asString()`.
  unfoldable pub string_at : Bytes → J.Value → Outcome Bytes
  string_at name root = do v ← J.get name root; J.as_string v

  unfoldable pub int_at : Bytes → J.Value → Outcome ℕ
  int_at name root = do v ← J.get name root; J.as_int v

  unfoldable pub bool_at : Bytes → J.Value → Outcome Bool
  bool_at name root = do v ← J.get name root; J.as_bool v

  -- A value with members assigned in order.
  unfoldable pub with_members : J.Value → List (Bytes × J.Value) → J.Value
  with_members v [] = v
  with_members v (m ∷ ms) = with_members (J.set m.0 m.1 v) ms

  -- A value with elements appended in order.
  unfoldable pub with_elements : J.Value → List J.Value → J.Value
  with_elements v [] = v
  with_elements v (e ∷ es) = with_elements (J.append e v) es

-- The int -1.
abbrev pub minus_one : ℕ
minus_one = 4294967295

-- `rInfoType`, and its numbers.
pub data MsgType : Type 0 where
  msg_type_heartbeat msg_type_login msg_type_register msg_type_upload_video msg_type_upload_audio
        msg_type_upload_text :
      MsgType
  msg_type_load_history msg_type_load_dynamic msg_type_load_normal msg_type_load_collect
        msg_type_load_search :
      MsgType
  msg_type_add_history msg_type_add_collect : MsgType

abbrev pub number : MsgType → ℕ
number msg_type_heartbeat = 100
number msg_type_login = 101
number msg_type_register = 102
number msg_type_upload_video = 103
number msg_type_upload_audio = 104
number msg_type_upload_text = 105
number msg_type_load_history = 106
number msg_type_load_dynamic = 107
number msg_type_load_normal = 108
number msg_type_load_collect = 109
number msg_type_load_search = 110
number msg_type_add_history = 111
number msg_type_add_collect = 112

-- F_TYPE_IMG.
abbrev pub f_type_img : ℕ
f_type_img = 300
