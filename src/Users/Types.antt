-- ===== src/Users/Types.antt =====
-- The classes of UserManager.h, and the part of MySqlManager that UserManager calls.
use sever_code.Prelude.{ℕ, Bool, true, List, [], Option, Bytes}
use sever_code.Sql.{QueryResult}

-- `status` is set and read nowhere.
pub record User : Type 0 where
  pub userid : ℕ
  pub u_id : Bytes
  pub username : Bytes
  pub password : Bytes
  pub custimface : Bytes
  pub sex : Bool

-- `sex(-1)` is true.
unfoldable pub new_user : User
new_user = record {
  userid = 0;
  u_id = [];
  username = [];
  password = [];
  custimface = [];
  sex = true;
}

pub record WordInfo : Type 0 where
  pub uid : Bytes
  pub t_id : Bytes
  pub title : Bytes
  pub up_name : Bytes
  pub courses_str : Bytes
  pub file_data : Bytes

pub record AudioInfo : Type 0 where
  pub a_id : Bytes
  pub a_up_name : Bytes
  pub a_title : Bytes
  pub a_file_path : Bytes
  pub a_head_img_path : Bytes
  pub a_courses : Bytes
  pub a_uid : Bytes

pub record VideoInfo : Type 0 where
  pub v_id : Bytes
  pub v_up_name : Bytes
  pub v_title : Bytes
  pub v_file_path : Bytes
  pub v_head_img_path : Bytes
  pub v_courses : Bytes
  pub v_synopsis : Bytes
  pub v_uid : Bytes

pub record BrowseInfo : Type 0 where
  pub b_id : Bytes
  pub b_uid : Bytes
  pub b_assets_type : Bytes
  pub b_browse_title : Bytes

pub record CollectInfo : Type 0 where
  pub c_id : Bytes
  pub c_uid : Bytes
  pub c_assets_type : Bytes
  pub c_assets_title : Bytes

-- The fields that some method reads or writes. An int32_t is its bit pattern.
pub record UserManager : Type 0 where
  pub cached_users : List User
  pub cache_video_info : List VideoInfo
  pub cache_audio_info : List AudioInfo
  pub cache_word_info : List WordInfo
  pub cache_browse_info : List BrowseInfo
  pub cache_collect_info : List CollectInfo
  pub map_users : List (ℕ × User)
  pub base_user_id : ℕ

-- `Excute` and `Query` of MySqlManager on the state of the server: whether the statement went
-- through, and the result, with `none` for the null pointer.
pub record SqlClient : Type 1 where
  pub Server : Type 0
  pub execute : Bytes → Server → Bool × Server
  pub query : Bytes → Server → Option QueryResult × Server

-- What a method of UserManager works on.
pub record World (S : Type 0) : Type 0 where
  pub manager : UserManager
  pub server : S
