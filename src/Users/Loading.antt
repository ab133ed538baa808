-- ===== src/Users/Loading.antt =====
-- The caches filled from the tables when the server starts.
use sever_code.Prelude.{Bool, true, false, none, some, List, [], ◌∷◌, ◌++◌}
use sever_code.Prelude.{Bytes, text, Outcome, ok, ◌>>=◌}
use sever_code.Sql.{QueryResult, atoi_nonzero, text_of}
use sever_code.Sql.Loop.{Guard, unguarded, sized, fetched, each_row}
use sever_code.Users.Types.{User, new_user, WordInfo, AudioInfo, VideoInfo, BrowseInfo, CollectInfo}
use sever_code.Users.Types.{UserManager, SqlClient, World}

-- The body of each loop, as a function of `Value(name).GetString()` at the row.
abbrev pub Reader : Type 0 → Type 0
Reader A = (Bytes → Outcome Bytes) → Outcome A

unfoldable pub read_user : Reader User
unfolding new_user
read_user value = do
  u_id ← value (text "u_id")
  sex ← value (text "u_sex")
  custimface ← value (text "u_headImage")
  password ← value (text "u_password")
  username ← value (text "u_userName")
  ok (record new_user {
    u_id = u_id;
    sex = atoi_nonzero sex;
    custimface = custimface;
    password = password;
    username = username;
  })

unfoldable pub read_video : Reader VideoInfo
read_video value = do
  v_id ← value (text "v_id")
  v_up_name ← value (text "v_upName")
  v_file_path ← value (text "v_filePath")
  v_title ← value (text "v_videoTitle")
  v_head_img_path ← value (text "v_headImgPath")
  v_synopsis ← value (text "v_synopsis")
  v_courses ← value (text "v_courses")
  v_uid ← value (text "v_uID")
  ok (record {
    v_id = v_id;
    v_up_name = v_up_name;
    v_title = v_title;
    v_file_path = v_file_path;
    v_head_img_path = v_head_img_path;
    v_courses = v_courses;
    v_synopsis = v_synopsis;
    v_uid = v_uid;
  })

unfoldable pub read_audio : Reader AudioInfo
read_audio value = do
  a_id ← value (text "a_id")
  a_up_name ← value (text "a_upName")
  a_file_path ← value (text "a_filePath")
  a_title ← value (text "a_audioTitle")
  a_head_img_path ← value (text "a_headImgPath")
  a_courses ← value (text "a_courses")
  a_uid ← value (text "a_uID")
  ok (record {
    a_id = a_id;
    a_up_name = a_up_name;
    a_title = a_title;
    a_file_path = a_file_path;
    a_head_img_path = a_head_img_path;
    a_courses = a_courses;
    a_uid = a_uid;
  })

unfoldable pub read_word : Reader WordInfo
read_word value = do
  t_id ← value (text "t_id")
  up_name ← value (text "t_upName")
  file_data ← value (text "t_data")
  title ← value (text "t_title")
  courses_str ← value (text "t_courses")
  uid ← value (text "t_uID")
  ok (record {
    uid = uid;
    t_id = t_id;
    title = title;
    up_name = up_name;
    courses_str = courses_str;
    file_data = file_data;
  })

unfoldable pub read_browse : Reader BrowseInfo
read_browse value = do
  b_id ← value (text "b_id")
  b_assets_type ← value (text "b_assetsType")
  b_browse_title ← value (text "b_browseTitle")
  b_uid ← value (text "b_uID")
  ok (record {
    b_id = b_id;
    b_uid = b_uid;
    b_assets_type = b_assets_type;
    b_browse_title = b_browse_title;
  })

unfoldable pub read_collect : Reader CollectInfo
read_collect value = do
  c_id ← value (text "c_id")
  c_assets_type ← value (text "c_assetsType")
  c_assets_title ← value (text "c_assetsTitle")
  c_uid ← value (text "c_uID")
  ok (record {
    c_id = c_id;
    c_uid = c_uid;
    c_assets_type = c_assets_type;
    c_assets_title = c_assets_title;
  })

-- A cache, the statement that fills it and its loop.
pub record Table (A : Type 0) : Type 0 where
  pub guard : Guard
  pub read : Reader A
  pub sql : Bytes
  pub cache : UserManager → List A
  pub fill : List A → UserManager → UserManager

abbrev pub users_table : Table User
users_table = record {
  guard = fetched;
  read = read_user;
  sql = text "SELECT * FROM tab_user;";
  cache = λ m. m.cached_users;
  fill = λ l m. record m { cached_users = l };
}

abbrev pub videos_table : Table VideoInfo
videos_table = record {
  guard = unguarded;
  read = read_video;
  sql = text "select * from tab_videoData;";
  cache = λ m. m.cache_video_info;
  fill = λ l m. record m { cache_video_info = l };
}

abbrev pub audios_table : Table AudioInfo
audios_table = record {
  guard = unguarded;
  read = read_audio;
  sql = text "select * from tab_audioData;";
  cache = λ m. m.cache_audio_info;
  fill = λ l m. record m { cache_audio_info = l };
}

abbrev pub words_table : Table WordInfo
words_table = record {
  guard = unguarded;
  read = read_word;
  sql = text "select * from tab_textData;";
  cache = λ m. m.cache_word_info;
  fill = λ l m. record m { cache_word_info = l };
}

abbrev pub browses_table : Table BrowseInfo
browses_table = record {
  guard = sized;
  read = read_browse;
  sql = text "select * from tab_browseRecords;";
  cache = λ m. m.cache_browse_info;
  fill = λ l m. record m { cache_browse_info = l };
}

abbrev pub collects_table : Table CollectInfo
collects_table = record {
  guard = sized;
  read = read_collect;
  sql = text "select * from tab_assetsCollect;";
  cache = λ m. m.cache_collect_info;
  fill = λ l m. record m { cache_collect_info = l };
}

unfoldable pub push_row : {A : Type 0} → Table A → QueryResult → List A → Outcome (List A)
push_row t r cache = do info ← t.read (λ name. text_of name r); ok (cache ++ (info ∷ []))

module _ (D : SqlClient) where
  -- The body of the six loads: false for a null result, else the loop into the cache.
  unfoldable pub load : {A : Type 0} → Table A → World D.Server → Outcome (Bool × World D.Server)
  unfolding each_row push_row
  load t w =
      let (result, s) = D.query t.sql w.server in
      elim result [
        | none ↦ ok (false, record w { server = s })
        | some r ↦ do
          l ← each_row t.guard (push_row t) r (t.cache w.manager)
          ok (true, record { manager = t.fill l w.manager; server = s })
      ]

  unfoldable pub load_user : World D.Server → Outcome (Bool × World D.Server)
  unfolding load read_user
  load_user = load users_table

  unfoldable pub load_video_info : World D.Server → Outcome (Bool × World D.Server)
  unfolding load read_video
  load_video_info = load videos_table

  unfoldable pub load_audio_info : World D.Server → Outcome (Bool × World D.Server)
  unfolding load read_audio
  load_audio_info = load audios_table

  unfoldable pub load_word_info : World D.Server → Outcome (Bool × World D.Server)
  unfolding load read_word
  load_word_info = load words_table

  unfoldable pub load_browse_info : World D.Server → Outcome (Bool × World D.Server)
  unfolding load read_browse
  load_browse_info = load browses_table

  unfoldable pub load_collect_info : World D.Server → Outcome (Bool × World D.Server)
  unfolding load read_collect
  load_collect_info = load collects_table

  -- The next load runs only after one that returned true.
  unfoldable pub and_then :
      Outcome (Bool × World D.Server)
      → (World D.Server → Outcome (Bool × World D.Server))
      → Outcome (Bool × World D.Server)
  and_then m next = do (done, w) ← m; elim done [ true ↦ next w | false ↦ ok (false, w) ]

  -- `Init`.
  unfoldable pub init : World D.Server → Outcome (Bool × World D.Server)
  unfolding load_user load_video_info load_audio_info load_word_info load_browse_info
      load_collect_info and_then
  init w = and_then (load_user w) λ w₁. and_then (load_video_info w₁) λ w₂.
      and_then (load_audio_info w₂) λ w₃.
        and_then (load_word_info w₃) λ w₄. and_then (load_browse_info w₄) λ w₅. load_collect_info w₅
