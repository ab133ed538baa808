-- ===== src/Users/Titles.antt =====
-- The loops of GetHistoryInfoFromDB and GetCollectInfoFromDB: the titles come from the database, the
-- assets from the lists in memory (UserManager.cpp).
use sever_code.Prelude.{Bool, true, false, none, some}
use sever_code.Prelude.{[], Bytes, text, same, if◌then◌else◌}
use sever_code.Prelude.{Outcome, ok, ◌>>=◌}
use sever_code.Sql.{QueryResult, text_of}
use sever_code.Sql.Loop.{sized, each_row}
use sever_code.Users.Types.{
  User, new_user, UserManager, WordInfo, AudioInfo, VideoInfo, SqlClient, World,
}
use sever_code.Users.Statements.{select_browse, select_collect}
use sever_code.Users.Account.{get_user_info_by_username}
use sever_code.Users.Assets.{push_if, Lists, get_video_info, get_audio_info, get_word_info}

unfoldable pub titled_video : Bytes → VideoInfo → Bool
titled_video title v = same v.v_title title

unfoldable pub titled_audio : Bytes → AudioInfo → Bool
titled_audio title a = same a.a_title title

unfoldable pub titled_word : Bytes → WordInfo → Bool
titled_word title t = same t.title title

-- The three branches over the asset type.
unfoldable pub push_titled : UserManager → Bytes → Bytes → Lists → Lists
unfolding push_if get_video_info get_audio_info get_word_info titled_video titled_audio titled_word
push_titled m type title l =
    if same type (text "video")
    then record l { videos = push_if (titled_video title) l.videos ((get_video_info [] m).1) }
    else if same type (text "audio")
    then record l { audios = push_if (titled_audio title) l.audios ((get_audio_info [] m).1) }
    else if same type (text "text")
    then record l { words = push_if (titled_word title) l.words ((get_word_info [] m).1) }
    else l

-- The body of the loop, on the names of the two columns.
unfoldable pub select_row : UserManager → Bytes → Bytes → QueryResult → Lists → Outcome Lists
unfolding push_titled
select_row m type_column title_column r l = do
  type ← text_of type_column r
  title ← text_of title_column r
  ok (push_titled m type title l)

module _ (D : SqlClient) where
  -- The shape of the two methods behind the search for the user: the statement on the user's id,
  -- and the names of the columns.
  unfoldable pub selection_of :
      (Bytes → Bytes)
      → Bytes
      → Bytes
      → Lists
      → User
      → World D.Server
      → Outcome (Bool × Lists × World D.Server)
  unfolding each_row select_row
  selection_of select type_column title_column l u w =
      let (result, s) = D.query (select u.u_id) w.server in
      elim result [
        | none ↦ ok (false, l, record w { server = s })
        | some r ↦ do
          l' ← each_row sized (select_row w.manager type_column title_column) r l
          ok (true, l', record w { server = s })
      ]

  unfoldable pub get_selection :
      (Bytes → Bytes)
      → Bytes
      → Bytes
      → Lists
      → Bytes
      → World D.Server
      → Outcome (Bool × Lists × World D.Server)
  unfolding get_user_info_by_username selection_of new_user
  get_selection select type_column title_column l user_name w =
      let (found, u) = get_user_info_by_username user_name new_user w.manager in
      if found then selection_of select type_column title_column l u w else ok (false, l, w)

  -- `GetHistoryInfoFromDB`.
  unfoldable pub get_history_info :
      Lists → Bytes → World D.Server → Outcome (Bool × Lists × World D.Server)
  unfolding get_selection select_browse
  get_history_info = get_selection select_browse (text "b_assetsType") (text "b_browseTitle")

  -- `GetCollectInfoFromDB`.
  unfoldable pub get_collect_info :
      Lists → Bytes → World D.Server → Outcome (Bool × Lists × World D.Server)
  unfolding get_selection select_collect
  get_collect_info = get_selection select_collect (text "c_assetsType") (text "c_assetsTitle")
