-- ===== src/Users/Statements.antt =====
-- The SQL texts of UserManager.cpp. The values stand between quotes as they are.
use sever_code.Prelude.{◌≡◌, append_assoc, Bool, true, false, [], ◌∷◌, ◌++◌, List, Bytes, text}
use sever_code.Users.Types.{User, WordInfo, VideoInfo, AudioInfo}

-- `'v₁','v₂',…`
unfoldable pub quoted : List Bytes → Bytes
quoted [] = []
quoted (v ∷ []) = text "'" ++ (v ++ text "'")
quoted (v ∷ w ∷ vs) = text "'" ++ (v ++ (text "'," ++ quoted (w ∷ vs)))

-- A bool on an output stream.
unfoldable pub digit : Bool → Bytes
digit true = text "1"
digit false = text "0"

unfoldable pub insert_user : User → Bytes
unfolding quoted digit
insert_user user =
    text "INSERT INTO tab_user (`u_id`,`u_userName`,`u_password`,`u_headImage`,`u_sex`)"
    ++ (text " VALUES("
        ++ (quoted (user.u_id ∷ user.username ∷ user.password ∷ user.custimface ∷ [])
            ++ (text "," ++ (digit user.sex ++ text ");"))))

unfoldable pub insert_word : WordInfo → Bytes
unfolding quoted
insert_word info =
    text
      "insert into tab_textData (`t_id`,`t_upName`,`t_title`,`t_courses`,`t_data`,`t_uID`) values ("
    ++ (quoted (
          info.t_id ∷ info.up_name ∷ info.title ∷ info.courses_str ∷ info.file_data ∷ info.uid ∷ [])
        ++ text ");")

unfoldable pub insert_video : VideoInfo → Bytes
unfolding quoted
insert_video info =
    text
      "insert into tab_videoData (`v_id`,`v_upName`,`v_videoTitle`,`v_courses`,`v_filePath`,`v_headImgPath`,`v_synopsis`,`v_uID`) values ("
    ++ (quoted (
          info.v_id ∷ info.v_up_name ∷ info.v_title ∷ info.v_courses ∷ info.v_file_path
          ∷ info.v_head_img_path ∷ info.v_synopsis ∷ info.v_uid ∷ [])
        ++ text ");")

unfoldable pub insert_audio : AudioInfo → Bytes
unfolding quoted
insert_audio info =
    text
      "insert into tab_audioData (`a_id`,`a_upName`,`a_audioTitle`,`a_courses`,`a_filePath`,`a_headImgPath`,`a_uID`) values ("
    ++ (quoted (
          info.a_id ∷ info.a_up_name ∷ info.a_title ∷ info.a_courses ∷ info.a_file_path
          ∷ info.a_head_img_path ∷ info.a_uid ∷ [])
        ++ text ");")

unfoldable pub insert_browse : Bytes → Bytes → Bytes → Bytes → Bytes
unfolding quoted
insert_browse b_id b_uid b_assets_type b_assets_title =
    text
      "insert into tab_browseRecords (`b_id`,`b_uID`,`b_assetsType`,`b_browseTime`,`b_browseTitle`) values ("
    ++ (quoted (b_id ∷ b_uid ∷ b_assets_type ∷ [])
        ++ (text ",NOW()," ++ (quoted (b_assets_title ∷ []) ++ text ");")))

unfoldable pub insert_collect : Bytes → Bytes → Bytes → Bytes → Bytes
unfolding quoted
insert_collect c_id c_uid c_assets_type c_assets_title =
    text "insert into tab_assetsCollect (`c_id`,`c_uID`,`c_assetsType`,`c_assetsTitle`) values ("
    ++ (quoted (c_id ∷ c_uid ∷ c_assets_type ∷ c_assets_title ∷ []) ++ text ");")

unfoldable pub delete_collect : Bytes → Bytes → Bytes → Bytes
delete_collect uid assets_title assets_type =
    text "delete from tab_assetsCollect where c_uID = '"
    ++ (uid
        ++ (text "' AND c_assetsTitle = '"
            ++ (assets_title ++ (text "' AND c_assetsType = '" ++ (assets_type ++ text "';")))))

unfoldable pub select_browse : Bytes → Bytes
select_browse uid = text "select * from tab_browseRecords where b_uID = '" ++ (uid ++ text "';")

unfoldable pub select_collect : Bytes → Bytes
select_collect uid = text "select * from tab_assetsCollect where c_uID = '" ++ (uid ++ text "';")

-- The values are not escaped: where a name holds `','`, the statement for it and a password is the
-- statement for a part of it and a longer password.
pub insert_user_ambiguous :
    (u : User) (x y z : Bytes)
    → insert_user (record u { username = x ++ (text "','" ++ y); password = z })
      ≡ insert_user (record u { username = x; password = y ++ (text "','" ++ z) })
unfolding insert_user quoted
insert_user_ambiguous u x y z = simp append_assoc
