-- ===== src/Database/Schema.antt =====
-- The tables that the constructor of MySqlManager describes (MySqlManager.cpp, MySqlManager.h).
use sever_code.Prelude.{String, List, [], Bytes, text}
use sever_code.Database.Maps.{assign, insert}

pub record FieldInfo : Type 0 where
  pub name : Bytes
  pub type : Bytes
  pub desc : Bytes

abbrev pub Fields : Type 0
Fields = List (Bytes × FieldInfo)

pub record TableInfo : Type 0 where
  pub name : Bytes
  pub fields : Fields
  pub key : Bytes

abbrev pub Tables : Type 0
Tables = List (Bytes × TableInfo)

-- `info.mapField[name] = {name, type, desc}`.
unfoldable pub column : String → String → String → Fields → Fields
unfolding assign
column name type desc fields =
    assign (text name) (record { name = text name; type = text type; desc = text desc }) fields

-- `m_mapTable.insert(TablePair(info.sName, info))`.
unfoldable pub add_table : TableInfo → Tables → Tables
unfolding insert
add_table info tables = insert info.name info tables

unfoldable pub user_table : TableInfo
unfolding column
user_table = record {
  name = text "tab_user";
  fields = column "u_sex" "bit NOT NULL" "bit" (
      column "u_headImage" "varchar(255) NULL" "varchar(255)" (
        column "u_password" "varchar(255) NOT NULL" "varchar(255)" (
          column "u_userName" "varchar(255) NOT NULL" "varchar(255)"
            (column "u_id" "varchar(64) NOT NULL" "varchar(64)" []))));
  key = text "PRIMARY KEY (u_id)";
}

unfoldable pub video_table : TableInfo
unfolding column
video_table = record {
  name = text "tab_videoData";
  fields = column "v_uID" "varchar(64) NOT NULL" "varchar(64)" (
      column "v_courses" "varchar(255) NOT NULL" "varchar(255)" (
        column "v_synopsis" "text NOT NULL" "text" (
          column "v_headImgPath" "varchar(255) NULL" "varchar(255)" (
            column "v_filePath" "varchar(255) NOT NULL" "varchar(255)" (
              column "v_videoTitle" "varchar(255) NOT NULL" "varchar(255)" (
                column "v_upName" "varchar(255) NOT NULL" "varchar(255)"
                  (column "v_id" "varchar(64) NOT NULL" "varchar(64)" [])))))));
  key =
      text
        "PRIMARY KEY (v_id),CONSTRAINT `v_uID` FOREIGN KEY (`v_uID`) REFERENCES `tab_user` (`u_id`)";
}

unfoldable pub audio_table : TableInfo
unfolding column
audio_table = record {
  name = text "tab_audioData";
  fields = column "a_uID" "varchar(64) NOT NULL" "varchar(64)" (
      column "a_courses" "varchar(255) NOT NULL" "varchar(255)" (
        column "a_headImgPath" "varchar(255) NULL" "varchar(255)" (
          column "a_filePath" "varchar(255) NOT NULL" "varchar(255)" (
            column "a_audioTitle" "varchar(255) NOT NULL" "varchar(255)" (
              column "a_upName" "varchar(255) NOT NULL" "varchar(255)"
                (column "a_id" "varchar(64) NOT NULL" "varchar(64)" []))))));
  key =
      text
        "PRIMARY KEY (a_id),CONSTRAINT `a_uID` FOREIGN KEY (`a_uID`) REFERENCES `tab_user` (`u_id`)";
}

-- The columns of tab_textData: the table is not inserted, and the map not cleared behind it.
unfoldable pub text_fields : Fields
unfolding column
text_fields = column "t_uID" "varchar(64) NOT NULL" "varchar(64)" (
    column "t_courses" "varchar(255) NOT NULL" "varchar(255)" (
      column "t_title" "varchar(255) NOT NULL" "varchar(255)" (
        column "t_upName" "varchar(64) NOT NULL" "varchar(64)"
          (column "t_id" "varchar(64) NOT NULL" "varchar(64)" []))))

unfoldable pub collect_table : TableInfo
unfolding column text_fields
collect_table = record {
  name = text "tab_assetsCollect";
  fields = column "c_assetsTitle" "varchar(255) NOT NULL" "varchar(255)" (
      column "c_assetsType" "varchar(8) NOT NULL" "varchar(8)" (
        column "c_uID" "varchar(64) NOT NULL" "varchar(64)"
          (column "c_id" "varchar(64) NOT NULL" "varchar(64)" text_fields)));
  key =
      text
        "PRIMARY KEY (`c_id`),CONSTRAINT `c_uID` FOREIGN KEY (`c_uID`) REFERENCES `tab_user` (`u_id`)";
}

unfoldable pub browse_table : TableInfo
unfolding column
browse_table = record {
  name = text "tab_browseRecords";
  fields = column "b_uID" "varchar(64) NOT NULL" "varchar(64)" (
      column "b_browseTitle" "varchar(255) NOT NULL" "varchar(255)" (
        column "b_browseTime" "datetime NOT NULL" "datetime" (
          column "b_assetsType" "varchar(8) NOT NULL" "varchar(8)"
            (column "b_id" "varchar(64) NOT NULL" "varchar(64)" []))));
  key =
      text
        "PRIMARY KEY (b_id),CONSTRAINT `b_uID` FOREIGN KEY (`b_uID`) REFERENCES `tab_user` (`u_id`)";
}

unfoldable pub tables : Tables
unfolding add_table user_table video_table audio_table collect_table browse_table
tables = add_table browse_table (
    add_table collect_table
      (add_table audio_table (add_table video_table (add_table user_table []))))
