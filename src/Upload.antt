-- ===== src/Upload.antt =====
-- The upload of a file (FileServer/FileSession.cpp): a first message that names the file and its
-- size, then its bytes in any number of messages. The file system and the JSON library are
-- parameters; what is on disk is the content by path.
pub mod Steps
pub mod Whole
pub mod Small
mod Tests
use sever_code.Prelude.{
  ℕ, ◌+◌, ◌%◌, ◌^◌, Bool, true, false, not, ◌||◌, ◌&&◌, Option, none, some, List, [], ◌∷◌, ◌++◌,
}
use sever_code.Prelude.{Bytes, text, same, length, leb, ltb, if◌then◌else◌, Outcome, ok, ◌>>=◌}
use sever_code.Session.{JsonLib, minus_one, string_at, int_at, with_members}

-- The two queries on a JSON value; whether fopen succeeds on a path, and fwrite on bytes that are
-- not empty.
pub record FileLib (J : JsonLib) : Type 0 where
  pub is_member : Bytes → J.Value → Outcome Bool
  pub is_int : J.Value → Bool
  pub opens : Bytes → Bool
  pub writes : Bytes → Bool

-- `fp` is the path of the open file.
pub record FileSession : Type 0 where
  pub fp : Option Bytes
  pub file_name : Bytes
  pub file_path : Bytes
  pub is_state : Bool
  pub offset : ℕ
  pub filesize : ℕ

-- A reply on the connection, and a video that is handed to `handleVideo`.
pub data Event : Type 0 where
  replied : Bytes → Event
  video : Bytes → Event

-- The session, and the content of the files.
pub record Place : Type 0 where
  pub session : FileSession
  pub disk : Bytes → Bytes

unfoldable pub starts_with : Bytes → Bytes → Bool
starts_with [] s = true
starts_with (b ∷ t) [] = false
starts_with (b ∷ t) (c ∷ s) = same (b ∷ []) (c ∷ []) && starts_with t s

-- `s.find(t) != npos`.
unfoldable pub contains : Bytes → Bytes → Bool
unfolding starts_with
contains t [] = starts_with t []
contains t (c ∷ s) = starts_with t (c ∷ s) || contains t s

unfoldable pub dir_of : Bytes → Bytes
unfolding contains
dir_of file_name =
    text "/home/xjh/projects/GraduationProject/out/build/ubuntu/source_File"
    ++ (if contains (text ".html") file_name
        then text "/ptFile/"
        else if contains (text ".mp4") file_name
        then text "/video/"
        else if contains (text ".mp3") file_name
        then text "/audio/"
        else if contains (text ".png") file_name
        then text "/Img/"
        else [])

-- `a >= b` on the bit patterns of ints.
unfoldable pub int_ge : ℕ → ℕ → Bool
int_ge a b = leb ((b + 2147483648) % 2 ^ 32) ((a + 2147483648) % 2 ^ 32)

-- The content of a file replaced.
unfoldable pub put : Bytes → Bytes → (Bytes → Bytes) → Bytes → Bytes
put path content disk p = if same p path then content else disk p

-- m_fp, m_offset, m_filesize and m_isState as they are between uploads.
unfoldable pub close : FileSession → FileSession
close s = record s { fp = none; is_state = false; offset = 0; filesize = 0 }

unfoldable pub forget : FileSession → FileSession
forget s = record s { file_name = []; file_path = [] }

-- `ResetFile`, which nothing calls: with a file open it leaves `is_state`.
unfoldable pub reset_file : FileSession → FileSession
reset_file s = elim s.fp [ none ↦ s | some path ↦ record s { fp = none; offset = 0; filesize = 0 } ]

module _ (J : JsonLib) where
  -- `OnFileWriteStateResponse`.
  unfoldable pub write_state_text : ℕ → Bytes → Bytes
  unfolding with_members
  write_state_text state type = J.write (
      with_members J J.null
        ((text "responsesState", J.int state) ∷ (text "fileState", J.str type) ∷ []))

module _ (J : JsonLib) (F : FileLib J) where
  -- `isMember("fileSize")`, and `isInt` only of a member.
  unfoldable pub has_size : J.Value → Outcome Bool
  has_size json = do
    member ← F.is_member (text "fileSize") json
    elim member [
      | false ↦ ok false
      | true ↦ do size ← J.get (text "fileSize") json; ok (F.is_int size)
    ]

  -- fopen for writing, which empties the file.
  unfoldable pub open_path : Bytes → Bytes → ℕ → Place → List Event × Place
  unfolding put write_state_text
  open_path path file_name filesize p =
      if F.opens path
      then (
        [],
        record {
          session = record (p.session) {
            fp = some path;
            is_state = true;
            filesize = filesize;
            file_path = path;
            file_name = file_name;
          };
          disk = put path [] p.disk;
        },
      )
      else (
        replied (write_state_text J minus_one (text "FaildOpen")) ∷ [],
        record p {
          session = record (p.session) { fp = none; is_state = false; offset = 0; filesize = 0 };
        },
      )

  unfoldable pub opened : J.Value → Place → Outcome (List Event × Place)
  unfolding string_at int_at dir_of open_path
  opened json p = do
    file_name ← string_at J (text "fileName") json
    filesize ← int_at J (text "fileSize") json
    ok (open_path (dir_of file_name ++ file_name) file_name filesize p)

  -- A first message behind the parser.
  unfoldable pub open_file : J.Value → Place → Outcome (List Event × Place)
  unfolding has_size opened write_state_text
  open_file json p = do
    sized ← has_size json
    if sized
        then opened json p
        else ok (
          replied (write_state_text J minus_one (text "InvalidJSON")) ∷ [],
          record p { session = record (p.session) { is_state = false } },
        )

  -- The replies at the end of an upload, by the file's name.
  unfoldable pub finished : FileSession → List Event
  unfolding contains write_state_text
  finished s =
      replied (
        write_state_text J 1 (
          if contains (text ".html") s.file_name
          then text "html"
          else if contains (text ".png") s.file_name
          then text "Next"
          else text "Ok"))
      ∷ (if contains (text ".mp4") s.file_name then video s.file_path ∷ [] else [])

  -- Bytes for the open file; fwrite of no bytes counts as a failure.
  unfoldable pub write_file : Bytes → Bytes → Place → List Event × Place
  unfolding put int_ge close forget finished
  write_file path filedata p =
      let offset = (p.session.offset + length filedata) % 2 ^ 32 in
      let disk = put path (p.disk path ++ filedata) p.disk in
      if ltb 0 (length filedata) && F.writes filedata
      then (if int_ge offset p.session.filesize
          then (finished p.session, record { session = forget (close p.session); disk = disk })
          else ([], record { session = record (p.session) { offset = offset }; disk = disk }))
      else (
        replied (write_state_text J minus_one (text "writeError")) ∷ [],
        record p { session = forget (close p.session) },
      )

  -- A message that is not a first one.
  unfoldable pub write_open : Option Bytes → Bytes → Place → List Event × Place
  unfolding write_file close forget write_state_text
  write_open (some path) filedata p = write_file path filedata p
  write_open none filedata p = (
    replied (write_state_text J minus_one (text "FaildOpen")) ∷ [],
    record p { session = forget (close p.session) },
  )

  -- `OnUploadFileResponse`. Only a session without an upload looks whether the message is JSON.
  unfoldable pub on_upload_file : Bytes → Place → Outcome (List Event × Place)
  unfolding open_file write_open
  on_upload_file filedata p =
      let (parsed, json) = J.parse filedata in
      if not p.session.is_state && parsed
      then open_file json p
      else ok (write_open p.session.fp filedata p)
