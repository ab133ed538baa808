-- ===== src/FileServer.antt =====
-- The file server beside its sessions: the table of files (FileServer/FileManager.cpp) and the HTTP
-- server on httplib (FileServer/main.cpp). The file system is a parameter.
pub mod Known
pub mod Provided
mod Tests
use sever_code.Prelude.{
  ℕ, ◌-◌, Bool, true, false, not, ◌||◌, Option, none, some, List, [], ◌∷◌, ◌++◌,
}
use sever_code.Prelude.{Bytes, text, same, keep, length, take, drop, ltb, leb, if◌then◌else◌}
use sever_code.Prelude.{Outcome, ok, fault, bad_access, ◌>>=◌}
use sever_code.Upload.{contains}

-- opendir with all of readdir, mkdir, fopen for reading and an ifstream, and what a file holds.
pub record Disk : Type 0 where
  pub entries : Bytes → Option (List Bytes)
  pub makes : Bytes → Bool
  pub opens : Bytes → Bool
  pub content : Bytes → Bytes

pub record FileManager : Type 0 where
  pub list_files : List Bytes

unfoldable pub is_dots : Bytes → Bool
is_dots name = same name (text ".") || same name (text "..")

unfoldable pub is_listed : Bytes → List Bytes → Bool
is_listed filename [] = false
is_listed filename (f ∷ files) = same f filename || is_listed filename files

unfoldable pub add_file : Bytes → FileManager → FileManager
add_file filename m = record { list_files = m.list_files ++ (filename ∷ []) }

-- Behind opendir: without a directory one is made.
unfoldable pub list_entries : Option (List Bytes) → Bool → FileManager → Bool × FileManager
unfolding keep is_dots
list_entries none makes m = (makes, m)
list_entries (some names) makes m =
    (true, record { list_files = m.list_files ++ keep (λ name. not (is_dots name)) names })

-- The type of the content by the path of a request, and the directory.
unfoldable pub directory_of : Bytes → Bytes × Bytes
unfolding contains
directory_of path =
    if contains (text ".mp4") path
    then (text "video/", text "video/mp4")
    else if contains (text ".mp3") path
    then (text "audio/", text "audio/mpeg")
    else if contains (text ".html") path
    then (text "ptFile/", text "text/html")
    else if contains (text ".png") path
    then (text "Img/", text "image/png")
    else ([], [])

unfoldable pub file_path : Bytes → Bytes
unfolding directory_of
file_path path =
    text "/home/xjh/Projrct/EdoyumIMServer/out/build/ubuntu/source_File/"
    ++ ((directory_of path).0 ++ path)

-- What the handler hands to httplib: a status with a text, or the size of the content with its type
-- and the path that the provider reads.
pub data Answer : Type 0 where
  not_found : Bytes → Bytes → Answer
  provided : ℕ → Bytes → Bytes → Answer

-- `reserve` of a vector leaves its elements.
unfoldable pub reserve : ℕ → Bytes → Bytes
reserve n v = v

-- `&v[i]`.
unfoldable pub address : ℕ → Bytes → Outcome ℕ
address i v = if ltb i (length v) then ok i else fault bad_access

module _ (D : Disk) where
  -- `Init`: the result, and the names of the directory but `.` and `..`.
  unfoldable pub init : Bytes → FileManager → Bool × FileManager
  unfolding list_entries
  init basepath m = list_entries (D.entries basepath) (D.makes basepath) m

  -- `IsFileExsit`: first the table, then the file system.
  unfoldable pub is_file_exsit : Bytes → FileManager → Bool × FileManager
  unfolding is_listed add_file
  is_file_exsit filename m =
      if is_listed filename m.list_files
      then (true, m)
      else if D.opens filename
      then (true, add_file filename m)
      else (false, m)

  -- The handler of GET requests.
  unfoldable pub on_get : Bytes → Answer
  unfolding file_path directory_of
  on_get path =
      if D.opens (file_path path)
      then provided (length (D.content (file_path path))) (directory_of path).1 (file_path path)
      else not_found (text "Not Found") (text "text/plain")

  -- The content provider: the bytes that it writes at an offset, or `none` where it returns false.
  -- The vector has room, but no element, when the address of its first element is taken.
  unfoldable pub provide : Bytes → ℕ → Outcome (Option Bytes)
  unfolding reserve address
  provide path offset =
      let file_size = length (D.content path) in
      let read_size = if ltb 4096 (file_size - offset) then 4096 else file_size - offset in
      if D.opens path
      then (if leb file_size offset then ok none else (do
        start ← address 0 (reserve 4096 [])
        ok (some (take read_size (drop offset (D.content path))))))
      else ok none
