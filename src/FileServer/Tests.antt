-- ===== src/FileServer/Tests.antt =====
-- Runs of the table of files and of the handler with its content provider.
use sever_code.Prelude.{◌≡◌, refl, true, false, none, some, [], ◌∷◌, text, same, length, keep}
use sever_code.FileServer.{Disk, FileManager, is_file_exsit, init, is_dots, list_entries}
use sever_code.FileServer.Provided.{on_get-provide}
use sever_code.FileServer.{on_get, provided, directory_of, file_path, provide}
use sever_code.Prelude.{ℕ, ◌<◌, ◌≤◌, fault, bad_access, ok}

abbrev full : Disk
full = record {
  entries = λ path. some (text "." ∷ text "a.png" ∷ text ".." ∷ []);
  makes = λ path. true;
  opens = λ path. true;
  content = λ path. text "twelve bytes";
}

abbrev empty : Disk
empty = record {
  entries = λ path. none;
  makes = λ path. false;
  opens = λ path. false;
  content = λ path. [];
}

abbrev no_files : FileManager
no_files = record { list_files = [] }

no_dots : (init full (text "base") no_files).1.list_files ≡ text "a.png" ∷ []
unfolding init same keep is_dots list_entries
no_dots = refl

opened_once : (is_file_exsit full (text "a.png") no_files).0 ≡ true
unfolding is_file_exsit
opened_once = refl

on_get-provide_example :
    (size : ℕ) × (on_get full (text "a.png")
      ≡ provided size (directory_of (text "a.png")).1 (file_path (text "a.png")))
    × (size ≡ length (full.content (file_path (text "a.png"))))
    × ((offset : ℕ)
        → offset < size
        → provide full (file_path (text "a.png")) offset ≡ fault bad_access)
    × ((offset : ℕ) → size ≤ offset → provide full (file_path (text "a.png")) offset ≡ ok none)
on_get-provide_example = on_get-provide full (text "a.png") refl
