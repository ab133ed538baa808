-- ===== src/FileServer/Known.antt =====
-- The table of files over time.
use sever_code.Prelude.{
  ◌≡◌, refl, ◌∙◌, arith, Bool, true, false, ◌||◌, Option, none, some, List, [], ◌∷◌, ◌++◌, Bytes,
  same_refl, Bool-cases, inl, inr,
}
use sever_code.FileServer.{
  Disk, FileManager, is_listed, list_entries, add_file, init, is_file_exsit,
}

-- A call, with the file system as it is then.
pub data Call : Type 0 where
  inits : Disk → Bytes → Call
  asks : Disk → Bytes → Call
  adds : Bytes → Call

unfoldable pub after_call : Call → FileManager → FileManager
unfolding init is_file_exsit add_file
after_call (inits d basepath) m = (init d basepath m).1
after_call (asks d name) m = (is_file_exsit d name m).1
after_call (adds name) m = add_file name m

unfoldable pub after_calls : List Call → FileManager → FileManager
unfolding after_call
after_calls [] m = m
after_calls (c ∷ calls) m = after_calls calls (after_call c m)

is_listed-append :
    (name : Bytes) (files more : List Bytes)
    → is_listed name (files ++ more) ≡ (is_listed name files || is_listed name more)
unfolding is_listed
is_listed-append name [] more = refl
is_listed-append name (f ∷ files) more = ground (arith, is_listed-append name files more)

known-append :
    (name : Bytes) (files more : List Bytes)
    → is_listed name files ≡ true
    → is_listed name (files ++ more) ≡ true
known-append name files more h = is_listed-append name files more ∙ rw h refl

list_entries_known :
    (name : Bytes) (entries : Option (List Bytes)) (makes : Bool) (m : FileManager)
    → is_listed name m.list_files ≡ true
    → is_listed name ((list_entries entries makes m).1.list_files) ≡ true
unfolding list_entries
list_entries_known name none makes m h = h
list_entries_known name (some names) makes m h = known-append name m.list_files _ h

is_file_exsit_known :
    (d : Disk) (name other : Bytes) (m : FileManager)
    → is_listed name m.list_files ≡ true
    → is_listed name ((is_file_exsit d other m).1.list_files) ≡ true
unfolding is_file_exsit add_file
is_file_exsit_known d name other m h = elim (Bool-cases (is_listed other m.list_files)) [
  | inl there ↦ rw there h
  | inr absent ↦ elim (Bool-cases (d.opens other)) [
    | inl opened ↦ rw (absent, opened) (known-append name m.list_files (other ∷ []) h)
    | inr gone ↦ rw (absent, gone) h
  ]
]

after_call_known :
    (name : Bytes) (c : Call) (m : FileManager)
    → is_listed name m.list_files ≡ true
    → is_listed name ((after_call c m).list_files) ≡ true
unfolding after_call init add_file
after_call_known name (inits d basepath) m h =
    list_entries_known name (d.entries basepath) (d.makes basepath) m h
after_call_known name (asks d other) m h = is_file_exsit_known d name other m h
after_call_known name (adds other) m h = known-append name m.list_files (other ∷ []) h

after_calls_known :
    (name : Bytes) (calls : List Call) (m : FileManager)
    → is_listed name m.list_files ≡ true
    → is_listed name ((after_calls calls m).list_files) ≡ true
unfolding after_calls
after_calls_known name [] m h = h
after_calls_known name (c ∷ calls) m h =
    after_calls_known name calls (after_call c m) (after_call_known name c m h)

is_file_exsit_listed :
    (d : Disk) (name : Bytes) (m : FileManager)
    → is_listed name m.list_files ≡ true
    → (is_file_exsit d name m).0 ≡ true
unfolding is_file_exsit
is_file_exsit_listed d name m h = rw h refl

is_listed_last : (name : Bytes) (files : List Bytes) → is_listed name (files ++ (name ∷ [])) ≡ true
unfolding is_listed
is_listed_last name [] = rw (same_refl name) refl
is_listed_last name (f ∷ files) = ground (arith, is_listed_last name files)

-- What IsFileExsit reports as there, it has in the table.
is_file_exsit-is_listed :
    (d : Disk) (name : Bytes) (m : FileManager)
    → (is_file_exsit d name m).0 ≡ true
    → is_listed name ((is_file_exsit d name m).1.list_files) ≡ true
unfolding is_file_exsit add_file
is_file_exsit-is_listed d name m h = elim (Bool-cases (is_listed name m.list_files)) [
  | inl there ↦ rw there there
  | inr absent ↦ elim (Bool-cases (d.opens name)) [
    | inl opened ↦ rw (absent, opened) (is_listed_last name m.list_files)
    | inr gone ↦ let refused : (is_file_exsit d name m).0 ≡ false = rw (absent, gone) refl in cc
  ]
]

-- A name that IsFileExsit has once reported as there is reported so behind any calls, whatever has
-- become of the file.
pub is_file_exsit-after_calls :
    (d later : Disk) (name : Bytes) (calls : List Call) (m : FileManager)
    → (is_file_exsit d name m).0 ≡ true
    → (is_file_exsit later name (after_calls calls (is_file_exsit d name m).1)).0 ≡ true
is_file_exsit-after_calls d later name calls m h =
    is_file_exsit_listed later name _
      (after_calls_known name calls (is_file_exsit d name m).1 (is_file_exsit-is_listed d name m h))
