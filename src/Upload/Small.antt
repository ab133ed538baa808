-- ===== src/Upload/Small.antt =====
-- A small file system and the messages of an upload of four bytes, for the tests.
use sever_code.Prelude.{◌≡◌, refl, true, false, none, [], ◌∷◌, ◌++◌, Bytes, text, same, length, ok}
use sever_code.Session.{string_at, int_at}
use sever_code.Session.Small.{
  Json, null, int, str, member, get, as_string, as_int, json, parse, split, value, members,
}
use sever_code.Upload.{FileLib, Place, has_size}
use sever_code.Upload.Steps.{joined}

-- Every file opens and every piece is written; any value but null counts as an int.
abbrev pub files : FileLib json
files = record {
  is_member = λ name v. ok true;
  is_int = λ v. true;
  opens = λ path. true;
  writes = λ piece. true;
}

abbrev pub start : Place
start = record {
  session = record {
    fp = none;
    file_name = [];
    file_path = [];
    is_state = false;
    offset = 0;
    filesize = 0;
  };
  disk = λ path. [];
}

abbrev pub header : Bytes
header =
    text "{fileName" ++ (0 ∷ (text "a.png" ++ (0 ∷ (text "fileSize" ++ (0 ∷ b'#' ∷ 4 ∷ 0 ∷ [])))))

abbrev pub header_json : Json
header_json = member (text "fileName") (str (text "a.png")) (member (text "fileSize") (int 4) null)

pub header-parsed : json.parse header ≡ (true, header_json)
unfolding parse split value members
header-parsed = refl

pub header-sized : has_size json files header_json ≡ ok true
unfolding has_size get same
header-sized = refl

pub header-named : string_at json (text "fileName") header_json ≡ ok (text "a.png")
unfolding string_at get as_string same
header-named = refl

pub header-int : int_at json (text "fileSize") header_json ≡ ok 4
unfolding int_at get as_int same
header-int = refl

pub length-pieces : length (joined ((1 ∷ 2 ∷ 3 ∷ []) ∷ (4 ∷ []) ∷ [])) ≡ 4
unfolding joined
length-pieces = refl
