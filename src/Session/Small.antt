-- ===== src/Session/Small.antt =====
-- A small JSON library, clock and server for the tests: objects of texts and small numbers.
use sever_code.Prelude.{ℕ, ◌%◌, Bool, true, false, none, List, [], ◌∷◌, ◌++◌, Bytes, same}
use sever_code.Prelude.{◌==◌, if◌then◌else◌, Outcome, ok, fault, uncaught}
use sever_code.Users.Types.{UserManager, SqlClient, World}
use sever_code.Session.{JsonLib}
use sever_code.Session.TableId.{TimeLib, Moment}

pub data Json : Type 0 where
  null : Json
  int : ℕ → Json
  str : Bytes → Json
  bool : Bool → Json
  member : Bytes → Json → Json → Json
  element : Json → Json → Json

unfoldable pub get : Bytes → Json → Outcome Json
get name null = ok null
get name (member n v rest) = if same n name then ok v else get name rest
get name (int n) = fault uncaught
get name (str s) = fault uncaught
get name (bool b) = fault uncaught
get name (element v rest) = fault uncaught

unfoldable pub as_string : Json → Outcome Bytes
as_string null = ok []
as_string (str s) = ok s
as_string (int n) = fault uncaught
as_string (bool b) = fault uncaught
as_string (member n v rest) = fault uncaught
as_string (element v rest) = fault uncaught

unfoldable pub as_int : Json → Outcome ℕ
as_int null = ok 0
as_int (int n) = ok n
as_int (str s) = fault uncaught
as_int (bool b) = ok (if b then 1 else 0)
as_int (member n v rest) = fault uncaught
as_int (element v rest) = fault uncaught

unfoldable pub as_bool : Json → Outcome Bool
as_bool null = ok false
as_bool (bool b) = ok b
as_bool (int n) = ok (if n == 0 then false else true)
as_bool (str s) = fault uncaught
as_bool (member n v rest) = fault uncaught
as_bool (element v rest) = fault uncaught

-- Texts that end in a zero byte.
unfoldable pub split : Bytes → Bytes → List Bytes
split word [] = []
split word (b ∷ s) = if b == 0 then word ∷ split [] s else split (word ++ (b ∷ [])) s

-- `#` and a byte is a number, anything else a text.
unfoldable pub value : Bytes → Json
value [] = str []
value (b ∷ []) = str (b ∷ [])
value (b ∷ d ∷ []) = if b == b'#' then int d else str (b ∷ d ∷ [])
value (b ∷ d ∷ e ∷ s) = str (b ∷ d ∷ e ∷ s)

unfoldable pub members : List Bytes → Json
members [] = null
members (n ∷ []) = null
members (n ∷ v ∷ rest) = member n (value v) (members rest)

-- A message is a `{` and names and values in turn.
unfoldable pub parse : Bytes → Bool × Json
parse [] = (false, null)
parse (b ∷ s) = if b == b'{' then (true, members (split [] s)) else (false, null)

unfoldable pub flat : Json → Bytes
flat null = []
flat (int n) = b'#' ∷ n ∷ []
flat (str s) = s
flat (bool b) = []
flat (member n v rest) = n ++ (0 ∷ (flat v ++ (0 ∷ flat rest)))
flat (element v rest) = []

abbrev pub json : JsonLib
json = record {
  Value = Json;
  null = null;
  int = int;
  str = str;
  bool = bool;
  get = get;
  set = member;
  append = element;
  as_string = as_string;
  as_int = as_int;
  as_bool = as_bool;
  parse = parse;
  write = λ v. b'{' ∷ flat v;
}

abbrev pub clock : TimeLib
clock = record {
  localtime = λ now. record {
    tm_year = 124;
    tm_mon = 0;
    tm_mday = 11;
    tm_hour = 1;
    tm_min = 2;
    tm_sec = 3;
  };
  draw = λ seed i. seed % 16;
}

abbrev pub moment : Moment
moment = record { now = 7; seed = 7 }

-- A server that accepts every statement and answers no query.
abbrev pub client : SqlClient
client = record { Server = Unit; execute = λ sql s. (true, s); query = λ sql s. (none, s) }

abbrev pub empty_manager : UserManager
empty_manager = record {
  cached_users = [];
  cache_video_info = [];
  cache_audio_info = [];
  cache_word_info = [];
  cache_browse_info = [];
  cache_collect_info = [];
  map_users = [];
  base_user_id = 0;
}

abbrev pub start : World Unit
start = record { manager = empty_manager; server = tt }
