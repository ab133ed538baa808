-- ===== src/Session/TableId.antt =====
-- `getTableID` of ClientSession.cpp: the keys of new rows.
use sever_code.Prelude.{ℕ, ◌+◌, ◌-◌, ◌≡◌, refl, [], ◌∷◌, ◌++◌}
use sever_code.Prelude.{Bytes, text, same, leb, if◌then◌else◌}
use sever_code.Numerals.{decimal, digits, symbol}

-- The fields of `std::tm`, as localtime fills them.
pub record Tm : Type 0 where
  pub tm_year : ℕ
  pub tm_mon : ℕ
  pub tm_mday : ℕ
  pub tm_hour : ℕ
  pub tm_min : ℕ
  pub tm_sec : ℕ

-- localtime, and the numbers in 0 … 15 that the distribution draws from a generator with a seed.
pub record TimeLib : Type 0 where
  pub localtime : ℕ → Tm
  pub draw : ℕ → ℕ → ℕ

-- The two readings of the clock in a call: for the text, and for the seed.
pub record Moment : Type 0 where
  pub now : ℕ
  pub seed : ℕ

unfoldable pub type_letter : Bytes → Bytes
type_letter t_type =
    if same t_type (text "user")
    then text "u"
    else if same t_type (text "video")
    then text "v"
    else if same t_type (text "audio")
    then text "a"
    else if same t_type (text "text")
    then text "t"
    else if same t_type (text "browse")
    then text "b"
    else if same t_type (text "collect")
    then text "c"
    else []

unfoldable pub time_text : Tm → Bytes
unfolding decimal
time_text time_info =
    decimal (time_info.tm_year + 1900)
    ++ (decimal (time_info.tm_mon + 1)
        ++ (decimal time_info.tm_mday
            ++ (decimal time_info.tm_hour
                ++ (decimal time_info.tm_min ++ decimal time_info.tm_sec))))

unfoldable pub rand_char : ℕ → ℕ
rand_char n = if leb 10 n then b'a' + (n - 10) else b'0' + n

unfoldable pub rand_text : (ℕ → ℕ) → Bytes
unfolding rand_char
rand_text draw =
    rand_char (draw 0) ∷ rand_char (draw 1) ∷ rand_char (draw 2) ∷ rand_char (draw 3) ∷ []

unfoldable pub get_table_id : TimeLib → Moment → Bytes → Bytes
unfolding type_letter time_text rand_text
get_table_id T moment t_type =
    type_letter t_type ++ (time_text (T.localtime moment.now) ++ rand_text (T.draw moment.seed))

-- The parts of the time are not padded, so two days of a year can have one text: the eleventh
-- of January and the first of November, at each time of the day.
pub time_text_ambiguous :
    (year hour minute second : ℕ)
    → time_text (record {
      tm_year = year;
      tm_mon = 0;
      tm_mday = 11;
      tm_hour = hour;
      tm_min = minute;
      tm_sec = second;
    })
      ≡ time_text (record {
        tm_year = year;
        tm_mon = 10;
        tm_mday = 1;
        tm_hour = hour;
        tm_min = minute;
        tm_sec = second;
      })
unfolding time_text decimal digits symbol
time_text_ambiguous year hour minute second = refl
