-- ===== src/Sql.antt =====
-- Field.cpp and QueryResult.cpp: a cursor over the rows that the MySQL library has stored.
pub mod Rows
pub mod Loop
pub mod Fold
mod Tests
use sever_code.Prelude.{ℕ, suc, ◌+◌, Bool, true, false, not, Option, none, some, List, [], ◌∷◌, map}
use sever_code.Prelude.{Bytes, same, length, get_elem?, ltb, leb, ◌==◌, ◌||◌, ◌&&◌, if◌then◌else◌}
use sever_code.Prelude.{Outcome, ok, fault, bad_access, ◌>>=◌}

pub data DataTypes : Type 0 where
  none_type string_type integer_type float_type bool_type null_type : DataTypes

pub record Field : Type 0 where
  pub value : Bytes
  pub name : Bytes
  pub type : DataTypes
  pub is_null : Bool

unfoldable pub new_field : Field
new_field = record { value = []; name = []; type = null_type; is_null = true }

-- `SetValue`: a null pointer is `none`.
unfoldable pub set_value : Option Bytes → Field → Field
set_value none f = record f { is_null = true; value = [] }
set_value (some []) f = record f { is_null = true; value = [] }
set_value (some (b ∷ s)) f = record f { value = b ∷ s; is_null = false }

-- Is the number that atoi reads other than 0? White space and a sign are skipped, then digits are
-- read up to the first byte that is none.
unfoldable pub nonzero_digits : Bytes → Bool
nonzero_digits [] = false
nonzero_digits (b ∷ s) = leb b'0' b && (leb b b'9' && (ltb b'0' b || nonzero_digits s))

unfoldable pub skip_sign : Bytes → Bytes
skip_sign [] = []
skip_sign (b ∷ s) = if b == b'-' || b == b'+' then s else b ∷ s

unfoldable pub skip_space : Bytes → Bytes
skip_space [] = []
skip_space (b ∷ s) = if b == b' ' || (leb 9 b && leb b 13) then skip_space s else b ∷ s

unfoldable pub atoi_nonzero : Bytes → Bool
unfolding nonzero_digits skip_sign skip_space
atoi_nonzero s = nonzero_digits (skip_sign (skip_space s))

unfoldable pub to_bool : Field → Bool
unfolding atoi_nonzero
to_bool f = atoi_nonzero f.value

-- The column types of the MySQL library that the program tells apart.
pub data MySqlType : Type 0 where
  timestamp date time datetime year string var_string blob set null : MySqlType
  tiny short long longlong int24 enum decimal float double other : MySqlType

unfoldable pub to_edy_type : MySqlType → DataTypes
to_edy_type timestamp = string_type
to_edy_type date = string_type
to_edy_type time = string_type
to_edy_type datetime = string_type
to_edy_type year = string_type
to_edy_type string = string_type
to_edy_type var_string = string_type
to_edy_type blob = string_type
to_edy_type set = string_type
to_edy_type null = null_type
to_edy_type tiny = integer_type
to_edy_type short = integer_type
to_edy_type long = integer_type
to_edy_type longlong = integer_type
to_edy_type int24 = integer_type
to_edy_type enum = integer_type
to_edy_type decimal = float_type
to_edy_type float = float_type
to_edy_type double = float_type
to_edy_type other = none_type

-- A row as the library hands it out: a null pointer or the bytes of a column, for each column.
abbrev pub Row : Type 0
Row = List (Option Bytes)

pub record Column : Type 0 where
  pub name : Bytes
  pub type : MySqlType

-- What the library stores for a query: its columns, and the rows not fetched yet.
pub record ResultSet : Type 0 where
  pub columns : List Column
  pub rows : List Row

-- `m_result` is `none` once it is freed. `has_storage`: the vector of the current row has memory,
-- which clear() does not give back.
pub record QueryResult : Type 0 where
  pub current_row : List Field
  pub field_names : List Bytes
  pub result : Option (List Row)
  pub rowcount : ℕ
  pub column_count : ℕ
  pub has_storage : Bool

unfoldable pub end_query : QueryResult → QueryResult
end_query r = record r {
  current_row = [];
  field_names = [];
  result = none;
  rowcount = 0;
  column_count = 0;
}

-- The columns of a row into the fields: a row has a cell for each column.
unfoldable pub set_values : Row → List Field → List Field
unfolding set_value
set_values row [] = []
set_values [] (f ∷ fs) = set_value none f ∷ set_values [] fs
set_values (cell ∷ row) (f ∷ fs) = set_value cell f ∷ set_values row fs

unfoldable pub column_fields : List Column → List Field
unfolding to_edy_type new_field
column_fields [] = []
column_fields (c ∷ cs) =
    record new_field { type = to_edy_type c.type; name = c.name } ∷ column_fields cs

-- The vectors of the constructor after resize.
unfoldable pub blank_result : ResultSet → ℕ → QueryResult
blank_result rs rowcount = record {
  current_row = map (λ (c : Column). new_field) rs.columns;
  field_names = map (λ (c : Column). []) rs.columns;
  result = some rs.rows;
  rowcount = rowcount;
  column_count = length rs.columns;
  has_storage = ltb 0 (length rs.columns);
}

unfoldable pub first_row : List Column → List Row → QueryResult → QueryResult
unfolding end_query set_values column_fields
first_row columns [] r = end_query r
first_row columns (row ∷ rows) r = record r {
  current_row = set_values row (column_fields columns);
  field_names = map (λ (c : Column). c.name) columns;
  result = some rows;
}

-- The constructor. With no row to fetch it ends the query at once.
unfoldable pub new_query_result : ResultSet → ℕ → QueryResult
unfolding blank_result first_row
new_query_result rs rowcount = first_row rs.columns rs.rows (blank_result rs rowcount)

unfoldable pub fetch_row : Option (List Row) → QueryResult → Bool × QueryResult
unfolding end_query set_values
fetch_row none r = (false, r)
fetch_row (some []) r = (false, end_query r)
fetch_row (some (row ∷ rows)) r =
    (true, record r { current_row = set_values row r.current_row; result = some rows })

-- `NextRow`: false at the end, where the query is ended too.
unfoldable pub next_row : QueryResult → Bool × QueryResult
unfolding fetch_row
next_row r = fetch_row r.result r

unfoldable pub index_by_name : Bytes → List Bytes → Option ℕ
index_by_name name [] = none
index_by_name name (n ∷ names) =
    if same n name
    then some 0
    else elim (index_by_name name names) [ none ↦ none | some i ↦ some (suc i) ]

-- An element of the current row by its number; -1, the number of a missing name, is `none`.
unfoldable pub field_at : Option ℕ → List Field → Outcome Field
field_at none row = fault bad_access
field_at (some i) row = elim (get_elem? row i) [ none ↦ fault bad_access | some f ↦ ok f ]

-- `Value(name)`, and `operator[]` on a name.
unfoldable pub value_of : Bytes → QueryResult → Outcome Field
unfolding index_by_name field_at
value_of name r = field_at (index_by_name name r.field_names) r.current_row

-- `Value(name).GetString()`.
unfoldable pub text_of : Bytes → QueryResult → Outcome Bytes
unfolding value_of
text_of name r = do f ← value_of name r; ok f.value

-- `Fetch() == nullptr`, and `size()`.
unfoldable pub fetch_is_null : QueryResult → Bool
fetch_is_null r = not r.has_storage

unfoldable pub row_size : QueryResult → ℕ
row_size r = length r.current_row
