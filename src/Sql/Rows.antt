-- ===== src/Sql/Rows.antt =====
-- A query result as the list of rows that it stands for: reading a column by its name is looking
-- the name up in the row, and the program's loop is a fold over the rows.
use sever_code.Prelude.{ℕ, zero, suc, ◌≡◌, refl, sym, ap, ◌∙◌, arith, true, false}
use sever_code.Prelude.{Option, none, some, List, [], ◌∷◌, map, Bytes, same, length}
use sever_code.Prelude.{ltb, if◌then◌else◌, Outcome, ok, fault, bad_access, ◌>>=◌}
use sever_code.Sql.{Field, Column, Row, QueryResult, set_value, set_values, column_fields}
use sever_code.Sql.{new_query_result, next_row, index_by_name, field_at, value_of, text_of}

-- The text of a column: NULL is the empty text.
abbrev pub plain : Option Bytes → Bytes
plain none = []
plain (some s) = s

-- The texts of `n` columns of a row.
unfoldable pub cells : ℕ → Row → List Bytes
cells zero row = []
cells (suc n) [] = [] ∷ cells n []
cells (suc n) (c ∷ row) = plain c ∷ cells n row

-- The text under a name: the first column of that name counts.
unfoldable pub cell : List Bytes → List Bytes → Bytes → Outcome Bytes
cell [] values name = fault bad_access
cell (n ∷ names) [] name = fault bad_access
cell (n ∷ names) (v ∷ values) name = if same n name then ok v else cell names values name

-- The result stands at a row of `columns`, with the rows `rest` to come.
pub record IsAt (columns : List Column) (row : Row) (rest : List Row) (r : QueryResult)
    : Type 0 where
  pub names : r.field_names ≡ map (λ (c : Column). c.name) columns
  pub values : map (λ (f : Field). f.value) r.current_row ≡ cells (length columns) row
  pub left : r.result ≡ some rest
  pub stored : r.has_storage ≡ ltb 0 (length columns)

set_value-value : (c : Option Bytes) (f : Field) → (set_value c f).value ≡ plain c
unfolding set_value
set_value-value none f = refl
set_value-value (some []) f = refl
set_value-value (some (b ∷ s)) f = refl

set_values-values :
    (row : Row) (fs : List Field)
    → map (λ (f : Field). f.value) (set_values row fs) ≡ cells (length fs) row
unfolding set_values cells
set_values-values row [] = refl
set_values-values [] (f ∷ fs) = ground (arith, set_value-value none f, set_values-values [] fs)
set_values-values (c ∷ row) (f ∷ fs) = ground (arith, set_value-value c f, set_values-values row fs)

length-column_fields : (cs : List Column) → length (column_fields cs) ≡ length cs
unfolding column_fields
length-column_fields [] = refl
length-column_fields (c ∷ cs) = ap suc (length-column_fields cs)

-- The search by number and the search by name find the same text.
text_of-cell :
    (name : Bytes) (names : List Bytes) (row : List Field)
    → (field_at (index_by_name name names) row >>= λ (f : Field). ok f.value)
      ≡ cell names (map (λ (f : Field). f.value) row) name
unfolding index_by_name field_at cell
text_of-cell name [] row = refl
text_of-cell name (n ∷ names) [] = ground arith
text_of-cell name (n ∷ names) (f ∷ row) = ground (arith, text_of-cell name names row)

-- A column of a row by its name.
unfoldable pub row_text : List Column → Row → Bytes → Outcome Bytes
unfolding cell cells
row_text columns row name =
    cell (map (λ (c : Column). c.name) columns) (cells (length columns) row) name

pub IsAt-text_of :
    (columns : List Column) (row : Row) (rest : List Row) (r : QueryResult) (name : Bytes)
    → IsAt columns row rest r
    → text_of name r ≡ row_text columns row name
unfolding row_text
IsAt-text_of columns row rest r name at =
    unfold text_of value_of in
    text_of-cell name r.field_names r.current_row
    ∙ ap (λ ns. cell ns (map (λ (f : Field). f.value) r.current_row) name) at.names
    ∙ ap (λ vs. cell (map (λ (c : Column). c.name) columns) vs name) at.values

length-values : (row : List Field) → length (map (λ (f : Field). f.value) row) ≡ length row
length-values [] = refl
length-values (f ∷ row) = ap suc (length-values row)

length-cells : (n : ℕ) (row : Row) → length (cells n row) ≡ n
unfolding cells
length-cells zero row = refl
length-cells (suc n) [] = ap suc (length-cells n [])
length-cells (suc n) (c ∷ row) = ap suc (length-cells n row)

pub IsAt-width :
    (columns : List Column) (row : Row) (rest : List Row) (r : QueryResult)
    → IsAt columns row rest r
    → length r.current_row ≡ length columns
IsAt-width columns row rest r at =
    sym (length-values r.current_row) ∙ ap length at.values ∙ length-cells (length columns) row

pub first_row-IsAt :
    (columns : List Column) (row : Row) (rest : List Row) (n : ℕ)
    → IsAt columns row rest (new_query_result (record { columns = columns; rows = row ∷ rest }) n)
unfolding new_query_result
first_row-IsAt columns row rest n = record {
  names = refl;
  values =
      set_values-values row (column_fields columns)
      ∙ ap (λ k. cells k row) (length-column_fields columns);
  left = refl;
  stored = refl;
}

pub next_row-IsAt :
    (columns : List Column) (row next : Row) (rest : List Row) (r : QueryResult)
    → IsAt columns row (next ∷ rest) r
    → ((next_row r).0 ≡ true) × IsAt columns next rest (next_row r).1
next_row-IsAt columns row next rest r at =
    unfold next_row in
    rw at.left (
      refl,
      record {
        names = at.names;
        values =
            set_values-values next r.current_row
            ∙ ap (λ k. cells k next) (IsAt-width columns row (next ∷ rest) r at);
        left = refl;
        stored = at.stored;
      },
    )

pub next_row_last :
    (columns : List Column) (row : Row) (r : QueryResult)
    → IsAt columns row [] r
    → (next_row r).0 ≡ false
next_row_last columns row r at = unfold next_row in rw at.left refl
