-- ===== src/Database/Scanned.antt =====
-- The loop of CheckTable over the columns that the server describes: what it takes out of the missing
-- ones, and when it does not end.
use sever_code.Prelude.{
  ℕ, zero, suc, ◌≡◌, refl, ap, ◌∙◌, arith, true, false, none, some, List, [], ◌∷◌, ◌++◌, map,
}
use sever_code.Prelude.{Bytes, length, get_elem?, All}
use sever_code.Prelude.{Outcome, ok, fault, no_end, bad_access, ◌>>=◌}
use sever_code.Sql.{
  Field, Column, Row, QueryResult, new_query_result, next_row, field_at, fetch_is_null,
}
use sever_code.Sql.Rows.{plain, cells, IsAt, first_row-IsAt, next_row-IsAt, next_row_last}
use sever_code.Upload.{contains}
use sever_code.Database.Maps.{find, insert, erase}
use sever_code.Database.Erased.{erase_all}
use sever_code.Database.Schema.{FieldInfo, Fields}
use sever_code.Database.Manager.{Scan, column_text, scan_columns}

-- The name and the type that a row of `desc` tells.
unfoldable pub told_name : Row → Bytes
told_name [] = []
told_name (c ∷ row) = plain c

unfoldable pub told_type : Row → Bytes
told_type [] = []
told_type (c ∷ row) = told_name row

-- The row tells of a described column, by a type that stands in the description.
abbrev pub Fits : Fields → Row → Type 0
Fits described row =
    (field : FieldInfo) × (find (told_name row) described ≡ some field)
    × (contains (told_type row) field.desc ≡ true)

unfoldable number_text : ℕ → List Bytes → Outcome Bytes
number_text i values = elim (get_elem? values i) [ none ↦ fault bad_access | some v ↦ ok v ]

field_at-number_text :
    (i : ℕ) (fs : List Field)
    → (field_at (some i) fs >>= λ (f : Field). ok f.value)
      ≡ number_text i (map (λ (f : Field). f.value) fs)
unfolding field_at number_text
field_at-number_text i [] = refl
field_at-number_text zero (f ∷ fs) = refl
field_at-number_text (suc i) (f ∷ fs) = field_at-number_text i fs

module _ (c0 c1 : Column) (cs : List Column) where
  abbrev columns : List Column
  columns = c0 ∷ c1 ∷ cs

  text_at-cells :
      (i : ℕ) (row : Row) (rest : List Row) (r : QueryResult)
      → IsAt columns row rest r
      → column_text i r ≡ number_text i (cells (length columns) row)
  unfolding column_text
  text_at-cells i row rest r at =
      field_at-number_text i r.current_row ∙ ap (number_text i) at.values

  name_at :
      (row : Row) (rest : List Row) (r : QueryResult)
      → IsAt columns row rest r
      → column_text 0 r ≡ ok (told_name row)
  unfolding number_text cells told_name
  name_at [] rest r at = text_at-cells 0 [] rest r at
  name_at (c ∷ row) rest r at = text_at-cells 0 (c ∷ row) rest r at

  type_at :
      (row : Row) (rest : List Row) (r : QueryResult)
      → IsAt columns row rest r
      → column_text 1 r ≡ ok (told_type row)
  unfolding number_text cells told_name told_type
  type_at [] rest r at = text_at-cells 1 [] rest r at
  type_at (c ∷ []) rest r at = text_at-cells 1 (c ∷ []) rest r at
  type_at (c ∷ d ∷ row) rest r at = text_at-cells 1 (c ∷ d ∷ row) rest r at

  -- The loop has a row to look at.
  row_at :
      (row : Row) (rest : List Row) (r : QueryResult)
      → IsAt columns row rest r
      → fetch_is_null r ≡ false
  unfolding fetch_is_null
  row_at row rest r at = ground (arith, at.stored)

  abbrev pub answer : List Row → ℕ → QueryResult
  answer rows n = new_query_result (record { columns = columns; rows = rows }) n

  module _ (described : Fields) where
    -- What the loop does with the column of the row, the texts being read.
    unfoldable at_column : ℕ → QueryResult → Scan → Bytes → Bytes → Outcome Scan
    unfolding find contains erase insert
    at_column fuel r s name type = elim (find name described) [
      | none ↦ scan_columns described fuel r s
      | some field ↦ elim (contains type field.desc) [
        | false ↦ ok (record { rest = erase name s.rest; change = insert name field s.change })
        | true ↦
            let (more, r') = next_row r in
            let s' : Scan = record s { rest = erase name s.rest } in
            elim more [ true ↦ scan_columns described fuel r' s' | false ↦ ok s' ]
      ]
    ]

    round :
        (fuel : ℕ) (row : Row) (rest : List Row) (r : QueryResult) (s : Scan)
        → IsAt columns row rest r
        → scan_columns described (suc fuel) r s ≡ at_column fuel r s (told_name row) (told_type row)
    unfolding scan_columns at_column
    round fuel row rest r s at =
        rw (row_at row rest r at, scan_columns)
          (rw (name_at row rest r at, type_at row rest r at) refl)

    -- At a row that fits, the loop takes its column out of those that are missing, and goes on.
    fitting :
        (fuel : ℕ) (row : Row) (rest : List Row) (r : QueryResult) (s : Scan)
        → IsAt columns row rest r
        → Fits described row
        → scan_columns described (suc fuel) r s ≡ elim ((next_row r).0) [
          | true ↦
              scan_columns described fuel
                (next_row r).1
                (record s { rest = erase (told_name row) s.rest })
          | false ↦ ok (record s { rest = erase (told_name row) s.rest })
        ]
    unfolding at_column
    fitting fuel row rest r s at (field, known, typed) =
        round fuel row rest r s at ∙ rw (known, at_column) (rw typed refl)

    pub scan-Fits :
        (row : Row) (rest : List Row) (r : QueryResult) (s : Scan)
        → IsAt columns row rest r
        → All (Fits described) (row ∷ rest)
        → scan_columns described (suc (length rest)) r s
          ≡ ok (record s { rest = erase_all (map told_name (row ∷ rest)) s.rest })
    unfolding erase_all
    scan-Fits row [] r s at (fits, _) =
        fitting 0 row [] r s at fits ∙ rw (next_row_last columns row r at) refl
    scan-Fits row (next ∷ rest) r s at (fits, all) =
        let (more, at') = next_row-IsAt columns row next rest r at in
        fitting (suc (length rest)) row (next ∷ rest) r s at fits
        ∙ rw more (
            scan-Fits next rest (next_row r).1 (record s { rest = erase (told_name row) s.rest })
              at' all)

    -- A column that is not described is looked at for ever.
    scan_unknown :
        (fuel : ℕ) (row : Row) (rest : List Row) (r : QueryResult) (s : Scan)
        → IsAt columns row rest r
        → find (told_name row) described ≡ none
        → scan_columns described fuel r s ≡ fault no_end
    unfolding at_column
    scan_unknown zero row rest r s at h = unfold scan_columns in refl
    scan_unknown (suc fuel) row rest r s at h =
        round fuel row rest r s at ∙ rw (h, at_column) (scan_unknown fuel row rest r s at h)

    scan-Fits_unknown :
        (fuel : ℕ) (row : Row) (before : List Row) (unknown : Row) (after : List Row)
        (r : QueryResult) (s : Scan)
        → IsAt columns row (before ++ (unknown ∷ after)) r
        → All (Fits described) (row ∷ before)
        → find (told_name unknown) described ≡ none
        → scan_columns described fuel r s ≡ fault no_end
    scan-Fits_unknown zero row before unknown after r s at fits h = unfold scan_columns in refl
    scan-Fits_unknown (suc fuel) row [] unknown after r s at (fit, _) h =
        let (more, at') = next_row-IsAt columns row unknown after r at in
        fitting fuel row (unknown ∷ after) r s at fit
        ∙ rw more (
            scan_unknown fuel unknown after (next_row r).1
              (record s { rest = erase (told_name row) s.rest }) at' h)
    scan-Fits_unknown (suc fuel) row (next ∷ before) unknown after r s at (fit, fits) h =
        let (more, at') = next_row-IsAt columns row next (before ++ (unknown ∷ after)) r at in
        fitting fuel row (next ∷ (before ++ (unknown ∷ after))) r s at fit
        ∙ rw more (
            scan-Fits_unknown fuel next before unknown after (next_row r).1
              (record s { rest = erase (told_name row) s.rest }) at' fits h)

    pub scan-answer_unknown :
        (fuel : ℕ) (before : List Row) (unknown : Row) (after : List Row) (n : ℕ) (s : Scan)
        → All (Fits described) before
        → find (told_name unknown) described ≡ none
        → scan_columns described fuel (answer (before ++ (unknown ∷ after)) n) s ≡ fault no_end
    scan-answer_unknown fuel [] unknown after n s fits h =
        scan_unknown fuel unknown after _ s (first_row-IsAt columns unknown after n) h
    scan-answer_unknown fuel (row ∷ before) unknown after n s fits h =
        scan-Fits_unknown fuel row before unknown after _ s
          (first_row-IsAt columns row (before ++ (unknown ∷ after)) n) fits h
