-- ===== src/Sql/Tests.antt =====
-- Runs of the loop over a query result.
use sever_code.Prelude.{
  ◌≡◌, refl, arith, List, [], ◌∷◌, ◌++◌, none, some, Bytes, text, Outcome, ok, ◌>>=◌,
}
use sever_code.Sql.{Column, Row, QueryResult, string, new_query_result, text_of}
use sever_code.Sql.Rows.{row_text, IsAt, IsAt-text_of}
use sever_code.Sql.Loop.{sized, each_row}
use sever_code.Sql.Fold.{fold_rows, each_row-fold}

abbrev columns : List Column
columns = record { name = text "name"; type = string } ∷ []

abbrev first : Row
first = some (text "a") ∷ []

abbrev second : Row
second = none ∷ []

-- The names in the order of the rows.
abbrev collect : QueryResult → List Bytes → Outcome (List Bytes)
collect r names = do s ← text_of (text "name") r; ok (names ++ (s ∷ []))

abbrev collect_row : Row → List Bytes → Outcome (List Bytes)
collect_row row names = do s ← row_text columns row (text "name"); ok (names ++ (s ∷ []))

collect-row :
    (row : Row) (rest : List Row) (r : QueryResult) (names : List Bytes)
    → IsAt columns row rest r
    → collect r names ≡ collect_row row names
collect-row row rest r names at = rw (IsAt-text_of columns row rest r (text "name") at) refl

each_row-fold_example :
    each_row sized collect
      (new_query_result (record { columns = columns; rows = first ∷ second ∷ [] }) 2)
      []
    ≡ fold_rows collect_row (first ∷ second ∷ []) []
each_row-fold_example =
    each_row-fold sized collect columns collect_row collect-row (omega arith) first (second ∷ []) 2
      []
