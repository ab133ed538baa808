-- ===== src/Sql/Fold.antt =====
-- The program's loop over a query result is a fold over the rows that the library stored.
use sever_code.Prelude.{ℕ, suc, ◌<◌, ◌≡◌, refl, ◌∙◌, arith, true, false}
use sever_code.Prelude.{List, [], ◌∷◌, length}
use sever_code.Prelude.{Outcome, ok, ◌>>=◌, >>=-cong}
use sever_code.Sql.{Column, Row, QueryResult, new_query_result, next_row, row_size, fetch_is_null}
use sever_code.Sql.Loop.{
  Guard, unguarded, sized, fetched, stops, each_row, each_row_fuel, rows_left,
}
use sever_code.Sql.Rows.{IsAt, IsAt-width, first_row-IsAt, next_row-IsAt, next_row_last}

unfoldable pub fold_rows : {A : Type 0} → (Row → A → Outcome A) → List Row → A → Outcome A
fold_rows f [] a = ok a
fold_rows f (row ∷ rows) a = f row a >>= fold_rows f rows

-- At a row of a table with columns no loop stops.
stops-IsAt :
    (guard : Guard) (columns : List Column) (row : Row) (rest : List Row) (r : QueryResult)
    → 0 < length columns
    → IsAt columns row rest r
    → stops guard r ≡ false
unfolding stops row_size fetch_is_null
stops-IsAt unguarded columns row rest r wide at = refl
stops-IsAt sized columns row rest r wide at = ground (arith, IsAt-width columns row rest r at)
stops-IsAt fetched columns row rest r wide at = ground (arith, at.stored)

module _ {A : Type 0} (guard : Guard) (body : QueryResult → A → Outcome A) (columns : List Column)
    (f : Row → A → Outcome A)
    (agree : (row : Row) (rest : List Row) (r : QueryResult) (a : A)
      → IsAt columns row rest r
      → body r a ≡ f row a)
    (wide : 0 < length columns) where
  round :
      (row : Row) (rest : List Row) (r : QueryResult) (a : A) (fuel : ℕ)
      → IsAt columns row rest r
      → each_row_fuel guard body (suc fuel) r a ≡ (
          f row a >>= λ a'. elim ((next_row r).0) [
            | true ↦ each_row_fuel guard body fuel (next_row r).1 a'
            | false ↦ ok a'
          ])
  unfolding each_row_fuel
  round row rest r a fuel at =
      rw (stops-IsAt guard columns row rest r wide at, each_row_fuel) (rw (agree row rest r a at))

  each_row_fuel-fold :
      (row : Row) (rest : List Row) (r : QueryResult) (a : A)
      → IsAt columns row rest r
      → each_row_fuel guard body (suc (length rest)) r a ≡ fold_rows f (row ∷ rest) a
  unfolding fold_rows
  each_row_fuel-fold row [] r a at =
      round row [] r a 0 at ∙ >>=-cong (f row a) (λ a'. rw (next_row_last columns row r at))
  each_row_fuel-fold row (next ∷ rest) r a at =
      let (more, at') = next_row-IsAt columns row next rest r at in
      round row (next ∷ rest) r a (suc (length rest)) at
      ∙ >>=-cong (f row a) (λ a'. rw more (each_row_fuel-fold next rest (next_row r).1 a' at'))

  -- Over a result with at least one row and one column, and with a body that at each row does what
  -- `f` does with the row, the loop ends within its fuel and is the fold of `f` over all the rows.
  pub each_row-fold :
      (row : Row) (rest : List Row) (n : ℕ) (a : A)
      → each_row guard body (new_query_result (record { columns = columns; rows = row ∷ rest }) n) a
        ≡ fold_rows f (row ∷ rest) a
  unfolding each_row rows_left new_query_result
  each_row-fold row rest n a = each_row_fuel-fold row rest _ a (first_row-IsAt columns row rest n)
