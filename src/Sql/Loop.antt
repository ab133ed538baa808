-- ===== src/Sql/Loop.antt =====
-- The loop that the program writes over each query result: look at the row, take the next one.
use sever_code.Prelude.{ℕ, zero, suc, Bool, true, false, none, some, length, ◌==◌}
use sever_code.Prelude.{Outcome, ok, fault, no_end, ◌>>=◌}
use sever_code.Sql.{QueryResult, next_row, row_size, fetch_is_null}

unfoldable pub rows_left : QueryResult → ℕ
rows_left r = elim r.result [ none ↦ 0 | some rows ↦ length rows ]

-- The test before a round, besides that of `while (result != nullptr)`, which a result passes: none,
-- that of the size, or that of the pointer which `Fetch` returns.
pub data Guard : Type 0 where
  unguarded sized fetched : Guard

unfoldable pub stops : Guard → QueryResult → Bool
unfolding row_size fetch_is_null
stops unguarded r = false
stops sized r = row_size r == 0
stops fetched r = fetch_is_null r

module _ {A : Type 0} (guard : Guard) (body : QueryResult → A → Outcome A) where
  -- while (result != nullptr) { if (guard) break; body; if (!result->NextRow()) break; }
  unfoldable pub each_row_fuel : ℕ → QueryResult → A → Outcome A
  each_row_fuel zero r a = fault no_end
  each_row_fuel (suc fuel) r a = elim (stops guard r) [
    | true ↦ ok a
    | false ↦ do
      a' ← body r a
      let (more, r') = next_row r
      elim more [ true ↦ each_row_fuel fuel r' a' | false ↦ ok a' ]
  ]

  -- Each round but the last takes a row. `EndQuery` follows, on an object that is then dropped.
  unfoldable pub each_row : QueryResult → A → Outcome A
  unfolding each_row_fuel rows_left stops
  each_row r a = each_row_fuel (suc (rows_left r)) r a
