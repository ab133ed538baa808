-- ===== src/Users/Loaded.antt =====
-- What the loads leave in the caches, for tables with rows and for empty ones.
use sever_code.Prelude.{
  ℕ, ◌<◌, ◌≡◌, refl, ap, ◌∙◌, arith, Bool, true, Option, some, List, [], ◌∷◌, ◌++◌,
}
use sever_code.Prelude.{
  append-nil, append_assoc, length, ltb, Outcome, ok, fault, bad_access, ◌>>=◌, >>=-eq-ok,
}
use sever_code.Sql.{Column, Row, QueryResult, new_query_result, text_of}
use sever_code.Sql.Rows.{row_text, IsAt, IsAt-text_of}
use sever_code.Sql.Loop.{
  Guard, unguarded, sized, fetched, each_row, each_row_fuel, rows_left, stops,
}
use sever_code.Sql.Fold.{fold_rows, each_row-fold}
use sever_code.Users.Types.{SqlClient, World}
use sever_code.Users.Loading.{
  Table, push_row, load, init, load_user, users_table, read_user, and_then,
}
use mathlib.Core.Path.{fun_ext}

module _ {A : Type 0} (t : Table A) (columns : List Column) where
  -- The items that the rows stand for, read column by column.
  unfoldable pub decoded : List Row → Outcome (List A)
  decoded [] = ok []
  decoded (row ∷ rows) = do x ← t.read (row_text columns row); xs ← decoded rows; ok (x ∷ xs)

  push : Row → List A → Outcome (List A)
  push row cache = t.read (row_text columns row) >>= λ x. ok (cache ++ (x ∷ []))

  push_row-push :
      (row : Row) (rest : List Row) (r : QueryResult) (cache : List A)
      → IsAt columns row rest r
      → push_row t r cache ≡ push row cache
  unfolding push_row push
  push_row-push row rest r cache at =
      ap (λ v. t.read v >>= λ x. ok (cache ++ (x ∷ [])))
        (fun_ext (λ name. IsAt-text_of columns row rest r name at))

  fold_rows-push :
      (rows : List Row) (cache items : List A)
      → decoded rows ≡ ok items
      → fold_rows push rows cache ≡ ok (cache ++ items)
  unfolding fold_rows decoded push
  fold_rows-push [] cache items e = ground (arith, append-nil cache)
  fold_rows-push (row ∷ rows) cache items e =
      let (x, ex, e') = >>=-eq-ok (t.read (row_text columns row)) _ e in
      let (xs, exs, e'') = >>=-eq-ok (decoded rows) _ e' in
      rw ex (fold_rows-push rows (cache ++ (x ∷ [])) xs exs)
      ∙ ap ok (append_assoc cache (x ∷ []) xs)
      ∙ ap (λ o. o >>= λ l. ok (cache ++ l)) e''

  abbrev no_rows : ℕ → QueryResult
  no_rows n = new_query_result (record { columns = columns; rows = [] }) n

  over_nothing : List A → Guard → Outcome (List A)
  over_nothing cache unguarded = fault bad_access
  over_nothing cache sized = ok cache
  over_nothing cache fetched = fault bad_access

  -- The loop over a result without a row.
  each_row_empty :
      (guard : Guard) (n : ℕ) (cache : List A)
      → 0 < length columns
      → t.read (λ name. fault bad_access) ≡ fault bad_access
      → each_row guard (push_row t) (no_rows n) cache ≡ over_nothing cache guard
  unfolding over_nothing each_row each_row_fuel rows_left stops push_row new_query_result text_of
  each_row_empty unguarded n cache wide e = rw e refl
  each_row_empty sized n cache wide e = refl
  each_row_empty fetched n cache wide e = rw (wide_has_storage, e) refl
    where
      wide_has_storage : ltb 0 (length columns) ≡ true
      wide_has_storage = ground arith

module _ (D : SqlClient) {A : Type 0} (t : Table A) (w : World D.Server) (columns : List Column)
    (n : ℕ) (s : D.Server) (wide : 0 < length columns) where
  -- What the server answers with the given rows.
  abbrev pub answer : List Row → Option QueryResult × D.Server
  answer rows = (some (new_query_result (record { columns = columns; rows = rows }) n), s)

  -- Over a table with rows a load returns true, and what the rows stand for is behind what the
  -- cache held, in the order of the rows.
  pub load-decoded :
      (row : Row) (rest : List Row) (items : List A)
      → D.query t.sql w.server ≡ answer (row ∷ rest)
      → decoded t columns (row ∷ rest) ≡ ok items
      → load D t w
        ≡ ok (true, record { manager = t.fill (t.cache w.manager ++ items) w.manager; server = s })
  unfolding load
  load-decoded row rest items q e =
      rw (q, load)
        (rw
          (each_row-fold t.guard (push_row t) columns (push t columns) (push_row-push t columns)
              wide row rest n (t.cache w.manager)
            ∙ fold_rows-push t columns (row ∷ rest) (t.cache w.manager) items e)
          (ap
            (λ p. ok (
              true,
              record { manager = t.fill (t.cache w.manager ++ items) w.manager; server = p.1 },
            ))
            q))

  -- What a load does over an empty table: the loops that test the size end at once; the others
  -- read a column of a row that is not there.
  unfoldable pub over_no_rows : Guard → Outcome (Bool × World D.Server)
  over_no_rows unguarded = fault bad_access
  over_no_rows sized =
      ok (true, record { manager = t.fill (t.cache w.manager) w.manager; server = s })
  over_no_rows fetched = fault bad_access

  pub load_empty :
      t.read (λ name. fault bad_access) ≡ fault bad_access
      → D.query t.sql w.server ≡ answer []
      → load D t w ≡ over_no_rows t.guard
  unfolding load over_no_rows over_nothing
  load_empty first q =
      rw (q, load)
        (rw (each_row_empty t columns t.guard n (t.cache w.manager) wide first) (by_guard t.guard))
    where
      by_guard :
          (g : Guard)
          → (over_nothing t columns (t.cache w.manager) g >>= λ l.
              ok (
                true,
                record { manager = t.fill l w.manager; server = (D.query t.sql w.server).1 },
              ))
            ≡ over_no_rows g
      by_guard unguarded = refl
      by_guard sized =
          ap
            (λ p.
              ok (true, record { manager = t.fill (t.cache w.manager) w.manager; server = p.1 }))
            q
      by_guard fetched = refl

-- With an empty `tab_user` the first load reads a column of a row that is not there, so `Init`
-- does not return.
pub init_empty :
    (D : SqlClient) (w : World D.Server) (columns : List Column) (n : ℕ) (s : D.Server)
    → 0 < length columns
    → D.query users_table.sql w.server
      ≡ (some (new_query_result (record { columns = columns; rows = [] }) n), s)
    → init D w ≡ fault bad_access
unfolding init load_user over_no_rows and_then read_user
init_empty D w columns n s wide q = rw (load_empty D users_table w columns n s wide refl q) refl
