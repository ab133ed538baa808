-- ===== src/Database/Columns.antt =====
-- CheckTable over the columns that the server describes: which statements follow, and when it does
-- not return.
use sever_code.Prelude.{ℕ, suc, ◌≡◌, refl, Bool, true, false, none, some, List, ◌∷◌, ◌++◌, map}
use sever_code.Prelude.{text, length, if◌then◌else◌, All}
use sever_code.Prelude.{Outcome, ok, fault, no_end, ◌>>=◌}
use sever_code.Sql.{Column, Row}
use sever_code.Sql.Rows.{first_row-IsAt}
use sever_code.Database.{MySqlLib, Link, query, execute}
use mathlib.Core.Path.{fun_ext}
use sever_code.Prelude.{Bytes, ap, ◌∙◌, []}
use sever_code.Database.Maps.{find, Distinct, unlisted}
use sever_code.Database.Erased.{erase_all-unlisted}
use sever_code.Database.Schema.{TableInfo, FieldInfo, Fields}
use sever_code.Database.Manager.{check_table_fuel, alter_columns, alter_table, add_column}
use sever_code.Database.Scanned.{told_name, Fits, answer, scan-Fits, scan-answer_unknown}

-- With no column to change, the outcome is that of the columns added.
kept :
    {S : Type 0} (o : Outcome (Bool × Link S))
    → (o >>= λ (x : Bool × Link S). if x.0 then ok (true, x.1) else ok x) ≡ o
kept (ok (true, l)) = refl
kept (ok (false, l)) = refl
kept (fault e) = refl

-- The text that asks for one column more.
unfoldable pub adding : TableInfo → Bytes × FieldInfo → Bytes
adding info (k, f) =
    text " alter table "
    ++ (info.name ++ (text " add colum " ++ (f.name ++ (text " " ++ (f.type ++ text ";")))))

-- One statement after the other, up to the first that the server refuses; true if it refuses none.
unfoldable pub run_statements :
    (L : MySqlLib) → List Bytes → Link L.Server → Outcome (Bool × Link L.Server)
run_statements L [] l = ok (true, l)
run_statements L (sql ∷ rest) l = do
  done ← execute L sql l
  elim (done.0) [ true ↦ run_statements L rest done.1 | false ↦ ok (false, done.1) ]

alter_columns-run_statements :
    (L : MySqlLib) (info : TableInfo) (fields : Fields) (l : Link L.Server)
    → alter_columns L (add_column info) fields l ≡ run_statements L (map (adding info) fields) l
unfolding alter_columns run_statements adding add_column
alter_columns-run_statements L info [] l = refl
alter_columns-run_statements L info ((k, f) ∷ fields) l =
    ap
      (λ next. execute L (add_column info f) l >>= λ (done : Bool × Link L.Server). elim (done.0) [
        | true ↦ next done.1
        | false ↦ ok (false, done.1)
      ])
      (fun_ext (λ l'. alter_columns-run_statements L info fields l'))

module _ (L : MySqlLib) (info : TableInfo) (l l' : Link L.Server) (c0 c1 : Column)
    (cs : List Column) (n : ℕ) where
  -- What the server answers to `desc`.
  abbrev pub Described : List Row → Type 0
  Described rows =
      query L (text " desc " ++ (info.name ++ text ";")) l ≡ ok (some (answer c0 c1 cs rows n), l')

  check_table-alter_columns :
      (row : Row) (rest : List Row)
      → Described (row ∷ rest)
      → All (Fits info.fields) (row ∷ rest)
      → Distinct info.fields
      → check_table_fuel L (suc (length rest)) info l
        ≡ alter_columns L (add_column info) (unlisted (map told_name (row ∷ rest)) info.fields) l'
  unfolding check_table_fuel
  check_table-alter_columns row rest q fits d = rw q (
      rw
        (scan-Fits c0 c1 cs info.fields row rest _ _ (first_row-IsAt (c0 ∷ c1 ∷ cs) row rest n)
          fits)
        (rw (erase_all-unlisted (map told_name (row ∷ rest)) info.fields d) (
          unfold alter_table alter_columns in
          kept (
            alter_columns L (add_column info) (unlisted (map told_name (row ∷ rest)) info.fields)
              l'))))

  -- Where each column of the table is described and its type stands in the description, CheckTable
  -- ends, and its outcome is that of sending `alter table T add colum C TYPE;` for exactly the
  -- described columns that the table lacks, in the order of their names, up to the first statement
  -- that the server refuses.
  pub check_table-Fits :
      (row : Row) (rest : List Row)
      → Described (row ∷ rest)
      → All (Fits info.fields) (row ∷ rest)
      → Distinct info.fields
      → check_table_fuel L (suc (length rest)) info l
        ≡ run_statements L
            (map (adding info) (unlisted (map told_name (row ∷ rest)) info.fields))
            l'
  check_table-Fits row rest q fits d =
      check_table-alter_columns row rest q fits d
      ∙ alter_columns-run_statements L info (unlisted (map told_name (row ∷ rest)) info.fields) l'

  -- A column that is not described, behind columns that fit, keeps CheckTable in its loop.
  pub check_table-unknown :
      (fuel : ℕ) (before : List Row) (unknown : Row) (after : List Row)
      → Described (before ++ (unknown ∷ after))
      → All (Fits info.fields) before
      → find (told_name unknown) info.fields ≡ none
      → check_table_fuel L fuel info l ≡ fault no_end
  unfolding check_table_fuel
  check_table-unknown fuel before unknown after q fits h =
      rw q (rw (scan-answer_unknown c0 c1 cs info.fields fuel before unknown after n _ fits h) refl)
