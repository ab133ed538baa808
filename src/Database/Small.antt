-- ===== src/Database/Small.antt =====
-- A small server for the tests: it answers each statement by the next of its answers.
use sever_code.Prelude.{ℕ, Bool, true, Option, none, List, [], ◌∷◌}
use sever_code.Sql.{ResultSet}
use sever_code.Database.{MySqlLib, MySqlTool, Link}

pub record Answer : Type 0 where
  pub number : ℕ
  pub result : Option ResultSet
  pub count : ℕ

pub record Script : Type 0 where
  pub up : Bool
  pub last : Answer
  pub next : List Answer

unfoldable pub take_answer : List Answer → Script → ℕ × Script
take_answer [] s = (2013, s)
take_answer (a ∷ rest) s = (a.number, record s { last = a; next = rest })

abbrev pub scripted : MySqlLib
scripted = record {
  Server = Script;
  connect = λ host user passwd db port s. (s.up, s);
  query = λ sql s. take_answer s.next s;
  stored = λ s. s.last.result;
  affected = λ s. s.last.count;
}

-- An answer with a number only.
abbrev pub plain_answer : ℕ → Answer
plain_answer e = record { number = e; result = none; count = 1 }

abbrev pub script : List Answer → Script
script next = record { up = true; last = plain_answer 0; next = next }

abbrev pub tool_at : Bool → MySqlTool
tool_at connected = record { connected = connected; host = []; user = []; passwd = []; dbname = [] }

abbrev pub linked : List Answer → Link Script
linked next = record { tool = tool_at true; server = script next }
