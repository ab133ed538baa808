-- ===== src/Database/Logged.antt =====
-- The library with a log of the statements that reach the server, and what the log shows of a call.
use sever_code.Prelude.{ℕ, ◌≡◌, ◌≢◌, ◌⊎◌, Bool, true, false, List, [], ◌∷◌, ◌++◌}
use sever_code.Prelude.{Bytes, text}
use sever_code.Database.{MySqlLib, Link, Sent, failed, at_once, again, server_gone}

-- A statement with the error number that it ended in.
abbrev pub Log : Type 0
Log = List (Bytes × ℕ)

-- The library with a log of the statements that reach the server.
abbrev pub logged : MySqlLib → MySqlLib
logged L = record {
  Server = L.Server × Log;
  connect = λ host user passwd db port s.
      let (fine, s') = L.connect host user passwd db port s.0 in (fine, (s', s.1));
  query = λ sql s. let (e, s') = L.query sql s.0 in (e, (s', s.1 ++ ((sql, e) ∷ [])));
  stored = λ s. L.stored s.0;
  affected = λ s. L.affected s.0;
}

abbrev pub greeting : Bytes
greeting = text "set name utf8;"

-- What the log shows of a statement that ends as `Sent` says.
abbrev pub Shows : Bytes → Sent → Log → Type 0
Shows sql at_once log = log ≡ (sql, 0) ∷ []
Shows sql again log = (e : ℕ) × (log ≡ (sql, server_gone) ∷ (greeting, e) ∷ (sql, 0) ∷ [])
Shows sql failed log =
    (log ≡ (sql, server_gone) ∷ [])
    ⊎ (((e : ℕ) × (e ≢ 0) × (e ≢ server_gone) × (log ≡ (sql, e) ∷ []))
        ⊎ ((e : ℕ) × (e' : ℕ) × (e' ≢ 0)
            × (log ≡ (sql, server_gone) ∷ (greeting, e) ∷ (sql, e') ∷ [])))

abbrev pub is_done : Sent → Bool
is_done failed = false
is_done at_once = true
is_done again = true

module _ (L : MySqlLib) where
  abbrev pub LoggedLink : Type 0
  LoggedLink = Link (L.Server × Log)

  -- A link behind one statement.
  abbrev pub noted : Bytes → LoggedLink → LoggedLink
  noted sql l = record l {
    server = ((L.query sql l.server.0).1, l.server.1 ++ ((sql, (L.query sql l.server.0).0) ∷ []));
  }
