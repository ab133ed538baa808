-- ===== src/Database/Retry.antt =====
-- Which statements one call of MySQLTool sends.
use sever_code.Prelude.{
  ℕ, ◌≡◌, inl, inr, refl, sym, ap, ◌∙◌, arith, Bool, true, false, [], ◌∷◌, ◌++◌,
}
use sever_code.Prelude.{Bytes, append_assoc, ◌==◌, if◌then◌else◌, Bool-cases}
use sever_code.Prelude.{Outcome, ok, fault, bad_access, ◌>>=◌}
use sever_code.Database.{MySqlLib, Sent, failed, at_once, again, server_gone, c_str}
use sever_code.Database.{reconnect, connect, real_query, attempt, send, execute}
use sever_code.Database.{execute_counted}
use sever_code.Database.Logged.{Log, logged, greeting, Shows, is_done, LoggedLink, noted}

module _ (L : MySqlLib) where
  -- `mysql_real_connect` with what the tool has kept.
  abbrev pub reconnected : LoggedLink L → Bool × L.Server
  reconnected l = L.connect l.tool.host l.tool.user l.tool.passwd l.tool.dbname 3306 l.server.0

  abbrev dropped : LoggedLink L → LoggedLink L
  dropped l = record {
    tool = record (l.tool) { connected = false };
    server = ((reconnected l).1, l.server.1);
  }

  abbrev pub greeted : LoggedLink L → ℕ × L.Server
  greeted l = L.query greeting (reconnected l).1

  abbrev pub second : Bytes → LoggedLink L → ℕ × L.Server
  second sql l = L.query sql (greeted l).1

  -- The statements that the server sees of a call whose first attempt ends in `e` and leaves `l`: if
  -- the server has gone and the library connects again, the greeting and the statement once more.
  unfoldable pub expected : Bytes → ℕ → LoggedLink L → Log
  expected sql e l =
      (sql, e)
      ∷ (if e == server_gone
          then (if (reconnected l).0
              then (greeting, (greeted l).0) ∷ (sql, (second sql l).0) ∷ []
              else [])
          else [])

  expected-done :
      (sql : Bytes) (e : ℕ) (l : LoggedLink L) → e ≡ 0 → (sql, 0) ∷ [] ≡ expected sql e l
  unfolding expected
  expected-done sql e l h = ap (λ n. expected sql n l) (sym h)

  expected_other :
      (sql : Bytes) (e : ℕ) (l : LoggedLink L)
      → (e == server_gone) ≡ false
      → (sql, e) ∷ [] ≡ expected sql e l
  unfolding expected
  expected_other sql e l h = rw (h) refl

  expected_lost :
      (sql : Bytes) (e : ℕ) (l : LoggedLink L)
      → e ≡ server_gone
      → (reconnected l).0 ≡ false
      → (sql, server_gone) ∷ [] ≡ expected sql e l
  unfolding expected
  expected_lost sql e l h lost =
      let at : (sql, server_gone) ∷ [] ≡ expected sql server_gone l = rw (lost) refl in
      at ∙ ap (λ n. expected sql n l) (sym h)

  expected_again :
      (sql : Bytes) (e k : ℕ) (l : LoggedLink L)
      → e ≡ server_gone
      → (reconnected l).0 ≡ true
      → (second sql l).0 ≡ k
      → (sql, server_gone) ∷ (greeting, (greeted l).0) ∷ (sql, k) ∷ [] ≡ expected sql e l
  unfolding expected
  expected_again sql e k l h fine last =
      let at : (sql, server_gone) ∷ (greeting, (greeted l).0) ∷ (sql, k) ∷ []
          ≡ expected sql server_gone l =
        rw (fine)
          (ap (λ n. (sql, server_gone) ∷ (greeting, (greeted l).0) ∷ (sql, n) ∷ []) (sym last)) in
      at ∙ ap (λ n. expected sql n l) (sym h)

  -- A call returns, and the log grows by what `Shows` says.
  abbrev pub Attempted : Bytes → LoggedLink L → Outcome (Sent × LoggedLink L) → Type 0
  Attempted sql l o =
      (sent : Sent) × (l' : LoggedLink L) × (log : Log) × (o ≡ ok (sent, l'))
      × (l'.server.1 ≡ l.server.1 ++ log)
      × Shows sql sent log
      × (log ≡ expected sql (L.query sql l.server.0).0 (noted L sql l))

  real_query_connected :
      (sql : Bytes) (l : LoggedLink L)
      → l.tool.connected ≡ true
      → real_query (logged L) sql l
        ≡ ok (
          (L.query sql l.server.0).0,
          record l {
            server = (
              (L.query sql l.server.0).1,
              l.server.1 ++ ((sql, (L.query sql l.server.0).0) ∷ []),
            );
          },
        )
  unfolding real_query
  real_query_connected sql l c =
      ap
        (λ b.
          if b
          then ok (
            (L.query sql l.server.0).0,
            record l {
              server = (
                (L.query sql l.server.0).1,
                l.server.1 ++ ((sql, (L.query sql l.server.0).0) ∷ []),
              );
            },
          )
          else fault bad_access)
        c

  -- What a first attempt that ended in `e`, and left `l`, is followed by.
  unfoldable follow : Bytes → ℕ → LoggedLink L → Outcome (Sent × LoggedLink L)
  unfolding real_query reconnect
  follow sql e l =
      if e == 0
      then ok (at_once, l)
      else if e == server_gone
      then (let (fine, l') = reconnect (logged L) l in
          if fine
          then (do
            second ← real_query (logged L) sql l'
            ok (if second.0 == 0 then again else failed, second.1))
          else ok (failed, l'))
      else ok (failed, l)

  abbrev after : Bytes → LoggedLink L → LoggedLink L
  after sql l = record {
    tool = record (l.tool) { connected = true };
    server = (
      (second sql l).1,
      (l.server.1 ++ ((greeting, (greeted l).0) ∷ [])) ++ ((sql, (second sql l).0) ∷ []),
    );
  }

  follow-Attempted :
      (sql : Bytes) (e : ℕ) (before : Log) (l : LoggedLink L)
      → l.server.1 ≡ before ++ ((sql, e) ∷ [])
      → (sent : Sent) × (l' : LoggedLink L) × (log : Log) × (follow sql e l ≡ ok (sent, l'))
        × (l'.server.1 ≡ before ++ log)
        × Shows sql sent log
        × (log ≡ expected sql e l)
  unfolding follow reconnect connect
  follow-Attempted sql e before l h = elim (Bool-cases (e == 0)) [
    | inl done ↦ rw done (
      at_once,
      l,
      (sql, 0) ∷ [],
      refl,
      h ∙ at_number (ground arith),
      refl,
      expected-done sql e l (ground arith),
    )
    | inr refused ↦ elim (Bool-cases (e == server_gone)) [
      | inr other ↦
          rw (refused, other)
            (
              failed,
              l,
              (sql, e) ∷ [],
              refl,
              h,
              inr (inl (e, ground arith, ground arith, refl)),
              expected_other sql e l other,
            )
      | inl gone ↦
          rw (refused, gone)
            (elim (Bool-cases (reconnected l).0) [
              | inr lost ↦ rw lost (
                failed,
                dropped l,
                (sql, server_gone) ∷ [],
                refl,
                h ∙ at_number (ground arith),
                inl refl,
                expected_lost sql e l (ground arith) lost,
              )
              | inl fine ↦ elim (Bool-cases ((second sql l).0 == 0)) [
                | inl done ↦
                    rw (fine, done)
                      (
                        again,
                        after sql l,
                        (sql, server_gone) ∷ (greeting, (greeted l).0) ∷ (sql, 0) ∷ [],
                        refl,
                        thrice (ground arith) (ground arith),
                        ((greeted l).0, refl),
                        expected_again sql e 0 l (ground arith) fine (ground arith),
                      )
                | inr bad ↦
                    rw (fine, bad)
                      (
                        failed,
                        after sql l,
                        (sql, server_gone)
                            ∷ (greeting, (greeted l).0)
                            ∷ (sql, (second sql l).0)
                            ∷ [],
                        refl,
                        thrice (ground arith) refl,
                        inr (inr ((greeted l).0, (second sql l).0, ground arith, refl)),
                        expected_again sql e _ l (ground arith) fine refl,
                      )
              ]
            ])
    ]
  ]
    where
      at_number : {k : ℕ} → e ≡ k → before ++ ((sql, e) ∷ []) ≡ before ++ ((sql, k) ∷ [])
      at_number = ap (λ n. before ++ ((sql, n) ∷ []))

      thrice :
          {k : ℕ}
          → e ≡ server_gone
          → (second sql l).0 ≡ k
          → (after sql l).server.1
            ≡ before ++ ((sql, server_gone) ∷ (greeting, (greeted l).0) ∷ (sql, k) ∷ [])
      thrice gone last =
          ap
            (λ entries.
              (entries ++ ((greeting, (greeted l).0) ∷ [])) ++ ((sql, (second sql l).0) ∷ []))
            (h ∙ at_number gone)
          ∙ simp (append_assoc, last)

  pub attempt-Attempted :
      (sql : Bytes) (l : LoggedLink L)
      → l.tool.connected ≡ true
      → Attempted sql l (attempt (logged L) sql l)
  unfolding attempt follow
  attempt-Attempted sql l c =
      rw (real_query_connected sql l c)
        (follow-Attempted sql (L.query sql l.server.0).0 l.server.1 _ refl)

  pub send-attempt :
      (sql : Bytes) (l : LoggedLink L)
      → l.tool.connected ≡ true
      → send (logged L) sql l ≡ attempt (logged L) sql l
  unfolding send
  send-attempt sql l c =
      ap
        (λ b.
          if b
          then attempt (logged L) sql l
          else (let (fine, l') = reconnect (logged L) l in
              if fine then ok (failed, l') else attempt (logged L) sql l'))
        c

  execute-send :
      (sql : Bytes) (l : LoggedLink L) (sent : Sent) (l' : LoggedLink L)
      → send (logged L) (c_str sql) l ≡ ok (sent, l')
      → execute (logged L) sql l ≡ ok (is_done sent, l')
  unfolding execute execute_counted
  execute-send sql l failed l' e = rw e refl
  execute-send sql l at_once l' e = rw e refl
  execute-send sql l again l' e = rw e refl

  -- On a connection a statement is sent at most twice: what reaches the server is the statement
  -- and, exactly if the server has gone and connect succeeds, the greeting of connect and the
  -- statement once more. Execute returns true exactly if the last attempt is accepted.
  pub execute-Shows :
      (sql : Bytes) (l : LoggedLink L)
      → l.tool.connected ≡ true
      → (sent : Sent) × (l' : LoggedLink L) × (log : Log) × (execute (logged L) sql l
          ≡ ok (is_done sent, l'))
        × (l'.server.1 ≡ l.server.1 ++ log)
        × Shows (c_str sql) sent log
        × (log ≡ expected (c_str sql) (L.query (c_str sql) l.server.0).0 (noted L (c_str sql) l))
  execute-Shows sql l c =
      let (sent, l', log, e, grown, shows, all) = attempt-Attempted (c_str sql) l c in
      (
        sent,
        l',
        log,
        execute-send sql l sent l' (send-attempt (c_str sql) l c ∙ e),
        grown,
        shows,
        all,
      )
