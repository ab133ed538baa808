-- ===== src/Server/Loads.antt =====
-- What Init leaves in the list of users: the loads after the first do not touch it.
use sever_code.Prelude.{
  ℕ, ◌<◌, ◌≡◌, refl, ◌∙◌, sym, Bool, true, false, Option, none, some, List, ◌∷◌, ◌++◌, Outcome, ok,
  length, ◌>>=◌,
}
use mathlib.Core.Path.{subst}
use sever_code.Sql.{Column, Row, QueryResult, new_query_result}
use sever_code.Sql.Loop.{each_row}
use sever_code.Users.Types.{SqlClient, User, UserManager, World}
use sever_code.Users.Loading.{
  Table, push_row, load, init, load_user, load_video_info, load_audio_info, load_word_info,
  load_browse_info, load_collect_info, users_table, videos_table, audios_table, words_table,
  browses_table, collects_table, and_then,
}
use sever_code.Users.Loaded.{decoded, load-decoded}
use sever_code.Server.Ensures.{Ensures, Ensures-ok, Ensures-bind, Ensures-then}

module _ (D : SqlClient) (users : List User) where
  -- These users are in memory when a load returns.
  unfoldable pub Has : Bool × World D.Server → Type 0
  Has x = x.1.manager.cached_users ≡ users

  load-Has :
      {A : Type 0} (t : Table A) (w : World D.Server)
      → ((l : List A) (m : UserManager) → (t.fill l m).cached_users ≡ m.cached_users)
      → w.manager.cached_users ≡ users
      → Ensures Has (load D t w)
  unfolding load Has
  load-Has t w apart h = go ((D.query t.sql w.server).0)
    where
      go :
          (o : Option QueryResult)
          → Ensures Has (elim o [
            | none ↦ ok (false, record w { server = (D.query t.sql w.server).1 })
            | some r ↦ do
              l ← each_row t.guard (push_row t) r (t.cache w.manager)
              ok (
                true,
                record { manager = t.fill l w.manager; server = (D.query t.sql w.server).1 },
              )
          ])
      go none = Ensures-ok Has _ h
      go (some r) = Ensures-bind Has _ _ (λ l. Ensures-ok Has _ (apart l w.manager ∙ h))

  and_then-Has :
      (m : Outcome (Bool × World D.Server))
      (next : World D.Server → Outcome (Bool × World D.Server))
      → Ensures Has m
      → ((w : World D.Server) → w.manager.cached_users ≡ users → Ensures Has (next w))
      → Ensures Has (and_then D m next)
  unfolding and_then Has
  and_then-Has m next first others = Ensures-then Has Has m _ first go
    where
      go :
          (x : Bool × World D.Server)
          → Has x
          → Ensures Has (elim (x.0) [ true ↦ next x.1 | false ↦ ok (false, x.1) ])
      go (true, w) h = others w h
      go (false, w) h = Ensures-ok Has (false, w) h

  loads-Has : (w : World D.Server) → Ensures Has (load_user D w) → Ensures Has (init D w)
  unfolding init load_video_info load_audio_info load_word_info load_browse_info load_collect_info
  loads-Has w first = and_then-Has _ _ first λ w₁ h₁.
      and_then-Has _ _ (load-Has videos_table w₁ (λ l m. refl) h₁) λ w₂ h₂.
        and_then-Has _ _ (load-Has audios_table w₂ (λ l m. refl) h₂) λ w₃ h₃.
          and_then-Has _ _ (load-Has words_table w₃ (λ l m. refl) h₃) λ w₄ h₄.
            and_then-Has _ _ (load-Has browses_table w₄ (λ l m. refl) h₄)
              λ w₅ h₅. load-Has collects_table w₅ (λ l m. refl) h₅

-- If Init returns, it has put the users of the rows behind those that were in memory.
pub init-Has :
    (D : SqlClient) (w : World D.Server) (columns : List Column) (row : Row) (rest : List Row)
    (n : ℕ) (s : D.Server) (users : List User)
    → 0 < length columns
    → D.query users_table.sql w.server
      ≡ (some (new_query_result (record { columns = columns; rows = row ∷ rest }) n), s)
    → decoded users_table columns (row ∷ rest) ≡ ok users
    → Ensures (Has D (w.manager.cached_users ++ users)) (init D w)
unfolding load_user Has
init-Has D w columns row rest n s users wide q e = loads-Has D _ w (
    subst (Ensures (Has D (w.manager.cached_users ++ users)))
      (sym (load-decoded D users_table w columns n s wide row rest users q e))
      (Ensures-ok (Has D (w.manager.cached_users ++ users)) _ refl))
