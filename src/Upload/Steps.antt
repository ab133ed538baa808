-- ===== src/Upload/Steps.antt =====
-- What holds between the messages of an upload, and what a whole upload leaves on disk.
use sever_code.Prelude.{
  ℕ, ◌+◌, ◌%◌, ◌^◌, ◌≡◌, refl, sym, ap, ◌∙◌, Bool, true, false, not, ◌&&◌, none, some,
}
use sever_code.Prelude.{List, [], ◌∷◌, ◌++◌, Bytes, text, length, ltb, if◌then◌else◌}
use sever_code.Prelude.{Outcome, ok, fault, ◌>>=◌, Bool-cases, inl, inr}
use mathlib.Core.Path.{subst}
use sever_code.Session.{JsonLib, string_at, int_at}
use sever_code.Upload.{FileLib, FileSession, Place, Event, dir_of, int_ge, close, forget}
use sever_code.Upload.{
  has_size, open_path, opened, open_file, write_file, write_open, on_upload_file,
}

-- `m_isState` says whether a file is open, and without one the offset is 0.
pub data IsTidy (s : FileSession) : Type 0 where
  idle : s.fp ≡ none → s.is_state ≡ false → s.offset ≡ 0 → IsTidy s
  receiving : (path : Bytes) → s.fp ≡ some path → s.is_state ≡ true → IsTidy s

-- Where a handler that returns leaves a tidy session.
pub record Tidies (o : Outcome (List Event × Place)) : Type 0 where
  pub tidy : (events : List Event) (p : Place) → o ≡ ok (events, p) → IsTidy p.session

Tidies-bind :
    {A : Type 0} (m : Outcome A) (f : A → Outcome (List Event × Place))
    → ((a : A) → Tidies (f a))
    → Tidies (m >>= f)
Tidies-bind (ok a) f h = h a
Tidies-bind (fault e) f h = record { tidy = λ events p e. cc }

Tidies-if :
    (b : Bool) (x y : Outcome (List Event × Place))
    → Tidies x
    → Tidies y
    → Tidies (if b then x else y)
Tidies-if true x y h k = h
Tidies-if false x y h k = k

Tidies-ok : (events : List Event) (p : Place) → IsTidy p.session → Tidies (ok (events, p))
Tidies-ok events p h = record {
  tidy = λ events' p' e.
      let same_place : p ≡ p' = cc in subst (λ (q : Place). IsTidy q.session) same_place h;
}

module _ (J : JsonLib) (F : FileLib J) where
  open_path-IsTidy :
      (path file_name : Bytes) (filesize : ℕ) (p : Place)
      → IsTidy (open_path J F path file_name filesize p).1.session
  unfolding open_path
  open_path-IsTidy path file_name filesize p = elim (Bool-cases (F.opens path)) [
    | inl e ↦ rw e (receiving path refl refl)
    | inr e ↦ rw e (idle refl refl refl)
  ]

  write_file-IsTidy :
      (path filedata : Bytes) (p : Place)
      → p.session.fp ≡ some path
      → p.session.is_state ≡ true
      → IsTidy (write_file J F path filedata p).1.session
  unfolding write_file close forget
  write_file-IsTidy path filedata p e s =
      elim (Bool-cases (ltb 0 (length filedata) && F.writes filedata)) [
        | inr failed ↦ rw failed (idle refl refl refl)
        | inl written ↦
            elim (Bool-cases
              (int_ge ((p.session.offset + length filedata) % 2 ^ 32) p.session.filesize)) [
                | inl all ↦ rw (written, all) (idle refl refl refl)
                | inr part ↦ rw (written, part) (receiving path e s)
              ]
      ]

  open_file-Tidies :
      (json : J.Value) (p : Place)
      → p.session.fp ≡ none
      → p.session.offset ≡ 0
      → Tidies (open_file J F json p)
  unfolding open_file opened
  open_file-Tidies json p e o = Tidies-bind (has_size J F json) _ λ sized.
      Tidies-if sized _ _
        (Tidies-bind (string_at J (text "fileName") json) _ λ name.
          Tidies-bind (int_at J (text "fileSize") json) _
            λ size. Tidies-ok _ _ (open_path-IsTidy (dir_of name ++ name) name size p))
        (Tidies-ok _ _ (idle e refl o))

  -- While a file is open every message goes to it.
  pub on_upload_file-write :
      (path m : Bytes) (p : Place)
      → p.session.fp ≡ some path
      → p.session.is_state ≡ true
      → on_upload_file J F m p ≡ ok (write_file J F path m p)
  unfolding on_upload_file write_open
  on_upload_file-write path m p e s =
      ap
        (λ b.
          if not b && (J.parse m).0
          then open_file J F (J.parse m).1 p
          else ok (write_open J F p.session.fp m p))
        s
      ∙ ap (λ f. ok (write_open J F f m p)) e

  -- Every message leaves a session in which a file is open exactly if `m_isState` is true, and the
  -- offset is 0 without an open file, if the session was such before.
  pub on_upload_file-Tidies :
      (filedata : Bytes) (p : Place) → IsTidy p.session → Tidies (on_upload_file J F filedata p)
  unfolding on_upload_file write_open close forget
  on_upload_file-Tidies filedata p (idle e s o) = elim (Bool-cases (J.parse filedata).0) [
    | inl parsed ↦ rw (s, parsed, on_upload_file) (open_file-Tidies (J.parse filedata).1 p e o)
    | inr raw ↦
        rw (s, raw, on_upload_file) (Tidies-ok _ _ (rw (e, write_open) (idle refl refl refl)))
  ]
  on_upload_file-Tidies filedata p (receiving path e s) =
      subst Tidies (sym (on_upload_file-write path filedata p e s))
        (Tidies-ok _ _ (write_file-IsTidy path filedata p e s))

  -- Messages in turn.
  unfoldable pub on_uploads : List Bytes → Place → Outcome (List Event × Place)
  on_uploads [] p = ok ([], p)
  on_uploads (m ∷ messages) p = do
    (first, p₁) ← on_upload_file J F m p
    (rest, p₂) ← on_uploads messages p₁
    ok (first ++ rest, p₂)

unfoldable pub joined : List Bytes → Bytes
joined [] = []
joined (m ∷ messages) = m ++ joined messages
