-- ===== src/Upload/Whole.antt =====
-- A whole upload: the first message, then the bytes of the file in any pieces.
use sever_code.Prelude.{
  ℕ, ◌+◌, ◌%◌, ◌^◌, ◌<◌, ◌≡◌, refl, sym, ap, ◌∙◌, arith, true, false, not, ◌&&◌, some,
}
use sever_code.Prelude.{
  List, [], ◌∷◌, ◌++◌, append-nil, append_assoc, Bytes, text, same_refl, length, length-append, ltb,
  leb, All, if◌then◌else◌,
}
use sever_code.Prelude.{ok, ◌>>=◌}
use sever_code.Session.{JsonLib, string_at, int_at}
use sever_code.Upload.{FileLib, Place, dir_of, int_ge, put, close, forget}
use sever_code.Upload.{
  has_size, open_path, opened, open_file, finished, write_file, write_open, on_upload_file,
}
use sever_code.Upload.Steps.{on_uploads, joined, on_upload_file-write}

put-same : (path content : Bytes) (disk : Bytes → Bytes) → put path content disk path ≡ content
unfolding put
put-same path content disk = rw (same_refl path) refl

int_ge_small : (a b : ℕ) → a < 2147483648 → b < 2147483648 → int_ge a b ≡ leb b a
unfolding int_ge
int_ge_small a b ha hb = ground arith

module _ (J : JsonLib) (F : FileLib J) where
  -- A piece of the file that fwrite takes.
  abbrev pub IsPiece : Bytes → Type 0
  IsPiece m = (0 < length m) × (F.writes m ≡ true)

  -- The last piece and a piece before it.
  write_file_last :
      (path m : Bytes) (p : Place)
      → IsPiece m
      → p.session.offset + length m ≡ p.session.filesize
      → p.session.filesize < 2147483648
      → write_file J F path m p ≡ (
        finished J F p.session,
        record { session = forget (close p.session); disk = put path (p.disk path ++ m) p.disk },
      )
  unfolding write_file
  write_file_last path m p (pos, written) sum small = rw (positive, written, full) refl
    where
      positive : ltb 0 (length m) ≡ true
      positive = ground arith

      full : int_ge ((p.session.offset + length m) % 2 ^ 32) p.session.filesize ≡ true
      full = unfold int_ge in ground arith

  write_file_part :
      (path m : Bytes) (p : Place)
      → IsPiece m
      → p.session.offset + length m < p.session.filesize
      → p.session.filesize < 2147483648
      → write_file J F path m p ≡ (
        [],
        record {
          session = record (p.session) { offset = p.session.offset + length m };
          disk = put path (p.disk path ++ m) p.disk;
        },
      )
  unfolding write_file
  write_file_part path m p (pos, written) sum small = rw (positive, written, short) (rw whole refl)
    where
      positive : ltb 0 (length m) ≡ true
      positive = ground arith

      whole : (p.session.offset + length m) % 2 ^ 32 ≡ p.session.offset + length m
      whole = omega arith

      short : int_ge ((p.session.offset + length m) % 2 ^ 32) p.session.filesize ≡ false
      short = unfold int_ge in ground arith

  -- The place behind a piece that is not the last.
  after : Bytes → Bytes → Place → Place
  after path m p = record {
    session = record (p.session) { offset = p.session.offset + length m };
    disk = put path (p.disk path ++ m) p.disk;
  }

  -- The rest of an upload: the session is closed, and the pieces stand behind what the file held.
  rest-joined :
      (path m : Bytes) (messages : List Bytes) (p : Place)
      → p.session.fp ≡ some path
      → p.session.is_state ≡ true
      → All IsPiece (m ∷ messages)
      → p.session.offset + length (joined (m ∷ messages)) ≡ p.session.filesize
      → p.session.filesize < 2147483648
      → (w : Place) × (on_uploads J F (m ∷ messages) p ≡ ok (finished J F p.session, w))
        × (w.session ≡ forget (close p.session))
        × (w.disk path ≡ p.disk path ++ joined (m ∷ messages))
  unfolding on_uploads joined after finished close forget
  rest-joined path m [] p e s (piece, none_left) sum small =
      let done = write_file_last path m p piece (omega (arith, sum, length-append m [])) small in
      (
        record { session = forget (close p.session); disk = put path (p.disk path ++ m) p.disk },
        rw (on_upload_file-write J F path m p e s, done, append-nil (finished J F p.session)) refl,
        refl,
        put-same path (p.disk path ++ m) p.disk ∙ ap (λ t. p.disk path ++ t) (sym (append-nil m)),
      )
  rest-joined path m (m' ∷ messages) p e s (piece, pieces) sum small =
      let step =
        write_file_part path m p piece
          (omega (
            arith,
            sum,
            length-append m (m' ++ joined messages),
            length-append m' (joined messages),
            pieces.0.0,
          ))
          small in
      let (w, ran, closed, there) =
        rest-joined path m' messages (after path m p) e s pieces
          (omega (arith, length-append m (m' ++ joined messages))) small in
      (
        w,
        rw (on_upload_file-write J F path m p e s, step)
            (ap (λ o. o >>= λ r. ok ([] ++ r.0, r.1)) ran),
        closed,
        there
            ∙ ap (λ t. t ++ (m' ++ joined messages)) (put-same path (p.disk path ++ m) p.disk)
            ∙ append_assoc (p.disk path) m (m' ++ joined messages),
      )

module _ (J : JsonLib) (F : FileLib J) (header : Bytes) (json : J.Value) (name : Bytes)
    (size : ℕ) where
  -- The path under which a file of that name is stored.
  abbrev pub path_of : Bytes
  path_of = dir_of name ++ name

  -- The place behind the first message.
  abbrev pub opens_at : Place → Place
  opens_at p = record {
    session = record (p.session) {
      fp = some path_of;
      is_state = true;
      filesize = size;
      file_path = path_of;
      file_name = name;
    };
    disk = put path_of [] p.disk;
  }

  header-opens :
      (p : Place)
      → p.session.is_state ≡ false
      → J.parse header ≡ (true, json)
      → has_size J F json ≡ ok true
      → string_at J (text "fileName") json ≡ ok name
      → int_at J (text "fileSize") json ≡ ok size
      → F.opens path_of ≡ true
      → on_upload_file J F header p ≡ ok ([], opens_at p)
  unfolding on_upload_file open_file opened open_path
  header-opens p s parsed sized named int opens =
      ap
        (λ b.
          if not b && (J.parse header).0
          then open_file J F (J.parse header).1 p
          else ok (write_open J F p.session.fp header p))
        s
      ∙ ap (λ q. if q.0 then open_file J F q.1 p else ok (write_open J F p.session.fp header p))
          parsed
      ∙ rw (sized, named, int, opens) refl

  -- A first message with the name and the size of a file, in a session without an upload, and then
  -- pieces of together that size, in any division but none of them empty: if the file opens and
  -- every piece is written, the file ends as the pieces joined, the session is ready for the next
  -- upload, and the replies at the end are those for the file's name. The size is below 2 ^ 31.
  pub on_uploads-joined :
      (m : Bytes) (messages : List Bytes) (p : Place)
      → p.session.is_state ≡ false
      → p.session.offset ≡ 0
      → J.parse header ≡ (true, json)
      → has_size J F json ≡ ok true
      → string_at J (text "fileName") json ≡ ok name
      → int_at J (text "fileSize") json ≡ ok size
      → F.opens path_of ≡ true
      → All (IsPiece J F) (m ∷ messages)
      → length (joined (m ∷ messages)) ≡ size
      → size < 2147483648
      → (w : Place) × (on_uploads J F (header ∷ m ∷ messages) p
          ≡ ok (finished J F ((opens_at p).session), w))
        × (w.session ≡ forget (close ((opens_at p).session)))
        × (w.disk path_of ≡ joined (m ∷ messages))
  unfolding on_uploads
  on_uploads-joined m messages p s o parsed sized named int opens pieces sum small =
      let (w, ran, closed, there) =
        rest-joined J F path_of m messages (opens_at p) refl refl pieces (omega (arith, o, sum))
          small in
      (
        w,
        rw (header-opens p s parsed sized named int opens)
            (ap (λ o'. o' >>= λ r. ok ([] ++ r.0, r.1)) ran),
        closed,
        there ∙ ap (λ t. t ++ joined (m ∷ messages)) (put-same path_of [] p.disk),
      )
