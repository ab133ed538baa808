-- ===== src/Http/Served.antt =====
-- Uploads and requests on one connection: what is uploaded is served, and which parts of an upload
-- are lost.
use sever_code.Prelude.{
  ℕ, ◌≡◌, refl, sym, ap, ◌∙◌, arith, Bool, true, false, ◌⊎◌, inl, inr, Option, some, List, [], ◌∷◌,
  ◌++◌, map, Bytes, text,
}
use sever_code.Prelude.{All, if◌then◌else◌, ok, ◌>>=◌, >>=-cong}
use sever_code.Session.{JsonLib}
use sever_code.Upload.{FileLib, Place, Event, replied, contains, dir_of, on_upload_file}
use sever_code.Upload.Steps.{on_uploads, joined}
use sever_code.Http.{Media, is_http_protocol, is_line_end, parse_http_request, kind_of}
use sever_code.Http.Answers.{send_named, send_file, on_http_response}
use sever_code.Http.Answers.{on_name}
use sever_code.Http.Client.{IsPlain, content_by_length}
use sever_code.Http.Responses.{send_file-content}
use sever_code.Http.Request.{IsWord, IsRequestName, IsLine, request_line, parse_http_request-name}
use sever_code.Http.Process.{
  m_type_upload, m_type_http, media_at, command_of, switch, process, on_reads,
}

-- A name by which a file is stored and served from one directory, without the treatment of videos
-- and of downloads.
pub record IsServed (name : Bytes) : Type 0 where
  pub directory : dir_of name ≡ (kind_of name).0
  pub mp4 : contains (text ".mp4") name ≡ false
  pub ts : contains (text ".ts") name ≡ false
  pub download : contains (text "download") name ≡ false

pick-IsPlain :
    (b : Bool) (x y : Bytes × Bytes) → IsPlain x.1 → IsPlain y.1 → IsPlain ((if b then x else y).1)
pick-IsPlain true x y h k = h
pick-IsPlain false x y h k = k

kind_of-IsPlain : (name : Bytes) → IsPlain (kind_of name).1
unfolding kind_of
kind_of-IsPlain name = pick-IsPlain (contains (text ".mp4") name) _ _ (omega arith) (
    pick-IsPlain (contains (text ".mp3") name) _ _ (omega arith) (
      pick-IsPlain (contains (text ".html") name) _ _ (omega arith) (
        pick-IsPlain (contains (text ".png") name) _ _ (omega arith)
          (pick-IsPlain (contains (text ".ts") name) _ _ tt tt))))

module _ (M : Media) (name : Bytes) (served : IsServed name) where
  send_named-send_file :
      (path content_type : Bytes)
      → send_named M name path content_type ≡ send_file M path content_type
  unfolding send_named
  send_named-send_file path content_type = rw (served.mp4, send_named) (rw served.ts refl)

  on_name-send_file : on_name M name ≡ send_file M ((kind_of name).0 ++ name) (kind_of name).1
  unfolding on_name
  on_name-send_file =
      rw served.download (send_named-send_file ((kind_of name).0 ++ name) (kind_of name).1)

  pub on_http_response-send_file :
      (buff : Bytes)
      → parse_http_request buff ≡ name
      → on_http_response M buff ≡ send_file M (dir_of name ++ name) (kind_of name).1
  unfolding on_http_response
  on_http_response-send_file buff named =
      ap (on_name M) named
      ∙ on_name-send_file
      ∙ ap (λ d. send_file M (d ++ name) (kind_of name).1) (sym served.directory)

module _ (J : JsonLib) (F : FileLib J) (opens : Bytes → Bool)
    (duration : Bytes → Option Bytes) where
  -- A message that Process hands to the upload.
  abbrev pub IsUpload : Bytes → Type 0
  IsUpload m = ((J.parse m).0 ≡ true) ⊎ (is_http_protocol m ≡ false)

  command_of-other :
      (b : Bool) (m : Bytes) → is_http_protocol m ≡ false → command_of b m ≡ m_type_upload
  unfolding command_of
  command_of-other true m h = refl
  command_of-other false m h = rw h refl

  command_of-request : (m : Bytes) → is_http_protocol m ≡ true → command_of false m ≡ m_type_http
  unfolding command_of
  command_of-request m h = rw h refl

  process-upload :
      (m : Bytes) (p : Place) → IsUpload m → process J F opens duration m p ≡ on_upload_file J F m p
  unfolding process command_of switch
  process-upload m p (inl parsed) = ap (λ b. switch J F opens duration (command_of b m) m p) parsed
  process-upload m p (inr other) =
      ap (λ c. switch J F opens duration c m p) (command_of-other (J.parse m).0 m other)

  -- Messages that are JSON, or do not begin like a request, are an upload as before.
  pub on_reads-on_uploads :
      (messages : List Bytes) (p : Place)
      → All IsUpload messages
      → on_reads J F opens duration messages p ≡ on_uploads J F messages p
  unfolding on_reads on_uploads
  on_reads-on_uploads [] p h = refl
  on_reads-on_uploads (m ∷ messages) p (h, hs) =
      ap
        (λ o. o >>= λ (r : List Event × Place).
          on_reads J F opens duration messages r.1 >>= λ (s : List Event × Place).
          ok (r.0 ++ s.0, s.1))
        (process-upload m p h)
      ∙ >>=-cong (on_upload_file J F m p) (λ r.
        ap (λ o. o >>= λ (s : List Event × Place). ok (r.0 ++ s.0, s.1))
          (on_reads-on_uploads messages r.1 hs))

  -- A message that is no JSON and begins like a request leaves the upload and the disk as they are,
  -- also if it is a part of a file.
  pub process_request :
      (m : Bytes) (p : Place)
      → (J.parse m).0 ≡ false
      → is_http_protocol m ≡ true
      → process J F opens duration m p
        ≡ ok (map replied (on_http_response (media_at J F opens duration p) m), p)
  unfolding process switch
  process_request m p raw begins =
      ap (λ b. switch J F opens duration (command_of b m) m p) raw
      ∙ ap (λ c. switch J F opens duration c m p) (command_of-request m begins)

-- A request by name.
module _ (J : JsonLib) (F : FileLib J) (opens : Bytes → Bool) (duration : Bytes → Option Bytes)
    (method : Bytes) (slashes : ℕ) (name version rest : Bytes) (e : ℕ) where
  abbrev pub request : Bytes
  request = request_line method slashes name version ++ (e ∷ rest)

  -- A request for a file that can be opened, by a name that is stored and served alike, is answered
  -- so that a client reads the content of the file on disk, and changes nothing.
  pub process-content :
      (p : Place)
      → (J.parse request).0 ≡ false
      → is_http_protocol request ≡ true
      → IsWord method
      → IsRequestName name
      → IsLine version
      → is_line_end e ≡ true
      → IsServed name
      → opens (dir_of name ++ name) ≡ true
      → (sends : List Bytes) × (process J F opens duration request p ≡ ok (map replied sends, p))
        × (content_by_length (joined sends) ≡ some (p.disk (dir_of name ++ name)))
  process-content p raw begins hm hn hv he served there =
      let M = media_at J F opens duration p in
      (
        on_http_response M request,
        process_request J F opens duration request p raw begins,
        ap (λ sends. content_by_length (joined sends))
              (on_http_response-send_file M name served request
                (parse_http_request-name method slashes name version rest e hm hn hv he))
            ∙ send_file-content M (dir_of name ++ name) (kind_of name).1 there
                (kind_of-IsPlain name),
      )
