-- ===== src/Http/Whole.antt =====
-- One connection from the first message of an upload to the response with the file.
use sever_code.Prelude.{
  ℕ, ◌<◌, ◌≡◌, ap, ◌∙◌, Bool, true, false, Option, some, List, ◌∷◌, ◌++◌, map, Bytes, text, length,
  All, ok,
}
use sever_code.Session.{JsonLib, string_at, int_at}
use sever_code.Upload.{FileLib, Place, replied, dir_of, has_size, finished}
use sever_code.Upload.Steps.{joined}
use sever_code.Upload.Whole.{IsPiece, opens_at, on_uploads-joined}
use sever_code.Http.{is_http_protocol, is_line_end}
use sever_code.Http.Client.{content_by_length}
use sever_code.Http.Request.{IsWord, IsRequestName, IsLine}
use sever_code.Http.Process.{process, on_reads}
use sever_code.Http.Served.{IsServed, IsUpload, on_reads-on_uploads, request, process-content}

module _ (J : JsonLib) (F : FileLib J) (opens : Bytes → Bool) (duration : Bytes → Option Bytes)
    (header : Bytes) (json : J.Value) (method : Bytes) (slashes : ℕ) (name version rest : Bytes)
    (e size : ℕ) where
  abbrev pub get_request : Bytes
  get_request = request J F opens duration method slashes name version rest e

  -- What a request does that the server takes for one.
  pub record IsRequest : Type 0 where
    pub raw : (J.parse get_request).0 ≡ false
    pub begins : is_http_protocol get_request ≡ true
    pub method_word : IsWord method
    pub plain_name : IsRequestName name
    pub version_line : IsLine version
    pub line_end : is_line_end e ≡ true
    pub served : IsServed name
    pub readable : opens (dir_of name ++ name) ≡ true

  -- A first message that opens the file of that name and size.
  pub record IsFirst (p : Place) : Type 0 where
    pub no_upload : p.session.is_state ≡ false
    pub at_start : p.session.offset ≡ 0
    pub parsed : J.parse header ≡ (true, json)
    pub sized : has_size J F json ≡ ok true
    pub named : string_at J (text "fileName") json ≡ ok name
    pub counted : int_at J (text "fileSize") json ≡ ok size
    pub writable : F.opens (dir_of name ++ name) ≡ true
    pub small : size < 2147483648

  -- A client uploads a file in any pieces, of which none begins like a request, and then requests it
  -- by its name on the same connection. If the name has no `.mp4`, `.ts` or `download` in it, and its
  -- endings lead the upload and the request to one directory, the client reads the pieces joined off
  -- the response.
  pub on_reads-process :
      (m : Bytes) (messages : List Bytes) (p : Place)
      → IsFirst p
      → All (IsPiece J F) (m ∷ messages)
      → length (joined (m ∷ messages)) ≡ size
      → All (IsUpload J F opens duration) (header ∷ m ∷ messages)
      → IsRequest
      → (w : Place) × (on_reads J F opens duration (header ∷ m ∷ messages) p
          ≡ ok (finished J F ((opens_at J F header json name size p).session), w))
        × (sends : List Bytes) × (process J F opens duration get_request w
            ≡ ok (map replied sends, w))
        × (content_by_length (joined sends) ≡ some (joined (m ∷ messages)))
  on_reads-process m messages p f pieces sum uploads r =
      let (w, ran, closed, there) =
        on_uploads-joined J F header json name size m messages p f.no_upload f.at_start f.parsed
          f.sized f.named f.counted f.writable pieces sum f.small in
      let (sends, answered, content) =
        process-content J F opens duration method slashes name version rest e w r.raw r.begins
          r.method_word r.plain_name r.version_line r.line_end r.served r.readable in
      (
        w,
        on_reads-on_uploads J F opens duration (header ∷ m ∷ messages) p uploads ∙ ran,
        sends,
        answered,
        content ∙ ap some there,
      )
