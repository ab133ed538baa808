-- ===== src/Http/Responses.antt =====
-- The responses of the file server, as a client reads them.
use sever_code.Prelude.{
  ℕ, suc, ◌≤◌, ◌<◌, ◌≡◌, refl, sym, ap, ◌∙◌, arith, true, false, none, some, List, [], ◌∷◌, ◌++◌,
  Bytes, text, append_assoc,
}
use sever_code.Prelude.{
  length, length-append, same, take, take-append_self, leb, ltb, All, if◌then◌else◌, append-nil,
}
use sever_code.Numerals.{hex, decimal, read_digits-decimal, digit_of}
use sever_code.Upload.{starts_with}
use sever_code.Upload.Steps.{joined}
use sever_code.Http.{Media, crlf, line, chunks, last_chunk, file_blocks}
use sever_code.Http.Answers.{stream_media_ts, send_file_data, pack_http_response, send_file}
use sever_code.Http.Answers.{send_chunked_data}
use sever_code.Http.Blocks.{IsBlock, file_blocks-joined}
use sever_code.Http.Chunks.{read_body, read_body-chunks}
use sever_code.Http.Client.{
  IsPlain, behind_header, field, sized_content, content_by_length, content_by_chunks,
}
use sever_code.Http.Client.{behind_header-plain, field-plain, decimal-IsPlain}

-- The header of packHTTPResponse, with what follows.
unfoldable packed : Bytes → ℕ → Bytes → Bytes
packed content_type n body = line (text "HTTP/1.1 200 OK") (
    line (text "Content-Type: " ++ content_type) (
      line (text "Content-Length: " ++ decimal n)
        (line (text "Connection: close") (13 ∷ 10 ∷ body))))

packed-behind_header :
    (content_type : Bytes) (n : ℕ) (body : Bytes)
    → IsPlain content_type
    → behind_header (packed content_type n body) ≡ some body
unfolding packed behind_header starts_with same
packed-behind_header content_type n body h =
    behind_header-plain content_type _ h ∙ behind_header-plain (decimal n) _ (decimal-IsPlain n)

packed-field :
    (content_type : Bytes) (n : ℕ) (body : Bytes)
    → IsPlain content_type
    → field (text "Content-Length: ") true (packed content_type n body)
      ≡ some (decimal n ++ (13 ∷ 10 ∷ (text "Connection: close" ++ (13 ∷ 10 ∷ 13 ∷ 10 ∷ body))))
unfolding packed field starts_with same
packed-field content_type n body h = field-plain (text "Content-Length: ") content_type _ h

-- The rest of the header behind the length, and the content.
abbrev behind_length : Bytes → Bytes
behind_length body = 10 ∷ (text "Connection: close" ++ (13 ∷ 10 ∷ 13 ∷ 10 ∷ body))

sized_content-decimal :
    (body rest : Bytes)
    → sized_content (some (decimal (length body) ++ (13 ∷ rest))) (some body) ≡ some body
unfolding sized_content
sized_content-decimal body rest =
    ap (λ (r : ℕ × Bytes). if leb r.0 (length body) then some (take r.0 body) else none)
      (read_digits-decimal (length body) 13 rest (unfold digit_of in refl))
    ∙ rw whole
        (ap some (ap (take (length body)) (sym (append-nil body)) ∙ take-append_self body []))
  where
    whole : leb (length body) (length body) ≡ true
    whole = ground arith

packed-content :
    (content_type body : Bytes)
    → IsPlain content_type
    → content_by_length (packed content_type (length body) body) ≡ some body
unfolding content_by_length
packed-content content_type body h =
    ap (λ f. sized_content f (behind_header (packed content_type (length body) body)))
      (packed-field content_type (length body) body h)
    ∙ ap (sized_content (some (decimal (length body) ++ (13 ∷ behind_length body))))
        (packed-behind_header content_type (length body) body h)
    ∙ sized_content-decimal body (behind_length body)

-- A list of texts that are not empty is no longer than what they give joined.
length-le-joined : (bs : List Bytes) → All (λ b. 0 < length b) bs → length bs ≤ length (joined bs)
unfolding joined
length-le-joined [] h = omega arith
length-le-joined (b ∷ bs) (pos, h) =
    omega (arith, length-le-joined bs h, length-append b (joined bs))

nonempty : (size : ℕ) (bs : List Bytes) → All (IsBlock size) bs → All (λ b. 0 < length b) bs
nonempty size [] h = tt
nonempty size (b ∷ bs) ((pos, _), h) = (pos, nonempty size bs h)

packed-append :
    (content_type : Bytes) (n : ℕ) (body : Bytes)
    → packed content_type n [] ++ body ≡ packed content_type n body
unfolding packed
packed-append content_type n body = simp append_assoc

packed_long :
    (content_type : Bytes) (n : ℕ) (body : Bytes)
    → ltb (length (packed content_type n body)) 10 ≡ false
unfolding packed
packed_long content_type n body = ground arith

module _ (M : Media) (path content_type : Bytes) (there : M.opens path ≡ true) where
  pack_http_response-packed :
      pack_http_response M path content_type ≡ packed content_type (length (M.content path)) []
  unfolding pack_http_response packed
  pack_http_response-packed = rw there refl

  send_file_data-blocks : send_file_data M path ≡ file_blocks 8192 (M.content path)
  unfolding send_file_data
  send_file_data-blocks = rw there refl

  pick : Bytes → List Bytes
  unfolding send_chunked_data
  pick response =
      if ltb (length response) 10
      then send_chunked_data M path
      else response ∷ send_file_data M path

  send_file-blocks :
      send_file M path content_type
      ≡ packed content_type (length (M.content path)) [] ∷ file_blocks 8192 (M.content path)
  unfolding send_file pick
  send_file-blocks =
      ap pick pack_http_response-packed
      ∙ rw (packed_long content_type (length (M.content path)) [])
          (ap (λ bs. packed content_type (length (M.content path)) [] ∷ bs) send_file_data-blocks)

  send_file-packed :
      joined (send_file M path content_type)
      ≡ packed content_type (length (M.content path)) (M.content path)
  unfolding joined
  send_file-packed =
      ap joined send_file-blocks
      ∙ ap (λ s. packed content_type (length (M.content path)) [] ++ s)
          (file_blocks-joined 8192 (M.content path) (omega arith)).0
      ∙ packed-append content_type (length (M.content path)) (M.content path)

  -- A client reads the content of the file off the header and the blocks behind it.
  pub send_file-content :
      IsPlain content_type
      → content_by_length (joined (send_file M path content_type)) ≡ some (M.content path)
  send_file-content h =
      ap content_by_length send_file-packed ∙ packed-content content_type (M.content path) h

ts_header : Bytes
ts_header = line (text "HTTP/1.1 200 OK") (
    line (text "Content-Type: video/MP2T")
      (line (text "Connection: keep-alive") (line (text "Transfer-Encoding: chunked") crlf)))

ts_header-content :
    (fuel : ℕ) (sends : List Bytes)
    → content_by_chunks fuel (joined (ts_header ∷ sends)) ≡ read_body fuel (joined sends)
unfolding content_by_chunks behind_header starts_with same joined ts_header
ts_header-content fuel sends = refl

module _ (M : Media) (path : Bytes) (there : M.opens path ≡ true) where
  stream_media_ts-blocks :
      stream_media_ts M path
      ≡ ts_header ∷ (chunks hex (file_blocks 4096 (M.content path)) ++ (last_chunk ∷ []))
  unfolding stream_media_ts ts_header
  stream_media_ts-blocks = rw there refl

  -- A client reads the content of the file off the chunks behind the header.
  pub stream_media_ts-content :
      content_by_chunks (suc (length (M.content path))) (joined (stream_media_ts M path))
      ≡ some (M.content path)
  stream_media_ts-content =
      let (whole, blocks) = file_blocks-joined 4096 (M.content path) (omega arith) in
      let filled = nonempty 4096 (file_blocks 4096 (M.content path)) blocks in
      ap (λ sends. content_by_chunks (suc (length (M.content path))) (joined sends))
        stream_media_ts-blocks
      ∙ ts_header-content (suc (length (M.content path))) _
      ∙ read_body-chunks (suc (length (M.content path))) (file_blocks 4096 (M.content path)) filled
          (omega
            (arith, length-le-joined (file_blocks 4096 (M.content path)) filled, ap length whole))
      ∙ ap some whole

-- Without the file nothing at all is sent: no header, no error.
pub send_file_missing :
    (M : Media) (path content_type : Bytes)
    → M.opens path ≡ false
    → send_file M path content_type ≡ []
unfolding send_file pack_http_response send_chunked_data
send_file_missing M path content_type h = rw h refl
