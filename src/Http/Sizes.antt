-- ===== src/Http/Sizes.antt =====
-- The size lines of sendChunkedData, which are printed in base 10 and read in base 16, and requests
-- for files that are not there.
use sever_code.Prelude.{
  ℕ, ◌≤◌, ◌<◌, ◌≡◌, refl, ap, ◌∙◌, arith, true, false, List, [], ◌∷◌, ◌++◌, Bytes, length, drop,
  take, leb, ltb, Bool-cases, inl, inr,
}
use sever_code.Prelude.{length-take, leb→le}
use sever_code.Numerals.{decimal, read_digits, read_digits-decimal_gt, digit_of}
use sever_code.Upload.{dir_of}
use sever_code.Prelude.{text}
use sever_code.Http.{line}
use sever_code.Http.{
  Media, crlf, chunks, last_chunk, blocks, file_blocks, parse_http_request, kind_of,
}
use sever_code.Http.Answers.{send_chunked_data, on_http_response}
use sever_code.Http.Responses.{send_file_missing}
use sever_code.Http.Served.{IsServed, on_http_response-send_file}

-- The first block of a file that is not empty.
file_blocks-cons :
    (size : ℕ) (s : Bytes)
    → 10 ≤ size
    → 10 ≤ length s
    → (b : Bytes) × (bs : List Bytes) × (file_blocks size s ≡ b ∷ bs) × (10 ≤ length b)
unfolding file_blocks blocks
file_blocks-cons size s h k = elim (Bool-cases (leb size (length s))) [
  | inl full ↦ (
    take size s,
    blocks size (length s) (drop size s),
    rw full refl,
    omega (arith, length-take size s, leb→le size (length s) full),
  )
  | inr part ↦ (s, [], rw part (rw some_left refl), k)
]
  where
    some_left : ltb 0 (length s) ≡ true
    some_left = ground arith

mp4_header : Bytes
mp4_header = line (text "HTTP/1.1 200 OK") (
    line (text "Content-Type: video/mp4")
      (line (text "Transfer-Encoding: chunked") (line (text "Connection: close") crlf)))

module _ (M : Media) (path : Bytes) where
  send_chunked_data-chunks :
      M.opens path ≡ true
      → send_chunked_data M path
        ≡ mp4_header ∷ (chunks decimal (file_blocks 4096 (M.content path)) ++ (last_chunk ∷ []))
  unfolding send_chunked_data mp4_header
  send_chunked_data-chunks there = rw there refl

  -- For a file of ten bytes or more, the first size line that sendChunkedData sends announces more
  -- bytes, to a reader of the chunked encoding, than the block behind it has.
  pub send_chunked_data_sizes :
      M.opens path ≡ true
      → 10 ≤ length (M.content path)
      → (header size block : Bytes) × (more : List Bytes) × (send_chunked_data M path
          ≡ header ∷ size ∷ block ∷ more)
        × (length block < (read_digits 16 0 size).0)
  unfolding chunks
  send_chunked_data_sizes there h =
      let (b, bs, e, k) = file_blocks-cons 4096 (M.content path) (omega arith) h in
      (
        mp4_header,
        decimal (length b) ++ crlf,
        b,
        crlf ∷ (chunks decimal bs ++ (last_chunk ∷ [])),
        send_chunked_data-chunks there
            ∙ ap (λ l. mp4_header ∷ (chunks decimal l ++ (last_chunk ∷ []))) e,
        read_digits-decimal_gt (length b) 13 (10 ∷ []) k (unfold digit_of in refl),
      )

-- A request for a file that cannot be opened is not answered at all.
pub on_http_response_missing :
    (M : Media) (buff name : Bytes)
    → parse_http_request buff ≡ name
    → IsServed name
    → M.opens (dir_of name ++ name) ≡ false
    → on_http_response M buff ≡ []
on_http_response_missing M buff name named served gone =
    on_http_response-send_file M name served buff named
    ∙ send_file_missing M (dir_of name ++ name) (kind_of name).1 gone
