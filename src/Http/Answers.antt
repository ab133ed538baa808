-- ===== src/Http/Answers.antt =====
-- What OnHttpResponse sends: the responses to a request for a file, by the kind of the file.
use sever_code.Prelude.{none, some, List, [], ◌∷◌, ◌++◌, Bytes, text}
use sever_code.Prelude.{length, ltb, ◌==◌, if◌then◌else◌}
use sever_code.Numerals.{decimal, hex}
use sever_code.Upload.{contains}
use sever_code.Http.{
  Media, crlf, line, parse_http_request, replace_first, kind_of, file_blocks, chunks, last_chunk,
  playlist,
}

module _ (M : Media) where
  -- `packHTTPResponse`: the header of a response, or nothing without a file.
  unfoldable pub pack_http_response : Bytes → Bytes → Bytes
  unfolding decimal
  pack_http_response filename content_type =
      if M.opens filename
      then line (text "HTTP/1.1 200 OK") (
          line (text "Content-Type: " ++ content_type) (
            line (text "Content-Length: " ++ decimal (length (M.content filename)))
              (line (text "Connection: close") crlf)))
      else []

  -- What each of the following sends on the connection.
  unfoldable pub send_file_data : Bytes → List Bytes
  unfolding file_blocks
  send_file_data path = if M.opens path then file_blocks 8192 (M.content path) else []

  unfoldable pub send_chunked_data : Bytes → List Bytes
  unfolding file_blocks chunks decimal
  send_chunked_data path =
      if M.opens path
      then line (text "HTTP/1.1 200 OK") (
          line (text "Content-Type: video/mp4")
            (line (text "Transfer-Encoding: chunked") (line (text "Connection: close") crlf)))
        ∷ (chunks decimal (file_blocks 4096 (M.content path)) ++ (last_chunk ∷ []))
      else []

  unfoldable pub stream_media_ts : Bytes → List Bytes
  unfolding file_blocks chunks hex
  stream_media_ts path =
      if M.opens path
      then line (text "HTTP/1.1 200 OK") (
          line (text "Content-Type: video/MP2T")
            (line (text "Connection: keep-alive") (line (text "Transfer-Encoding: chunked") crlf)))
        ∷ (chunks hex (file_blocks 4096 (M.content path)) ++ (last_chunk ∷ []))
      else line (text "HTTP/1.1 500 Internal Server Error") (line (text "Content-Length: 0") crlf)
        ∷ []

  unfoldable pub stream_media_m3u8 : Bytes → List Bytes
  unfolding decimal
  stream_media_m3u8 path =
      if M.opens path
      then line (text "HTTP/1.1 200 OK") (
          line (text "Content-Type: application/vnd.apple.mpegurl") (
            line (text "Content-Length: " ++ decimal (length (M.content path)))
              (line (text "Connection: keep-alive") crlf)))
        ∷ M.content path
        ∷ []
      else []

  -- `OnDownloadFileResponse`.
  unfoldable pub on_download_file : Bytes → List Bytes
  unfolding send_file_data
  on_download_file path = if length path == 0 then [] else send_file_data path

  -- `packHTTPResponse_file`: the file is closed before its buffer is read, so no byte follows.
  unfoldable pub pack_http_response_file : Bytes → Bytes → Bytes
  unfolding pack_http_response
  pack_http_response_file filename content_type = pack_http_response filename content_type ++ []

  unfoldable pub stream_media_m3u8_str : Bytes → Bytes → List Bytes
  unfolding playlist decimal
  stream_media_m3u8_str path file_duration = elim (M.duration path) [
    | none ↦ []
    | some seconds ↦
        let duration = if ltb (length file_duration) 1 then seconds else file_duration in
        let list = playlist path duration in
        line (text "HTTP/1.1 200 OK") (
          line (text "Content-Type: application/vnd.apple.mpegurl") (
            line (text "Content-Length: " ++ decimal (length list))
              (line (text "Connection: keep-alive") (13 ∷ 10 ∷ list))))
        ∷ []
  ]

  -- The end of `OnHttpResponse`: a header and the file, or the chunks where there is no header.
  unfoldable pub send_file : Bytes → Bytes → List Bytes
  unfolding pack_http_response send_chunked_data send_file_data
  send_file path content_type =
      let response = pack_http_response path content_type in
      if ltb (length response) 10 then send_chunked_data path else response ∷ send_file_data path

  -- `OnHttpResponse` with the name, the path and the content type at hand.
  unfoldable pub send_named : Bytes → Bytes → Bytes → List Bytes
  unfolding contains replace_first stream_media_m3u8_str stream_media_ts send_file
  send_named filename path content_type =
      if contains (text ".mp4") filename
      then stream_media_m3u8_str (replace_first (text ".mp4") (text ".ts") path) []
      else (if contains (text ".ts") filename then stream_media_ts path else [])
        ++ send_file path content_type

  -- `OnHttpResponse` with the name at hand.
  unfoldable pub on_name : Bytes → List Bytes
  unfolding kind_of contains replace_first on_download_file send_named
  on_name filename =
      let (dir, content_type) = kind_of filename in
      let path = dir ++ filename in
      if contains (text "download") filename
      then (let path' = replace_first (text "download/") [] path in
          on_download_file path' ++ send_named filename path' content_type)
      else send_named filename path content_type

  unfoldable pub on_http_response : Bytes → List Bytes
  unfolding parse_http_request on_name
  on_http_response buff = on_name (parse_http_request buff)
