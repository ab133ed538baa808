-- ===== src/Http.antt =====
-- What the file server reads off HTTP requests and the texts it answers by (FileServer/FileSession.cpp).
-- What can be read of the file system, and what ffmpeg finds in a file, are parameters.
pub mod Answers
pub mod Blocks
pub mod Chunks
pub mod Client
pub mod Responses
pub mod Request
pub mod Process
pub mod Served
pub mod Whole
pub mod Sizes
mod Tests
use sever_code.Prelude.{
  ℕ, zero, suc, Bool, true, false, ◌||◌, Option, none, some, List, [], ◌∷◌, ◌++◌, Bytes, text,
}
use sever_code.Prelude.{length, take, drop, leb, ltb, ◌==◌, if◌then◌else◌}
use sever_code.Numerals.{decimal, hex}
use sever_code.Upload.{starts_with, contains}

-- The files: does an ifstream open a path, and what does it read there? And the duration of a media
-- file as std::to_string prints it, where ffmpeg opens the file and finds the streams.
pub record Media : Type 0 where
  pub opens : Bytes → Bool
  pub content : Bytes → Bytes
  pub duration : Bytes → Option Bytes

-- The two bytes at the end of a line.
abbrev pub crlf : Bytes
crlf = 13 ∷ 10 ∷ []

abbrev pub line : Bytes → Bytes → Bytes
line s rest = s ++ (13 ∷ 10 ∷ rest)

-- `isHTTPProtocol`.
unfoldable pub starts_with_any : List Bytes → Bytes → Bool
unfolding starts_with
starts_with_any [] s = false
starts_with_any (m ∷ ms) s = starts_with m s || starts_with_any ms s

abbrev pub http_methods : List Bytes
http_methods =
    text "GET" ∷ text "POST" ∷ text "PUT" ∷ text "DELETE" ∷ text "HEAD" ∷ text "OPTIONS" ∷ []

unfoldable pub is_http_protocol : Bytes → Bool
unfolding starts_with_any
is_http_protocol s = starts_with_any http_methods s

-- The text before the first byte that passes the test, and the text behind that byte.
unfoldable pub cut_at : (ℕ → Bool) → Bytes → Option (Bytes × Bytes)
cut_at test [] = none
cut_at test (c ∷ s) =
    if test c
    then some ([], s)
    else elim (cut_at test s) [ none ↦ none | some (a, b) ↦ some (c ∷ a, b) ]

abbrev pub is_line_end : ℕ → Bool
is_line_end c = c == 13 || c == 10

abbrev pub is_space : ℕ → Bool
is_space c = c == b' '

unfoldable pub skip_slashes : Bytes → Bytes
skip_slashes [] = []
skip_slashes (c ∷ s) = if c == b'/' then skip_slashes s else c ∷ s

-- `substr(0, find(" "))`: without a space the whole text.
unfoldable pub before_space : Bytes → Bytes
unfolding cut_at
before_space s = elim (cut_at is_space s) [ none ↦ s | some (a, b) ↦ a ]

-- `parseHTTPRequest`.
unfoldable pub parse_http_request : Bytes → Bytes
unfolding cut_at skip_slashes before_space
parse_http_request request = elim (cut_at is_line_end request) [
  | none ↦ []
  | some (request_line, _) ↦ elim (cut_at is_space request_line) [
    | none ↦ []
    | some (_, uri) ↦ before_space (skip_slashes uri)
  ]
]

-- `s.replace(s.find(from), from.length(), to)`, where it is found.
unfoldable pub replace_first : Bytes → Bytes → Bytes → Bytes
unfolding starts_with
replace_first from to [] = if starts_with from [] then to ++ drop (length from) [] else []
replace_first from to (c ∷ s) =
    if starts_with from (c ∷ s)
    then to ++ drop (length from) (c ∷ s)
    else c ∷ replace_first from to s

-- What follows the last slash, or the whole text.
unfoldable pub after_last_slash : Bytes → Bytes
unfolding contains
after_last_slash [] = []
after_last_slash (c ∷ s) =
    let further = after_last_slash s in
    if contains (text "/") s then further else if c == b'/' then s else c ∷ s

-- The command of `handleVideo`.
unfoldable pub video_command : Bytes → Bytes
unfolding replace_first
video_command path =
    text "ffmpeg -i "
    ++ (path
        ++ (text " -c:v copy -c:a copy -bsf:v h264_mp4toannexb -f mpegts "
            ++ replace_first (text ".mp4") (text ".ts") path))

abbrev pub source_file : Bytes
source_file = text "/home/xjh/projects/GraduationProject/out/build/ubuntu/source_File"

-- The directory and the content type by the name of a file.
unfoldable pub kind_of : Bytes → Bytes × Bytes
unfolding contains
kind_of name =
    if contains (text ".mp4") name
    then (source_file ++ text "/video/", text "video/mp4")
    else if contains (text ".mp3") name
    then (source_file ++ text "/audio/", text "audio/mpeg")
    else if contains (text ".html") name
    then (source_file ++ text "/ptFile/", text "text/plain")
    else if contains (text ".png") name
    then (source_file ++ text "/Img/", text "image/png")
    else if contains (text ".ts") name
    then (source_file ++ text "/video/", [])
    else ([], [])

-- What `while (file.read(buffer, size))` with the rest behind it hands out: full blocks, then what
-- is left. `fuel` bounds the blocks.
unfoldable pub blocks : ℕ → ℕ → Bytes → List Bytes
blocks size zero s = []
blocks size (suc fuel) s =
    let more = take size s ∷ blocks size fuel (drop size s) in
    if leb size (length s) then more else if ltb 0 (length s) then s ∷ [] else []

-- The blocks of a file: there are not more of them than bytes.
unfoldable pub file_blocks : ℕ → Bytes → List Bytes
unfolding blocks
file_blocks size s = blocks size (suc (length s)) s

-- A chunk in three sends: its size by `print`, its bytes, and a line end.
unfoldable pub chunks : (ℕ → Bytes) → List Bytes → List Bytes
chunks print [] = []
chunks print (b ∷ bs) = (print (length b) ++ crlf) ∷ b ∷ crlf ∷ chunks print bs

abbrev pub last_chunk : Bytes
last_chunk = line (text "0") crlf

-- The playlist of `streamMedia_m3u8Str`.
unfoldable pub playlist : Bytes → Bytes → Bytes
unfolding after_last_slash
playlist path duration =
    text "#EXTM3U"
    ++ (10
        ∷ (text "#EXT-X-VERSION:3"
            ++ (10
                ∷ (text "#EXT-X-TARGETDURATION:"
                    ++ (duration
                        ++ (10
                            ∷ (text "#EXT-X-MEDIA-SEQUENCE:0"
                                ++ (10
                                    ∷ (text "#EXTINF:"
                                        ++ (duration
                                            ++ (text ","
                                                ++ (10
                                                    ∷ (after_last_slash path
                                                        ++ (10
                                                            ∷ (text "#EXT-X-ENDLIST"
                                                            ++ (10 ∷ []))))))))))))))))
