-- ===== src/Http/Tests.antt =====
-- A picture of four bytes uploaded and requested, and other runs of the HTTP side.
use sever_code.Prelude.{
  ◌≡◌, refl, arith, Bool, true, false, inl, inr, Option, none, some, List, [], ◌∷◌, ◌++◌, map,
  Bytes, text, same, All, ok,
}
use sever_code.Session.Small.{json, parse}
use sever_code.Upload.{Place, replied, contains, starts_with, dir_of, finished}
use sever_code.Upload.Steps.{joined}
use sever_code.Upload.Whole.{opens_at}
use sever_code.Upload.Small.{
  files, start, header, header_json, header-parsed, header-sized, header-named, header-int,
  length-pieces,
}
use sever_code.Http.{
  Media, is_http_protocol, starts_with_any, parse_http_request, cut_at, skip_slashes, before_space,
  kind_of, file_blocks, replace_first, video_command,
}
use sever_code.Http.Answers.{stream_media_ts}
use sever_code.Http.Blocks.{IsBlock, file_blocks-joined}
use sever_code.Http.Client.{content_by_length, content_by_chunks}
use sever_code.Http.Responses.{stream_media_ts-content}
use sever_code.Http.Request.{request_line, parse_http_request-name}
use sever_code.Http.Process.{process, on_reads}
use sever_code.Http.Served.{IsServed, IsUpload}
use sever_code.Http.Whole.{get_request, IsRequest, IsFirst, on_reads-process}

abbrev readable : Bytes → Bool
readable path = true

abbrev no_video : Bytes → Option Bytes
no_video path = none

abbrev picture : Bytes
picture = text "a.png"

picture-IsServed : IsServed picture
unfolding dir_of kind_of contains starts_with same
picture-IsServed = record { directory = refl; mp4 = refl; ts = refl; download = refl }

abbrev get_picture : Bytes
get_picture =
    get_request json files readable no_video header header_json (text "GET") 1 picture
      (text "HTTP/1.1") (10 ∷ []) 13 4

get_picture_raw : (json.parse get_picture).0 ≡ false
unfolding parse
get_picture_raw = refl

get_picture_begins : is_http_protocol get_picture ≡ true
unfolding is_http_protocol starts_with_any starts_with same
get_picture_begins = refl

get_picture-IsRequest :
    IsRequest json files readable no_video header header_json
      (text "GET")
      1
      picture
      (text "HTTP/1.1")
      (10 ∷ [])
      13
      4
get_picture-IsRequest = record {
  raw = get_picture_raw;
  begins = get_picture_begins;
  method_word = omega arith;
  plain_name = omega arith;
  version_line = omega arith;
  line_end = refl;
  served = picture-IsServed;
  readable = refl;
}

start-IsFirst :
    IsFirst json files readable no_video header header_json
      (text "GET")
      1
      picture
      (text "HTTP/1.1")
      (10 ∷ [])
      13
      4
      start
start-IsFirst = record {
  no_upload = refl;
  at_start = refl;
  parsed = header-parsed;
  sized = header-sized;
  named = header-named;
  counted = header-int;
  writable = refl;
  small = omega arith;
}

pieces-IsUpload :
    All (IsUpload json files readable no_video) (header ∷ (1 ∷ 2 ∷ 3 ∷ []) ∷ (4 ∷ []) ∷ [])
unfolding is_http_protocol starts_with_any starts_with same parse
pieces-IsUpload = (inl refl, (inr refl, (inr refl, tt)))

on_reads-process_example :
    (w : Place) × (on_reads json files readable no_video
        (header ∷ (1 ∷ 2 ∷ 3 ∷ []) ∷ (4 ∷ []) ∷ [])
        start
      ≡ ok (
        finished json files ((opens_at json files header header_json picture 4 start).session),
        w,
      ))
    × (sends : List Bytes) × (process json files readable no_video get_picture w
        ≡ ok (map replied sends, w))
    × (content_by_length (joined sends) ≡ some (joined ((1 ∷ 2 ∷ 3 ∷ []) ∷ (4 ∷ []) ∷ [])))
on_reads-process_example =
    on_reads-process json files readable no_video header header_json (text "GET") 1 picture
      (text "HTTP/1.1") (10 ∷ []) 13 4 (1 ∷ 2 ∷ 3 ∷ []) ((4 ∷ []) ∷ []) start start-IsFirst
      ((omega arith, refl), ((omega arith, refl), tt)) length-pieces pieces-IsUpload
      get_picture-IsRequest

parse_http_request-name_example :
    parse_http_request (request_line (text "GET") 2 picture (text "HTTP/1.1") ++ (13 ∷ 10 ∷ []))
    ≡ picture
parse_http_request-name_example =
    parse_http_request-name (text "GET") 2 picture (text "HTTP/1.1") (10 ∷ []) 13 (omega arith)
      (omega arith) (omega arith) refl

-- Every file holds twelve bytes.
abbrev twelve : Media
twelve = record { opens = readable; content = λ path. text "twelve bytes"; duration = no_video }

abbrev nothing : Media
nothing = record { opens = λ path. false; content = λ path. []; duration = no_video }

stream_media_ts-content_example :
    content_by_chunks 13 (joined (stream_media_ts twelve (text "a.ts")))
    ≡ some (text "twelve bytes")
stream_media_ts-content_example = stream_media_ts-content twelve (text "a.ts") refl

file_blocks-joined_example :
    (joined (file_blocks 5 (text "twelve bytes")) ≡ text "twelve bytes")
    × All (IsBlock 5) (file_blocks 5 (text "twelve bytes"))
file_blocks-joined_example = file_blocks-joined 5 (text "twelve bytes") (omega arith)

picture_named : parse_http_request get_picture ≡ picture
unfolding parse_http_request cut_at skip_slashes before_space
picture_named = refl

-- A name may climb out of the directory.
climbs :
    parse_http_request (text "GET /../../etc/passwd HTTP/1.1" ++ (13 ∷ []))
    ≡ text "../../etc/passwd"
unfolding parse_http_request cut_at skip_slashes before_space
climbs = refl

command :
    video_command (text "a.mp4")
    ≡ text "ffmpeg -i a.mp4 -c:v copy -c:a copy -bsf:v h264_mp4toannexb -f mpegts a.ts"
unfolding video_command replace_first starts_with same
command = refl
