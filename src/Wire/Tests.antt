-- ===== src/Wire/Tests.antt =====
-- Runs of the wire format.
use sever_code.Prelude.{◌+◌, ◌^◌, ◌<◌, ◌≡◌, refl, arith, [], ◌∷◌, ◌++◌, text, length}
use sever_code.Prelude.{ok, fault, bad_access}
use sever_code.Wire.Writer.{BinaryWriter, compress, write_string, IsSound}
use sever_code.Wire.Reader.{read_string}
use sever_code.Wire.RoundTrip.{packed, read_string-write_string, read_string_overrun}
use sever_code.Wire.Frame.{frame, file_frame, IsFramed, frames-IsFramed}

-- Three bytes written before.
abbrev writer : BinaryWriter
writer = record { buffer = 7 ∷ 8 ∷ 9 ∷ []; index = 3 }

writer-IsSound : IsSound writer
writer-IsSound = record { at_end = refl; fits = omega arith }

hello-fits : 3 + length (packed (text "hello")) < 2 ^ 32
unfolding compress
hello-fits = omega arith

read_string-write_string_example :
    read_string
      (record { buffer = (write_string (text "hello") writer).buffer ++ (1 ∷ []); index = 3 })
    ≡ ok (
      text "hello",
      record {
        buffer = (write_string (text "hello") writer).buffer ++ (1 ∷ []);
        index = (write_string (text "hello") writer).index;
      },
    )
read_string-write_string_example =
    read_string-write_string (text "hello") (1 ∷ []) writer writer-IsSound (omega arith) hello-fits

read_string_overrun_example :
    read_string (record { buffer = compress 300 [] ++ (1 ∷ 2 ∷ []); index = 0 }) ≡ fault bad_access
read_string_overrun_example = read_string_overrun 300 (1 ∷ 2 ∷ []) (omega arith) (omega arith)

frames-IsFramed_example :
    IsFramed 4 (7 ∷ 8 ∷ 9 ∷ []) (frame writer).0 × IsFramed 8 (7 ∷ 8 ∷ 9 ∷ []) (file_frame writer).0
frames-IsFramed_example = frames-IsFramed writer (omega arith)
