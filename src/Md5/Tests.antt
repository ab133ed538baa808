-- ===== src/Md5/Tests.antt =====
-- Digests of known texts.
use sever_code.Prelude.{
  ◌≡◌, refl, arith, false, some, List, [], ◌∷◌, ◌++◌, Bytes, text, All, replicate, same,
}
use sever_code.Prelude.{Outcome, ok, ◌>>=◌}
use sever_code.Upload.Steps.{joined}
use sever_code.Wire.Words.{le_bytes}
use sever_code.Md5.{Md5, initial, reset, update, updates, update_stream, digest, to_string}
use sever_code.Md5.Transform.{transform}
use sever_code.Md5.Spec.{md5}
use sever_code.Md5.Updated.{IsPiece}
use sever_code.Md5.Again.{overwritten, digest-updates, digest-again, digest-overwritten}
use sever_code.Md5.Printed.{read_hex, to_string-file}

abbrev blank : Md5
blank = record {
  state = initial;
  low = 7;
  high = 7;
  buffer = replicate 64 170;
  digest = [];
  finished = false;
}

hex_of : List Bytes → Outcome Bytes
unfolding updates to_string reset update
hex_of pieces = do m ← updates pieces (reset blank); (hex, m') ← to_string m; ok hex

of_nothing : hex_of [] ≡ ok (text "d41d8cd98f00b204e9800998ecf8427e")
unfolding hex_of transform
of_nothing = refl

of_abc : hex_of (text "a" ∷ text "bc" ∷ []) ≡ ok (text "900150983cd24fb0d6963f7d28e17f72")
unfolding hex_of transform
of_abc = refl

of_digits :
    hex_of (
      text "1234567890123456789012345678901234567890123456789012345678901234567890"
      ∷ text "1234567890"
      ∷ [])
    ≡ ok (text "57edf4a22be3c955ac49da2e2107b67a")
unfolding hex_of transform
of_digits = refl

-- 56 bytes: the first digest is right, the second is another.
abbrev late_text : Bytes
late_text = replicate 56 65

late_pieces : All IsPiece (late_text ∷ [])
late_pieces = (omega arith, tt)

digest-updates_example :
    (m' : Md5) × ((updates (text "a" ∷ text "bc" ∷ []) (reset blank) >>= digest)
      ≡ ok (md5 (joined (text "a" ∷ text "bc" ∷ [])), m'))
digest-updates_example =
    digest-updates blank (text "a" ∷ text "bc" ∷ []) refl (omega arith, (omega arith, tt))

digest-again_example :
    (m' : Md5) × ((do
      fed ← updates (text "a" ∷ []) (reset blank)
      first ← digest fed
      more ← updates (text "bc" ∷ []) first.1
      digest more)
      ≡ ok (md5 (joined (text "a" ∷ []) ++ joined (text "bc" ∷ [])), m'))
digest-again_example =
    digest-again blank (text "a" ∷ []) (text "bc" ∷ []) refl (omega arith, tt) (omega arith, tt)
      (unfold joined in omega arith)

digest-overwritten_example :
    (m' : Md5) × ((do
      fed ← updates (late_text ∷ []) (reset blank)
      first ← digest fed
      digest first.1)
      ≡ ok (md5 (overwritten (joined (late_text ∷ []))), m'))
digest-overwritten_example =
    digest-overwritten blank (late_text ∷ []) refl late_pieces (unfold joined in omega arith)

digests_differ : same (md5 (overwritten late_text)) (md5 late_text) ≡ false
unfolding md5 overwritten transform le_bytes same
digests_differ = refl

to_string-file_example :
    (hex : Bytes) × (m' : Md5) × ((update_stream (some late_text) (reset blank) >>= to_string)
      ≡ ok (hex, m'))
    × (read_hex hex ≡ some (md5 late_text))
to_string-file_example = to_string-file blank late_text refl
