-- ===== src/Md5/Printed.antt =====
-- `toString`, and the digest of a file.
use sever_code.Prelude.{
  ℕ, ◌+◌, ◌*◌, ◌/◌, ◌%◌, ◌<◌, ◌≡◌, refl, ap, ◌∙◌, arith, Option, none, some, List, [], ◌∷◌,
}
use sever_code.Prelude.{Bytes, All, length, Outcome, ok, fault, ◌>>=◌}
use sever_code.Numerals.{digit_of}
use sever_code.Wire.Words.{IsByte}
use sever_code.Upload.Steps.{joined}
use sever_code.Http.{file_blocks}
use sever_code.Http.Blocks.{IsBlock, file_blocks-joined}
use sever_code.Md5.{
  Md5, initial, updates, update_stream, digest, to_string, reset, hex_digit, bytes_to_hex_string,
}
use sever_code.Md5.Spec.{md5, words_of, absorb, padded}
use sever_code.Md5.Transform.{encode, Registers}
use sever_code.Md5.Updated.{IsPiece}
use sever_code.Md5.Again.{digest-updates}

before : ℕ → Option Bytes → Option Bytes
before b none = none
before b (some s) = some (b ∷ s)

-- A reader of pairs of digits in base 16.
unfoldable pub read_hex : Bytes → Option Bytes
unfolding before
read_hex [] = some []
read_hex (p ∷ []) = none
read_hex (p ∷ q ∷ s) = elim (digit_of 16 p) [
  | none ↦ none
  | some a ↦ elim (digit_of 16 q) [ none ↦ none | some b ↦ before (a * 16 + b) (read_hex s) ]
]

digit_of-hex_digit : (n : ℕ) → n < 16 → digit_of 16 (hex_digit n) ≡ some n
unfolding digit_of hex_digit
digit_of-hex_digit n h = ground arith

read_hex-pair :
    (p q : ℕ) (s : Bytes) (a b : ℕ)
    → digit_of 16 p ≡ some a
    → digit_of 16 q ≡ some b
    → read_hex (p ∷ q ∷ s) ≡ before (a * 16 + b) (read_hex s)
unfolding read_hex
read_hex-pair p q s a b e f = rw (e, read_hex) (rw (f, read_hex) refl)

pub read_hex-bytes_to_hex_string :
    (s : Bytes) → All IsByte s → read_hex (bytes_to_hex_string s) ≡ some s
unfolding bytes_to_hex_string
read_hex-bytes_to_hex_string [] h = unfold read_hex in refl
read_hex-bytes_to_hex_string (t ∷ s) (h, hs) =
    read_hex-pair (hex_digit (t / 16)) (hex_digit (t % 16)) (bytes_to_hex_string s) (t / 16)
      (t % 16) (digit_of-hex_digit (t / 16) (omega arith))
      (digit_of-hex_digit (t % 16) (omega arith))
    ∙ ap (before (t / 16 * 16 + t % 16)) (read_hex-bytes_to_hex_string s hs)
    ∙ unfold before in ap (λ b. some (b ∷ s)) (omega arith)

encode-IsByte : (words : List ℕ) → All IsByte (encode words)
unfolding encode
encode-IsByte [] = tt
encode-IsByte (w ∷ words) =
    (omega arith, (omega arith, (omega arith, (omega arith, encode-IsByte words))))

words_of-IsByte : (r : Registers) → All IsByte (words_of r)
unfolding words_of
words_of-IsByte r = encode-IsByte (r.a ∷ r.b ∷ r.c ∷ r.d ∷ [])

md5-IsByte : (s : Bytes) → All IsByte (md5 s)
unfolding md5
md5-IsByte s = words_of-IsByte (absorb (length (padded s) / 64) (padded s) initial)

printed : Bytes × Md5 → Outcome (Bytes × Md5)
printed (bytes, m) = ok (bytes_to_hex_string bytes, m)

to_string-digest : (fed : Outcome Md5) → (fed >>= to_string) ≡ (fed >>= digest >>= printed)
unfolding to_string printed
to_string-digest (ok m) = refl
to_string-digest (fault e) = refl

IsPiece-of_block : (s : Bytes) → IsBlock 1024 s → IsPiece s
IsPiece-of_block s (some_bytes, few) = omega arith

All-IsPiece : (bs : List Bytes) → All (IsBlock 1024) bs → All IsPiece bs
All-IsPiece [] h = tt
All-IsPiece (b ∷ bs) (h, hs) = (IsPiece-of_block b h, All-IsPiece bs hs)

-- The digest of a file that is read through a stream, printed and read back, is that of its content.
pub to_string-file :
    (m : Md5) (content : Bytes)
    → length m.buffer ≡ 64
    → (hex : Bytes) × (m' : Md5) × ((update_stream (some content) (reset m) >>= to_string)
        ≡ ok (hex, m'))
      × (read_hex hex ≡ some (md5 content))
unfolding update_stream printed
to_string-file m content full =
    let (whole, blocks) = file_blocks-joined 1024 content (omega arith) in
    let pieces = file_blocks 1024 content in
    let (m', e) = digest-updates m pieces full (All-IsPiece pieces blocks) in
    (
      bytes_to_hex_string (md5 (joined pieces)),
      m',
      to_string-digest (updates pieces (reset m)) ∙ ap (λ o. o >>= printed) e,
      ap (λ s. read_hex (bytes_to_hex_string (md5 s))) whole
          ∙ read_hex-bytes_to_hex_string (md5 content) (md5-IsByte content),
    )
