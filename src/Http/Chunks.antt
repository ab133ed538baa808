-- ===== src/Http/Chunks.antt =====
-- Chunks against a reader of the chunked transfer encoding, where the size of a chunk is in base 16.
use sever_code.Prelude.{
  ℕ, zero, suc, ◌<◌, ◌≡◌, refl, ap, ◌∙◌, arith, true, false, Option, none, some, List, [], ◌∷◌,
  ◌++◌, Bytes, append_assoc,
}
use sever_code.Prelude.{
  length, length-append, take, drop, take-append_self, drop-append_self, leb, All, ◌==◌,
  if◌then◌else◌,
}
use sever_code.Numerals.{hex, read_digits, read_digits-hex, digit_of}
use sever_code.Upload.Steps.{joined}
use sever_code.Http.{crlf, chunks, last_chunk}

-- What follows a line end, where there is one.
unfoldable pub behind_crlf : Bytes → Option Bytes
behind_crlf [] = none
behind_crlf (c ∷ []) = none
behind_crlf (c ∷ d ∷ s) = if c == 13 then (if d == 10 then some s else none) else none

-- A number with the line end behind it taken off.
unfoldable pub end_line : ℕ × Bytes → Option (ℕ × Bytes)
unfolding behind_crlf
end_line (n, rest) = elim (behind_crlf rest) [ none ↦ none | some body ↦ some (n, body) ]

-- A size line, and what follows it.
unfoldable pub read_size : Bytes → Option (ℕ × Bytes)
unfolding end_line
read_size s = end_line (read_digits 16 0 s)

-- The bytes of a chunk of `n`, and what follows the line end behind it.
unfoldable pub read_chunk : ℕ → Bytes → Option (Bytes × Bytes)
unfolding behind_crlf
read_chunk n body =
    if leb n (length body)
    then elim (behind_crlf (drop n body)) [ none ↦ none | some rest ↦ some (take n body, rest) ]
    else none

-- The body of a chunked message, up to the chunk of size 0; the fuel bounds the chunks.
unfoldable pub read_body : ℕ → Bytes → Option Bytes
unfolding read_size read_chunk
read_body zero s = none
read_body (suc fuel) s = elim (read_size s) [
  | none ↦ none
  | some (n, body) ↦ elim (n == 0) [
    | true ↦ some []
    | false ↦ elim (read_chunk n body) [
      | none ↦ none
      | some (b, rest) ↦ elim (read_body fuel rest) [ none ↦ none | some more ↦ some (b ++ more) ]
    ]
  ]
]

read_size-hex : (n : ℕ) (rest : Bytes) → read_size (hex n ++ (crlf ++ rest)) ≡ some (n, rest)
unfolding read_size behind_crlf
read_size-hex n rest = ap end_line (read_digits-hex n 13 (10 ∷ rest) (unfold digit_of in refl))

read_chunk-append : (b rest : Bytes) → read_chunk (length b) (b ++ (crlf ++ rest)) ≡ some (b, rest)
unfolding read_chunk behind_crlf
read_chunk-append b rest =
    rw (fits, read_chunk)
      (rw (drop-append_self b (crlf ++ rest), take-append_self b (crlf ++ rest)) refl)
  where
    fits : leb (length b) (length (b ++ (crlf ++ rest))) ≡ true
    fits = ground (arith, length-append b (crlf ++ rest))

-- One chunk at the front.
read_body-chunk :
    (fuel : ℕ) (b rest more : Bytes)
    → 0 < length b
    → read_body fuel rest ≡ some more
    → read_body (suc fuel) (hex (length b) ++ (crlf ++ (b ++ (crlf ++ rest)))) ≡ some (b ++ more)
unfolding read_body
read_body-chunk fuel b rest more pos e =
    rw (read_size-hex (length b) (b ++ (crlf ++ rest)), read_body)
      (rw (nonzero, read_body) (rw (read_chunk-append b rest) (rw e refl)))
  where
    nonzero : (length b == 0) ≡ false
    nonzero = ground arith

pub read_body-chunks :
    (fuel : ℕ) (bs : List Bytes)
    → All (λ b. 0 < length b) bs
    → length bs < fuel
    → read_body fuel (joined (chunks hex bs ++ (last_chunk ∷ []))) ≡ some (joined bs)
unfolding chunks joined
read_body-chunks zero bs h k = elim k [ ]
read_body-chunks (suc fuel) [] h k =
    unfold read_body read_size behind_crlf read_digits digit_of in refl
read_body-chunks (suc fuel) (b ∷ bs) (pos, h) k =
    ap (read_body (suc fuel)) (append_assoc (hex (length b)) crlf _)
    ∙ read_body-chunk fuel b _ (joined bs) pos (read_body-chunks fuel bs h (omega arith))
