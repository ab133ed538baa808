-- ===== src/Http/Client.antt =====
-- What a client reads off the bytes of a response: the fields of its header, and its content, by
-- length or by chunks.
use sever_code.Prelude.{
  ◌/◌, ◌%◌, ℕ, zero, suc, ◌≡◌, ◌≢◌, refl, arith, Bool, true, false, ◌&&◌, Option, none, some, [],
  ◌∷◌, ◌++◌, Bytes, text,
}
use sever_code.Prelude.{
  length, same, take, drop, leb, ltb, All, ◌==◌, if◌then◌else◌, Bool-cases, inl, inr,
}
use sever_code.Numerals.{decimal, digits, symbol, read_digits}
use sever_code.Upload.{starts_with}
use sever_code.Http.Chunks.{read_body}

-- What follows the empty line.
unfoldable pub behind_header : Bytes → Option Bytes
unfolding starts_with
behind_header [] = none
behind_header (c ∷ s) =
    if starts_with (13 ∷ 10 ∷ 13 ∷ 10 ∷ []) (c ∷ s) then some (drop 3 s) else behind_header s

-- What follows a name at the start of a line; `fresh` says whether a line starts here.
unfoldable pub field : Bytes → Bool → Bytes → Option Bytes
unfolding starts_with
field name fresh [] = none
field name fresh (c ∷ s) =
    let further = field name (c == 10) s in
    if fresh && starts_with name (c ∷ s) then some (drop (length name) (c ∷ s)) else further

unfoldable pub sized_content : Option Bytes → Option Bytes → Option Bytes
unfolding read_digits
sized_content none body = none
sized_content (some s) none = none
sized_content (some s) (some body) =
    let (n, rest) = read_digits 10 0 s in if leb n (length body) then some (take n body) else none

-- The content of a message with a length.
unfoldable pub content_by_length : Bytes → Option Bytes
unfolding behind_header field sized_content
content_by_length s = sized_content (field (text "Content-Length: ") true s) (behind_header s)

-- The content of a message in chunks.
unfoldable pub content_by_chunks : ℕ → Bytes → Option Bytes
unfolding behind_header
content_by_chunks fuel s = elim (behind_header s) [ none ↦ none | some body ↦ read_body fuel body ]

-- No byte of a line end.
abbrev pub IsPlainByte : ℕ → Type 0
IsPlainByte c = (c ≢ 13) × (c ≢ 10)

abbrev pub IsPlain : Bytes → Type 0
IsPlain s = All IsPlainByte s

All-append : (s t : Bytes) → IsPlain s → IsPlain t → IsPlain (s ++ t)
All-append [] t h k = k
All-append (c ∷ s) t (h, hs) k = (h, All-append s t hs k)

symbol-IsPlainByte : (d : ℕ) → IsPlainByte (symbol d)
unfolding symbol
symbol-IsPlainByte d = ground arith

digits-IsPlain : (base fuel n : ℕ) → IsPlain (digits base fuel n)
unfolding digits
digits-IsPlain base zero n = tt
digits-IsPlain base (suc fuel) n = elim (Bool-cases (ltb n base)) [
  | inl small ↦ rw (small, digits) (symbol-IsPlainByte n, tt)
  | inr large ↦
      rw (large, digits)
        (All-append (digits base fuel (n / base)) (symbol (n % base) ∷ [])
          (digits-IsPlain base fuel (n / base)) (symbol-IsPlainByte (n % base), tt))
]

pub behind_header-plain :
    (s rest : Bytes) → IsPlain s → behind_header (s ++ rest) ≡ behind_header rest
unfolding behind_header starts_with same
behind_header-plain [] rest h = refl
behind_header-plain (c ∷ s) rest ((h, _), hs) = rw (other, same) (behind_header-plain s rest hs)
  where
    other : (13 == c) ≡ false
    other = ground arith

pub field-plain :
    (name s rest : Bytes) → IsPlain s → field name false (s ++ rest) ≡ field name false rest
unfolding field
field-plain name [] rest h = refl
field-plain name (c ∷ s) rest ((_, h), hs) =
    let other : (c == 10) ≡ false = ground arith in rw other (field-plain name s rest hs)

pub decimal-IsPlain : (n : ℕ) → IsPlain (decimal n)
unfolding decimal
decimal-IsPlain n = digits-IsPlain 10 (suc n) n
