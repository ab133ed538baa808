-- ===== src/Md5/Spec.antt =====
-- The digest as RFC 1321 describes it, and what an object stands for between two calls.
use sever_code.Prelude.{ℕ, zero, suc, ◌-◌, ◌*◌, ◌/◌, ◌%◌, ◌^◌, ◌<◌, ◌≡◌, List, [], ◌∷◌, ◌++◌}
use sever_code.Prelude.{Bytes, All, length, take, drop, replicate}
use sever_code.Upload.Steps.{joined}
use sever_code.Wire.Words.{le_bytes}
use sever_code.Md5.{Md5, initial}
use sever_code.Md5.Transform.{Registers, encode, transform}

-- A bit 1, zeros up to 56 bytes modulo 64, and the number of bits in eight bytes.
unfoldable pub padded : Bytes → Bytes
padded s =
    s ++ (0x80 ∷ (replicate ((119 - length s % 64) % 64) 0 ++ le_bytes 8 (length s * 8 % 2 ^ 64)))

unfoldable pub absorb : ℕ → Bytes → Registers → Registers
absorb zero s r = r
absorb (suc n) s r = absorb n (drop 64 s) (transform (take 64 s) r)

unfoldable pub words_of : Registers → Bytes
unfolding encode
words_of r = encode (r.a ∷ r.b ∷ r.c ∷ r.d ∷ [])

-- The digest of a text: the padded text, block by block.
unfoldable pub md5 : Bytes → Bytes
unfolding padded absorb words_of
md5 s = words_of (absorb (length (padded s) / 64) (padded s) initial)

unfoldable pub fold_blocks : List Bytes → Registers → Registers
fold_blocks [] r = r
fold_blocks (b ∷ bs) r = fold_blocks bs (transform b r)

abbrev pub IsBlock : Bytes → Type 0
IsBlock b = length b ≡ 64

-- The object has taken in a text: its whole blocks into the state, the rest into the buffer.
pub record Represents (m : Md5) (s : Bytes) : Type 0 where
  pub blocks : List Bytes
  pub rest : Bytes
  pub whole : All IsBlock blocks
  pub short : length rest < 64
  pub parts : s ≡ joined blocks ++ rest
  pub state : m.state ≡ fold_blocks blocks initial
  pub low : m.low ≡ length s * 8 % 2 ^ 32
  pub high : m.high ≡ length s * 8 / 2 ^ 32 % 2 ^ 32
  pub pending : take (length rest) m.buffer ≡ rest
  pub size : length m.buffer ≡ 64
