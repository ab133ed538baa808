-- ===== src/Md5.antt =====
-- FileServer/MD5.h and MD5.cpp: the message digest, fed in pieces. The words are `uint32`, the
-- lengths `size_t`.
pub mod Transform
pub mod Spec
pub mod Count
pub mod Copied
pub mod Blocks
pub mod Updated
pub mod Padding
pub mod Digested
pub mod Again
pub mod Printed
pub mod Endless
mod Tests
use sever_code.Prelude.{
  ℕ, zero, suc, ◌+◌, ◌-◌, ◌*◌, ◌/◌, ◌%◌, ◌^◌, Bool, true, false, Option, none, some, List, [], ◌∷◌,
  ◌++◌,
}
use sever_code.Prelude.{
  Bytes, get_elem?, length, take, drop, replicate, ltb, leb, if◌then◌else◌, Outcome, ok, fault,
  bad_access, no_end, ◌>>=◌,
}
use sever_code.Http.{file_blocks}
use sever_code.Md5.Transform.{Registers, encode, transform}

-- An object of the class: `_state`, the two words of `_count`, `_buffer`, `_digest`, `_finished`.
pub record Md5 : Type 0 where
  pub state : Registers
  pub low : ℕ
  pub high : ℕ
  pub buffer : Bytes
  pub digest : Bytes
  pub finished : Bool

abbrev pub initial : Registers
initial = record { a = 0x67452301; b = 0xefcdab89; c = 0x98badcfe; d = 0x10325476 }

-- `reset`: the two arrays keep what they have.
unfoldable pub reset : Md5 → Md5
reset m = record m { state = initial; low = 0; high = 0; finished = false }

-- `memcpy(&_buffer[i], source, length)`.
unfoldable pub copy_at : ℕ → Bytes → Bytes → Outcome Bytes
copy_at i source buffer =
    if leb (i + length source) 64
    then ok (take i buffer ++ (source ++ drop (i + length source) buffer))
    else fault bad_access

-- `transform(&input[i])` reads 64 bytes.
unfoldable pub transform_at : Bytes → ℕ → Registers → Outcome Registers
transform_at input i r =
    if leb (i + 64) (length input)
    then ok (transform (take 64 (drop i input)) r)
    else fault bad_access

-- The loop over the whole blocks of the input from `i`, which is a `uint32`: `i` behind it, and
-- the state.
unfoldable pub blocks_fuel : ℕ → Bytes → ℕ → Registers → Outcome (ℕ × Registers)
unfolding transform_at
blocks_fuel zero input i r = fault no_end
blocks_fuel (suc fuel) input i r = elim (ltb ((i + 63) % 2 ^ 32) (length input)) [
  | true ↦ transform_at input i r >>= blocks_fuel fuel input ((i + 64) % 2 ^ 32)
  | false ↦ ok (i, r)
]

-- The position in the buffer: the bytes so far, modulo 64.
unfoldable pub index_of : Md5 → ℕ
index_of m = m.low / 2 ^ 3 % 64

-- The number of bits goes up: the carry by comparing the sum, and the high bits of the length.
unfoldable pub count_up : ℕ → Md5 → Md5
count_up length m =
    let bits = length % 2 ^ 32 * 2 ^ 3 % 2 ^ 32 in
    let low = (m.low + bits) % 2 ^ 32 in
    let carried = if ltb low bits then (m.high + 1) % 2 ^ 32 else m.high in
    record m { low = low; high = (carried + length % 2 ^ 32 / 2 ^ 29) % 2 ^ 32; finished = false }

-- `update(const byte*, size_t)`.
unfoldable pub update_fuel : ℕ → Bytes → Md5 → Outcome Md5
unfolding copy_at blocks_fuel index_of count_up
update_fuel fuel input m =
    let index = index_of m in
    let m' = count_up (length input) m in
    let part_len = 64 - index in
    if leb part_len (length input)
    then (do
      buffer ← copy_at index (take part_len input) m.buffer
      (i, r) ← blocks_fuel fuel input part_len (transform buffer m.state)
      buffer' ← copy_at 0 (drop i input) buffer
      ok (record m' { state = r; buffer = buffer' }))
    else (do buffer ← copy_at index input m.buffer; ok (record m' { buffer = buffer }))

unfoldable pub update : Bytes → Md5 → Outcome Md5
unfolding update_fuel
update input m = update_fuel (suc (length input)) input m

-- `update` of one piece after the other.
unfoldable pub updates : List Bytes → Md5 → Outcome Md5
unfolding update
updates [] m = ok m
updates (input ∷ inputs) m = update input m >>= updates inputs

-- `update(ifstream&)`: a stream that is not good is left alone.
unfoldable pub update_stream : Option Bytes → Md5 → Outcome Md5
unfolding updates
update_stream none m = ok m
update_stream (some content) m = updates (file_blocks 1024 content) m

abbrev pub padding : Bytes
padding = 0x80 ∷ replicate 63 0

-- `final`: the state and the count are put back behind the two updates.
unfoldable pub final : Md5 → Outcome Md5
unfolding encode index_of
final m =
    let index = index_of m in
    let pad_len = if ltb index 56 then 56 - index else 120 - index in
    do
      padded ← update (take pad_len padding) m
      done ← update (encode (m.low ∷ m.high ∷ [])) padded
      ok (record done {
        state = m.state;
        low = m.low;
        high = m.high;
        digest = encode (done.state.a ∷ done.state.b ∷ done.state.c ∷ done.state.d ∷ []);
      })

-- `digest`: what it returns, and the object.
unfoldable pub digest : Md5 → Outcome (Bytes × Md5)
unfolding final
digest m =
    if m.finished
    then ok (m.digest, m)
    else (do m' ← final (record m { finished = true }); ok (m'.digest, m'))

-- HEX.
unfoldable pub hex_digit : ℕ → ℕ
hex_digit n = if ltb n 10 then b'0' + n else b'a' + (n - 10)

-- `bytesToHexString`.
unfoldable pub bytes_to_hex_string : Bytes → Bytes
unfolding hex_digit
bytes_to_hex_string [] = []
bytes_to_hex_string (t ∷ input) =
    hex_digit (t / 16) ∷ hex_digit (t % 16) ∷ bytes_to_hex_string input

unfoldable pub to_string : Md5 → Outcome (Bytes × Md5)
unfolding digest bytes_to_hex_string
to_string m = do (bytes, m') ← digest m; ok (bytes_to_hex_string bytes, m')
