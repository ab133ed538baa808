-- ===== src/Wire/Reader.antt =====
-- class BinaryReader.
use sever_code.Prelude.{ℕ, suc, ◌+◌, ◌*◌, ◌%◌, ◌^◌, Option, none, some}
use sever_code.Prelude.{[], ◌∷◌, ◌++◌, Bytes, length, take, drop, ltb, leb, if◌then◌else◌}
use sever_code.Prelude.{Outcome, ok, fault, uncaught, bad_access, ◌>>=◌}
use sever_code.Wire.Words.{le_value}
use mathlib.Core.List.{reverse}

pub record BinaryReader : Type 0 where
  pub buffer : Bytes
  pub index : ℕ

-- `BinaryReader(const string&)` and `UpdateBuffer`.
unfoldable pub new_reader : Bytes → BinaryReader
new_reader s = record { buffer = s; index = 0 }

unfoldable pub reset : BinaryReader → BinaryReader
reset r = record r { index = 0 }

-- `ReadInt32`, the int32_t by its bit pattern; `none` is the result false, which changes nothing.
unfoldable pub read_int32 : BinaryReader → Option (ℕ × BinaryReader)
read_int32 r =
    if leb (length r.buffer) (r.index + 4)
    then none
    else some
        (le_value (take 4 (drop r.index r.buffer)), record r { index = (r.index + 4) % 2 ^ 32 })

-- `ReadData<T>` with sizeof(T) = `n`: the object's bytes are those of the buffer, last one first.
unfoldable pub read_object : ℕ → BinaryReader → Option (ℕ × BinaryReader)
read_object n r =
    if ltb (length r.buffer) (r.index + n)
    then none
    else some (
      le_value (reverse (take n (drop r.index r.buffer))),
      record r { index = (r.index + n) % 2 ^ 32 },
    )

-- The loop of `ReadData(string&)` over the bytes from the index on: the number of bytes before the
-- one that ends the length, and the length as the bit pattern of an int.
unfoldable pub scan : Bytes → ℕ → ℕ → ℕ × ℕ
scan [] i len = (i, len)
scan (b ∷ bs) i len =
    let len' = (len * 128 + b % 128) % 2 ^ 32 in
    let more = scan bs (suc i) len' in if ltb b 128 then (i, len') else more

-- `data.assign(m_buffer.c_str() + at, len)`: a negative `len` converts to a size beyond max_size.
-- The string and its closing zero byte may be read, and nothing behind them.
unfoldable pub assign_from : Bytes → ℕ → ℕ → Outcome Bytes
assign_from s at len =
    if leb (2 ^ 31) len
    then fault uncaught
    else if ltb (length s + 1) (at + len)
    then fault bad_access
    else ok (take len (drop at (s ++ (0 ∷ []))))

-- What follows the loop, from its two results.
unfoldable pub read_payload : BinaryReader → ℕ → ℕ → Outcome (Bytes × BinaryReader)
read_payload r i len = do
  let at = (r.index + i + 1) % 2 ^ 32
  s ← assign_from r.buffer at len
  ok (s, record r { index = (at + len) % 2 ^ 32 })

-- `ReadData(string&)`. With the index behind the buffer the bound of its loop wraps around.
unfoldable pub read_string : BinaryReader → Outcome (Bytes × BinaryReader)
unfolding read_payload
read_string r =
    if ltb (length r.buffer) r.index
    then fault bad_access
    else let (i, len) = scan (drop r.index r.buffer) 0 0 in read_payload r i len
