-- ===== src/Wire/Writer.antt =====
-- class BinaryWriter.
use sever_code.Prelude.{ℕ, zero, suc, ◌+◌, ◌-◌, ◌*◌, ◌/◌, ◌%◌, ◌^◌, ◌<◌, ◌≡◌}
use sever_code.Prelude.{◌&&◌, [], ◌∷◌, ◌++◌, Bytes, length, take, drop, replicate}
use sever_code.Prelude.{ltb, ◌==◌, if◌then◌else◌}

pub record BinaryWriter : Type 0 where
  pub buffer : Bytes
  pub index : ℕ

unfoldable pub new_writer : BinaryWriter
new_writer = record { buffer = []; index = 0 }

unfoldable pub clear : BinaryWriter → BinaryWriter
clear w = record w { buffer = []; index = 0 }

-- `operator=(const string&)`: the buffer is replaced and the index stays 0.
unfoldable pub assign : Bytes → BinaryWriter → BinaryWriter
unfolding clear
assign s w = record (clear w) { buffer = s }

-- std::string::resize.
unfoldable pub resize : ℕ → Bytes → Bytes
resize n s = take n s ++ replicate (n - length s) 0

-- memcpy of `bs` to offset `i` of a string that is long enough.
unfoldable pub copy_to : ℕ → Bytes → Bytes → Bytes
copy_to i bs s = take i s ++ (bs ++ drop (i + length bs) s)

-- `WriteData<T>`, given the bytes of the object. The index is a uint32_t.
unfoldable pub write_object : Bytes → BinaryWriter → BinaryWriter
unfolding resize copy_to
write_object bs w = record w {
  buffer = copy_to w.index bs (resize (w.index + length bs) w.buffer);
  index = (w.index + length bs) % 2 ^ 32;
}

-- One round of the loop of `Compress`: the group `i` of seven bits, the highest bit set on every
-- byte but the last, leading zero groups left out.
unfoldable pub compress_byte : ℕ → ℕ → Bytes → Bytes
compress_byte i len out =
    let c = len / 2 ^ (7 * i) % 128 in
    if c == 0 && length out == 0 then out else out ++ ((if ltb 0 i then c + 128 else c) ∷ [])

-- for (int i = rounds - 1; i >= 0; i--)
unfoldable pub compress_loop : ℕ → ℕ → Bytes → Bytes
unfolding compress_byte
compress_loop zero len out = out
compress_loop (suc i) len out = compress_loop i len (compress_byte i len out)

unfoldable pub compress : ℕ → Bytes → Bytes
unfolding compress_loop
compress len out = if ltb len 128 then out ++ (len ∷ []) else compress_loop 5 len out

-- `WriteData(const string&)`: the length, then the bytes, at the end of the buffer.
unfoldable pub write_string : Bytes → BinaryWriter → BinaryWriter
write_string s w =
    let out = compress (length s) [] in
    record w {
      buffer = if ltb 0 (length s) then (w.buffer ++ out) ++ s else w.buffer ++ out;
      index =
          if ltb 0 (length s)
          then ((w.index + length out) % 2 ^ 32 + length s) % 2 ^ 32
          else (w.index + length out) % 2 ^ 32;
    }

-- `writerFile`: six bytes of an uninitialised array, which are the argument.
unfoldable pub writer_file : Bytes → BinaryWriter → BinaryWriter
writer_file junk w = record w { buffer = junk; index = 6 }

-- The index is the size of the buffer, and has not wrapped.
pub record IsSound (w : BinaryWriter) : Type 0 where
  pub at_end : w.index ≡ length w.buffer
  pub fits : w.index < 2 ^ 32
