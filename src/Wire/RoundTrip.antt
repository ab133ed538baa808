-- ===== src/Wire/RoundTrip.antt =====
-- What BinaryWriter writes, BinaryReader reads; and what happens when bytes are missing.
use sever_code.Prelude.{ℕ, ◌+◌, ◌-◌, ◌%◌, ◌^◌, ◌≤◌, ◌<◌, ◌≡◌, refl, ◌∙◌, arith}
use sever_code.Prelude.{[], ◌∷◌, ◌++◌, append-nil, append_assoc, Bytes, length, length-append}
use sever_code.Prelude.{drop, take-append_self, drop-append_self}
use sever_code.Prelude.{Fault, ok, fault, bad_access}
use sever_code.Wire.Writer.{BinaryWriter, compress, write_string, IsSound}
use sever_code.Wire.Reader.{BinaryReader, scan, assign_from, read_payload, read_string}
use sever_code.Wire.Length.{IsReadBack, compress-IsReadBack}

-- The bytes of a string in a message.
abbrev pub packed : Bytes → Bytes
packed s = compress (length s) [] ++ s

-- `write_string` appends the packed string, and keeps the index at the end of the buffer.
pub write_string-packed :
    (s : Bytes) (w : BinaryWriter)
    → IsSound w
    → w.index + length (packed s) < 2 ^ 32
    → write_string s w
      ≡ record w { buffer = w.buffer ++ packed s; index = w.index + length (packed s) }
write_string-packed [] w sound fits =
    unfold write_string in
    ground (arith, append-nil (compress 0 []), length-append (compress 0 []) [])
write_string-packed (b ∷ s) w sound fits =
    unfold write_string in
    ground (
      arith,
      append_assoc w.buffer (compress (length (b ∷ s)) []) (b ∷ s),
      length-append (compress (length (b ∷ s)) []) (b ∷ s),
    )

-- Behind any bytes `front`, `assign_from` copies the string that stands there.
assign_from-append :
    (front s rest : Bytes) (at : ℕ)
    → at ≡ length front
    → length s < 2 ^ 31
    → assign_from (front ++ (s ++ rest)) at (length s) ≡ ok s
unfolding assign_from
assign_from-append front s rest at here h = ground (
  arith,
  length-append front (s ++ rest),
  length-append s rest,
  append_assoc front (s ++ rest) (0 ∷ []),
  append_assoc s rest (0 ∷ []),
  drop-append_self front (s ++ (rest ++ (0 ∷ []))),
  take-append_self s (rest ++ (0 ∷ [])),
)

-- At a packed string behind any bytes the reader's loop stops at the end of the length.
scan-packed :
    (front s rest : Bytes)
    → length s < 2 ^ 32
    → scan (drop (length front) (front ++ (packed s ++ rest))) 0 0
      ≡ (length (compress (length s) []) - 1, length s)
scan-packed front s rest h =
    rw (drop-append_self front (packed s ++ rest), append_assoc (compress (length s) []) s rest)
      ((compress-IsReadBack (length s) (s ++ rest) h).0)

read_string-scan :
    (r : BinaryReader) {i len : ℕ}
    → r.index ≤ length r.buffer
    → scan (drop r.index r.buffer) 0 0 ≡ (i, len)
    → read_string r ≡ read_payload r i len
unfolding read_string
read_string-scan r h e = rw (e, read_string) (ground arith)

read_payload-ok :
    (r : BinaryReader) (i len at : ℕ) (s : Bytes)
    → at ≡ r.index + i + 1
    → at + len < 2 ^ 32
    → assign_from r.buffer at len ≡ ok s
    → read_payload r i len ≡ ok (s, record r { index = at + len })
unfolding read_payload
read_payload-ok r i len at s e fits a = rw (here, a) (ground arith)
  where
    here : (r.index + i + 1) % 2 ^ 32 ≡ at
    here = omega arith

read_payload-fault :
    (r : BinaryReader) (i len at : ℕ) {e : Fault}
    → at ≡ r.index + i + 1
    → at < 2 ^ 32
    → assign_from r.buffer at len ≡ fault e
    → read_payload r i len ≡ fault e
unfolding read_payload
read_payload-fault r i len at e fits a = rw (here, a)
  where
    here : (r.index + i + 1) % 2 ^ 32 ≡ at
    here = omega arith

-- The sizes around a packed string, for `omega`.
packed_sizes :
    (s : Bytes)
    → length s < 2 ^ 32
    → (length (packed s) ≡ length (compress (length s) []) + length s)
      × (1 ≤ length (compress (length s) []))
      × (length (compress (length s) []) ≤ 5)
packed_sizes s h =
    let (r, lo, hi) = compress-IsReadBack (length s) [] h in
    (length-append (compress (length s) []) s, lo, hi)

pub read_string-packed :
    (front s rest : Bytes)
    → length s < 2 ^ 31
    → length front + length (packed s) < 2 ^ 32
    → read_string (record { buffer = front ++ (packed s ++ rest); index = length front })
      ≡ ok (
        s,
        record { buffer = front ++ (packed s ++ rest); index = length front + length (packed s) },
      )
read_string-packed front s rest h fits =
    read_string-scan _ (omega (arith, length-append front (packed s ++ rest)))
      (scan-packed front s rest (omega arith))
    ∙ read_payload-ok _ _ _ (length (front ++ out)) s
        (omega (arith, length-append front out, packed_sizes s (omega arith)))
        (omega (arith, length-append front out, packed_sizes s (omega arith)))
        (rw (append_assoc out s rest, ← append_assoc front out (s ++ rest))
          (assign_from-append (front ++ out) s rest _ refl h))
    ∙ ground (arith, length-append front out, packed_sizes s (omega arith))
  where
    out : Bytes
    out = compress (length s) []

-- A string written at the end of a sound writer's buffer is read back from that place, whatever
-- is written behind it, and the reader then stands where the writer stood after writing. The
-- string is shorter than 2 ^ 31 bytes and the buffer than 2 ^ 32.
pub read_string-write_string :
    (s rest : Bytes) (w : BinaryWriter)
    → IsSound w
    → length s < 2 ^ 31
    → w.index + length (packed s) < 2 ^ 32
    → read_string (record { buffer = (write_string s w).buffer ++ rest; index = w.index })
      ≡ ok (
        s,
        record { buffer = (write_string s w).buffer ++ rest; index = (write_string s w).index },
      )
read_string-write_string s rest w sound h fits =
    rw (write_string-packed s w sound fits, append_assoc w.buffer (packed s) rest, sound.at_end)
      (read_string-packed w.buffer s rest h (omega arith))

-- A length that announces more bytes than the message holds, by two or more, is not refused: the
-- reader copies memory behind its buffer.
pub read_string_overrun :
    (len : ℕ) (rest : Bytes)
    → length rest + 1 < len
    → len < 2 ^ 31
    → read_string (record { buffer = compress len [] ++ rest; index = 0 }) ≡ fault bad_access
read_string_overrun len rest short h =
    read_string-scan _ (omega arith) (back.0)
    ∙ read_payload-fault _ _ _ (length (compress len [])) (omega (arith, back))
        (omega (arith, back)) behind
  where
    back : IsReadBack 5 len (compress len []) rest
    back = compress-IsReadBack len rest (omega arith)

    behind : assign_from (compress len [] ++ rest) (length (compress len [])) len ≡ fault bad_access
    behind = unfold assign_from in ground (arith, length-append (compress len []) rest)
