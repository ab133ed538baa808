-- ===== src/Wire/Frame.antt =====
-- TcpSession::Send: the header in front of a message, in its two versions (ClientSession.h for the
-- chat server, FileServer/TcpSession.cpp for the file server), and the objects that it is made of.
use sever_code.Prelude.{ℕ, zero, suc, ◌+◌, ◌%◌, ◌^◌, ◌≤◌, ◌<◌, ◌≡◌, refl, sym, ap, ◌∙◌, arith}
use sever_code.Prelude.{Bool, Option, none, some, [], ◌∷◌, ◌++◌, append-nil, append_assoc}
use sever_code.Prelude.{Bytes, length, length-append, take, drop, replicate, if◌then◌else◌}
use sever_code.Prelude.{take-append_self, drop-append_self}
use sever_code.Wire.Words.{le_bytes, le_value, byte_swap, length-le_bytes, le_bytes-byte_swap}
use sever_code.Wire.Words.{length-reverse-le_bytes, le_value-le_bytes}
use sever_code.Wire.Writer.{BinaryWriter, clear, write_object, resize, copy_to, IsSound}
use sever_code.Wire.Reader.{BinaryReader, read_object, read_int32}
use native.Mathlib.Nat.{mod-eq_of_lt}
use mathlib.Core.List.{reverse, reverse-reverse}

-- The chat server's version: an int, then htonl of an int, then htons(0).
unfoldable pub frame : BinaryWriter → Bytes × BinaryWriter
frame w =
    let len = length w.buffer in
    let w₁ = write_object (le_bytes 4 ((len + 6) % 2 ^ 32)) (clear w) in
    let w₂ = write_object (le_bytes 4 (byte_swap 4 (len % 2 ^ 32))) w₁ in
    let w₃ = write_object (le_bytes 2 (byte_swap 2 0)) w₂ in (w₃.buffer ++ w.buffer, w₃)

-- `Send(conn, write)`: what goes to the connection, if there is one, and the writer left behind.
unfoldable pub send : Bool → BinaryWriter → Option Bytes × BinaryWriter
send connected w = let (out, w') = frame w in (if connected then some out else none, w')

-- The file server's version: the first field is an int64_t, and htonl takes its low 32 bits.
unfoldable pub file_frame : BinaryWriter → Bytes × BinaryWriter
file_frame w =
    let len = length w.buffer in
    let w₁ = write_object (le_bytes 8 ((len + 6) % 2 ^ 64)) (clear w) in
    let w₂ = write_object (le_bytes 4 (byte_swap 4 (len % 2 ^ 32))) w₁ in
    let w₃ = write_object (le_bytes 2 (byte_swap 2 0)) w₂ in (w₃.buffer ++ w.buffer, w₃)

drop_all : (s : Bytes) (n : ℕ) → length s ≤ n → drop n s ≡ []
drop_all [] zero h = refl
drop_all [] (suc n) h = refl
drop_all (b ∷ s) zero h = absurd (omega arith)
drop_all (b ∷ s) (suc n) h = drop_all s n (omega arith)

take_past : (n : ℕ) (s : Bytes) → length s ≤ n → take n s ≡ s
take_past zero [] h = refl
take_past zero (b ∷ s) h = absurd (omega arith)
take_past (suc n) [] h = refl
take_past (suc n) (b ∷ s) h = ap (λ t. b ∷ t) (take_past n s (omega arith))

length-replicate : (n b : ℕ) → length (replicate n b) ≡ n
length-replicate zero b = refl
length-replicate (suc n) b = ap suc (length-replicate n b)

-- At the end of a sound writer's buffer an object is appended.
pub write_object-append :
    (bs : Bytes) (w : BinaryWriter)
    → IsSound w
    → w.index + length bs < 2 ^ 32
    → write_object bs w ≡ record { buffer = w.buffer ++ bs; index = w.index + length bs }
write_object-append bs w sound fits =
    unfold write_object resize copy_to in
    ground (
      arith,
      take_past (w.index + length bs) w.buffer (omega arith),
      length-append w.buffer (replicate (length bs) 0),
      length-replicate (length bs) 0,
      take-append_self w.buffer (replicate (length bs) 0),
      drop_all (w.buffer ++ replicate (length bs) 0) (length w.buffer + length bs),
      append-nil bs,
    )

-- A writer whose index is the size of its buffer.
abbrev at_end : Bytes → BinaryWriter
at_end s = record { buffer = s; index = length s }

write_object-at_end :
    (s bs : Bytes) → length s + length bs < 2 ^ 32 → write_object bs (at_end s) ≡ at_end (s ++ bs)
write_object-at_end s bs h =
    write_object-append bs (at_end s) (record { at_end = refl; fits = omega arith }) h
    ∙ ap (λ n. record { buffer = s ++ bs; index = n }) (sym (length-append s bs))

-- The header: two bytes behind the four of the swapped length.
abbrev header : Bytes → ℕ → Bytes
header size len = size ++ (reverse (le_bytes 4 len) ++ (0 ∷ 0 ∷ []))

write_object-clear :
    (a : Bytes) (w : BinaryWriter) → length a ≤ 8 → write_object a (clear w) ≡ at_end a
unfolding clear
write_object-clear a w h = write_object-at_end [] a (omega arith)

htons_zero : le_bytes 2 (byte_swap 2 0) ≡ 0 ∷ 0 ∷ []
unfolding le_bytes byte_swap le_value
htons_zero = refl

-- The three writes after `Clear`, the first one of `a`.
write_header :
    (a : Bytes) (len : ℕ) (w : BinaryWriter)
    → length a ≤ 8
    → write_object
        (le_bytes 2 (byte_swap 2 0))
        (write_object (le_bytes 4 (byte_swap 4 len)) (write_object a (clear w)))
      ≡ at_end (header a len)
write_header a len w h =
    ap (λ v. write_object zeros (write_object swapped v)) (write_object-clear a w (omega arith))
    ∙ ap (write_object zeros) (write_object-at_end a swapped (omega (arith, length-swapped)))
    ∙ write_object-at_end (a ++ swapped) zeros
        (omega (arith, length-append a swapped, length-swapped, length-le_bytes 2 (byte_swap 2 0)))
    ∙ ap at_end (append_assoc a swapped zeros)
    ∙ ap (λ t. at_end (a ++ (t ++ zeros))) (le_bytes-byte_swap 4 len)
    ∙ ap (λ t. at_end (a ++ (reverse (le_bytes 4 len) ++ t))) htons_zero
  where
    swapped : Bytes
    swapped = le_bytes 4 (byte_swap 4 len)

    zeros : Bytes
    zeros = le_bytes 2 (byte_swap 2 0)

    length-swapped : length swapped ≡ 4
    length-swapped = length-le_bytes 4 (byte_swap 4 len)

-- An object behind any bytes is read with its bytes swapped.
read_object-append :
    (front bs rest : Bytes)
    → length front + length bs < 2 ^ 32
    → read_object (length bs) (record { buffer = front ++ (bs ++ rest); index = length front })
      ≡ some (
        le_value (reverse bs),
        record { buffer = front ++ (bs ++ rest); index = length front + length bs },
      )
read_object-append front bs rest h =
    unfold read_object in
    ground (
      arith,
      length-append front (bs ++ rest),
      length-append bs rest,
      drop-append_self front (bs ++ rest),
      take-append_self bs rest,
    )

-- With exactly four bytes left `ReadInt32` refuses them, and `ReadData<int32_t>` reads them.
pub read_int32_at_end :
    (r : BinaryReader)
    → r.index + 4 ≡ length r.buffer
    → (read_int32 r ≡ none)
      × (read_object 4 r
          ≡ some (
            le_value (reverse (take 4 (drop r.index r.buffer))),
            record r { index = (r.index + 4) % 2 ^ 32 },
          ))
unfolding read_int32 read_object
read_int32_at_end r h = (ground arith, ground arith)

-- The two versions, with the width of the first field as `n`.
headed : ℕ → BinaryWriter → Bytes × BinaryWriter
headed n w =
    let start = header (le_bytes n (length w.buffer + 6)) (length w.buffer) in
    (start ++ w.buffer, at_end start)

write_header_fits :
    (n bound : ℕ) (w : BinaryWriter)
    → n ≤ 8
    → length w.buffer + 6 < bound
    → length w.buffer < 2 ^ 32
    → (let w' = write_object (le_bytes 2 (byte_swap 2 0)) (
          write_object
            (le_bytes 4 (byte_swap 4 (length w.buffer % 2 ^ 32)))
            (write_object (le_bytes n ((length w.buffer + 6) % bound)) (clear w))) in
        (w'.buffer ++ w.buffer, w'))
      ≡ headed n w
unfolding headed
write_header_fits n bound w small h fits = rw (
  mod-eq_of_lt h,
  mod-eq_of_lt fits,
  write_header (le_bytes n (length w.buffer + 6)) (length w.buffer) w
      (omega (arith, length-le_bytes n (length w.buffer + 6))),
)

frame-headed : (w : BinaryWriter) → length w.buffer + 6 < 2 ^ 32 → frame w ≡ headed 4 w
unfolding frame
frame-headed w h = write_header_fits 4 (2 ^ 32) w (omega arith) h (omega arith)

file_frame-headed : (w : BinaryWriter) → length w.buffer + 6 < 2 ^ 32 → file_frame w ≡ headed 8 w
unfolding file_frame
file_frame-headed w h = write_header_fits 8 (2 ^ 64) w (omega arith) (omega arith) (omega arith)

-- What a receiver makes of a frame `out` with a first field of `n` bytes for the message `s`: the
-- field counts the bytes behind it, the reader finds the length of the message behind the field,
-- and the message stands behind the header.
pub record IsFramed (n : ℕ) (s out : Bytes) : Type 0 where
  pub counts : length out ≡ n + le_value (take n out)
  pub sized :
      read_object 4 (record { buffer = out; index = n })
      ≡ some (length s, record { buffer = out; index = n + 4 })
  pub carries : drop (n + 6) out ≡ s

-- A first field `a` that counts, the swapped length, two bytes and the message.
parts-IsFramed :
    (n : ℕ) (a s : Bytes)
    → length a ≡ n
    → n ≤ 8
    → le_value a ≡ length s + 6
    → length s < 2 ^ 32
    → IsFramed n s (header a (length s) ++ s)
parts-IsFramed n a s width small value h = record {
  counts = ground (
    arith,
    append_assoc a (swapped ++ (0 ∷ 0 ∷ [])) s,
    take-append_self a ((swapped ++ (0 ∷ 0 ∷ [])) ++ s),
    length-append (header a (length s)) s,
    sizes,
  );
  sized =
      ap (λ t. read_object 4 (record { buffer = t; index = n })) regroup
      ∙ ground (
        arith,
        read_object-append a swapped (0 ∷ 0 ∷ s),
        four,
        reverse-reverse (le_bytes 4 (length s)),
        le_value-le_bytes 4 (length s),
        regroup,
      );
  carries = ground (arith, drop-append_self (header a (length s)) s, sizes);
}
  where
    swapped : Bytes
    swapped = reverse (le_bytes 4 (length s))

    four : length swapped ≡ 4
    four = length-reverse-le_bytes 4 (length s)

    sizes : length (header a (length s)) ≡ n + 6
    sizes =
        omega (
          arith,
          length-append a (swapped ++ (0 ∷ 0 ∷ [])),
          length-append swapped (0 ∷ 0 ∷ []),
          four,
        )

    regroup : header a (length s) ++ s ≡ a ++ (swapped ++ (0 ∷ 0 ∷ s))
    regroup =
        append_assoc a (swapped ++ (0 ∷ 0 ∷ [])) s
        ∙ ap (λ t. a ++ t) (append_assoc swapped (0 ∷ 0 ∷ []) s)

headed-IsFramed :
    (n : ℕ) (w : BinaryWriter)
    → n ≤ 8
    → length w.buffer + 6 < 256 ^ n
    → length w.buffer < 2 ^ 32
    → IsFramed n w.buffer (headed n w).0
unfolding headed
headed-IsFramed n w small h fits =
    parts-IsFramed n (le_bytes n (length w.buffer + 6)) w.buffer (length-le_bytes n _) small
      (le_value-le_bytes n _ h) fits

-- Both versions of `Send` frame every message whose length with 6 more fits 32 bits, with a first
-- field of 4 bytes in the chat server and of 8 in the file server.
pub frames-IsFramed :
    (w : BinaryWriter)
    → length w.buffer + 6 < 2 ^ 32
    → IsFramed 4 w.buffer (frame w).0 × IsFramed 8 w.buffer (file_frame w).0
frames-IsFramed w h = (
  rw (frame-headed w h) (headed-IsFramed 4 w (omega arith) (omega arith) (omega arith)),
  rw (file_frame-headed w h) (headed-IsFramed 8 w (omega arith) (omega arith) (omega arith)),
)
