-- ===== src/Md5/Padding.antt =====
-- What `final` puts behind the text is the padding of RFC 1321.
use sever_code.Prelude.{
  ℕ, zero, suc, ◌+◌, ◌-◌, ◌*◌, ◌/◌, ◌%◌, ◌^◌, ◌<◌, ◌≤◌, ◌≡◌, refl, sym, ap, ◌∙◌, arith, [], ◌∷◌,
  ◌++◌, append_assoc,
}
use sever_code.Prelude.{Bytes, length, take, replicate, ltb, if◌then◌else◌, suc_add}
use sever_code.Wire.Words.{le_bytes}
use sever_code.Md5.{padding}
use sever_code.Md5.Transform.{encode}
use sever_code.Md5.Spec.{padded}

pub take-replicate : (n k b : ℕ) → n ≤ k → take n (replicate k b) ≡ replicate n b
take-replicate zero k b h = refl
take-replicate (suc n) zero b h = absurd (omega arith)
take-replicate (suc n) (suc k) b h = ap (λ s. b ∷ s) (take-replicate n k b (omega arith))

pub replicate-add : (n k b : ℕ) → replicate (n + k) b ≡ replicate n b ++ replicate k b
replicate-add zero k b = ap (λ i. replicate i b) (omega arith)
replicate-add (suc n) k b =
    ap (λ i. replicate i b) (suc_add n k) ∙ ap (λ s. b ∷ s) (replicate-add n k b)

pub length-replicate : (n b : ℕ) → length (replicate n b) ≡ n
length-replicate zero b = refl
length-replicate (suc n) b = ap suc (length-replicate n b)

-- The first update of `final` at a position in the buffer.
abbrev pub pad_len : ℕ → ℕ
pad_len index = if ltb index 56 then 56 - index else 120 - index

abbrev pub pad : ℕ → Bytes
pad index = take (pad_len index) padding

pub pad-zeros : (index : ℕ) → index < 64 → pad index ≡ 0x80 ∷ replicate ((119 - index) % 64) 0
pad-zeros index h =
    ap (λ k. take k padding) {y = suc ((119 - index) % 64)} (ground arith)
    ∙ ap (λ s. 0x80 ∷ s) (take-replicate ((119 - index) % 64) 63 0 (omega arith))

pub length-pad : (index : ℕ) → index < 64 → length (pad index) ≡ suc ((119 - index) % 64)
length-pad index h =
    ap length (pad-zeros index h) ∙ ap suc (length-replicate ((119 - index) % 64) 0)

-- Where the buffer has no room for the count, 56 of the zeros go into the next block.
pub pad-split :
    (index : ℕ)
    → 56 ≤ index
    → index < 64
    → pad index ≡ (0x80 ∷ replicate (63 - index) 0) ++ replicate 56 0
pad-split index h k =
    pad-zeros index k
    ∙ ap (λ i. 0x80 ∷ replicate i 0) (omega arith)
    ∙ ap (λ s. 0x80 ∷ s) (replicate-add (63 - index) 56 0)

-- The two words of the count are the eight bytes of the number of bits.
pub encode-count :
    (low high n : ℕ)
    → low ≡ n * 8 % 2 ^ 32
    → high ≡ n * 8 / 2 ^ 32 % 2 ^ 32
    → encode (low ∷ high ∷ []) ≡ le_bytes 8 (n * 8 % 2 ^ 64)
unfolding encode le_bytes
encode-count low high n p q = ground arith

pub padded-pad :
    (s bits : Bytes)
    → bits ≡ le_bytes 8 (length s * 8 % 2 ^ 64)
    → padded s ≡ (s ++ pad (length s % 64)) ++ bits
unfolding padded
padded-pad s bits e =
    ap (λ t. s ++ (0x80 ∷ (replicate ((119 - length s % 64) % 64) 0 ++ t))) (sym e)
    ∙ ap (λ t. s ++ (t ++ bits)) (sym (pad-zeros (length s % 64) (omega arith)))
    ∙ sym (append_assoc s (pad (length s % 64)) bits)

pub length-pad_below : (index : ℕ) → index < 56 → length (pad index) ≡ 56 - index
length-pad_below index h = omega (arith, length-pad index (omega arith))
