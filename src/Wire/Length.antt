-- ===== src/Wire/Length.antt =====
-- The length in front of a string: what `Compress` writes, the loop of `ReadData(string&)` reads.
use sever_code.Prelude.{
  ℕ, zero, suc, ◌+◌, ◌-◌, ◌*◌, ◌/◌, ◌%◌, ◌^◌, ◌≤◌, ◌<◌, ◌≡◌, refl, sym, ap, ◌∙◌, arith,
}
use sever_code.Prelude.{inl, inr, [], ◌∷◌, ◌++◌, append-nil, append_assoc, Bytes, length}
use sever_code.Prelude.{ltb, ltb→lt, ◌==◌, if◌then◌else◌, true, false, Bool-cases}
use sever_code.Wire.Writer.{compress_byte, compress_loop, compress}
use sever_code.Wire.Reader.{scan}
use native.Mathlib.Nat.{div-add-mod, div-div-eq-div-mul, div-lt_iff_lt-mul, mod-eq_of_lt}
use native.Mathlib.Numerals.{towards_suc}

-- The weight of the group `i`.
abbrev weight : ℕ → ℕ
weight i = 2 ^ (7 * i)

weight-suc : (i : ℕ) → weight (suc i) ≡ weight i * 128
weight-suc i = rw mul_suc_seven (simp towards_suc (omega arith))
  where
    mul_suc_seven : 7 * suc i ≡ 7 * i + 7
    mul_suc_seven = omega arith

weight-pos : (i : ℕ) → 0 < weight i
weight-pos zero = omega arith
weight-pos (suc i) = omega (arith, weight-suc i, weight-pos i)

mod_split : (n p : ℕ) → n % (p * 128) ≡ (n / p % 128) * p + n % p
mod_split n p = omega (
  arith,
  div-add-mod n p,
  div-add-mod n (p * 128),
  ap (λ (t : ℕ). p * t) (div-add-mod (n / p) 128),
  ap (λ (t : ℕ). p * (128 * t)) (div-div-eq-div-mul n p 128),
)

-- The byte of the group `i`: the top bit says that more follow.
group : ℕ → ℕ → ℕ
group i len = let c = len / weight i % 128 in if ltb 0 i then c + 128 else c

-- The bytes of the groups below `i`, highest first.
groups : ℕ → ℕ → Bytes
groups zero len = []
groups (suc i) len = group i len ∷ groups i len

compress_byte-cons :
    (i len b : ℕ) (out : Bytes) → compress_byte i len (b ∷ out) ≡ b ∷ (out ++ (group i len ∷ []))
unfolding compress_byte group
compress_byte-cons i len b out = ground arith

compress_byte-zero : (i len : ℕ) → len / weight i % 128 ≡ 0 → compress_byte i len [] ≡ []
unfolding compress_byte
compress_byte-zero i len h = ground arith

compress_byte-first :
    (i len : ℕ) → 0 < len / weight i % 128 → compress_byte i len [] ≡ group i len ∷ []
unfolding compress_byte group
compress_byte-first i len h = ground arith

compress_loop-suc :
    (i len : ℕ) (out : Bytes)
    → compress_loop (suc i) len out ≡ compress_loop i len (compress_byte i len out)
compress_loop-suc i len out = unfold compress_loop in refl

groups-suc : (i len : ℕ) → groups (suc i) len ≡ group i len ∷ groups i len
groups-suc i len = unfold groups in refl

-- After the first byte every group is written.
compress_loop-groups :
    (i len b : ℕ) (out : Bytes) → compress_loop i len (b ∷ out) ≡ b ∷ (out ++ groups i len)
compress_loop-groups zero len b out =
    unfold compress_loop groups in ap (λ s. b ∷ s) (sym (append-nil out))
compress_loop-groups (suc i) len b out =
    compress_loop-suc i len (b ∷ out)
    ∙ ap (compress_loop i len) (compress_byte-cons i len b out)
    ∙ compress_loop-groups i len b (out ++ (group i len ∷ []))
    ∙ unfold groups in ap (λ s. b ∷ s) (append_assoc out (group i len ∷ []) (groups i len))

length-groups : (i len : ℕ) → length (groups i len) ≡ i
unfolding groups
length-groups zero len = refl
length-groups (suc i) len = ap suc (length-groups i len)

scan_last :
    (b : ℕ) (rest : Bytes) (j acc : ℕ)
    → b < 128
    → scan (b ∷ rest) j acc ≡ (j, (acc * 128 + b % 128) % 2 ^ 32)
unfolding scan
scan_last b rest j acc h = ground arith

scan_more :
    (b : ℕ) (rest : Bytes) (j acc : ℕ)
    → 128 ≤ b
    → scan (b ∷ rest) j acc ≡ scan rest (suc j) ((acc * 128 + b % 128) % 2 ^ 32)
unfolding scan
scan_more b rest j acc h = ground arith

group_zero : (len : ℕ) → group 0 len ≡ len % 128
unfolding group
group_zero len = ground arith

group-suc : (i len : ℕ) → group (suc i) len ≡ len / weight (suc i) % 128 + 128
unfolding group
group-suc i len = ground arith

-- Taking in the group `suc i` leaves the value that the groups from there on stand for.
digit_value :
    (i len acc : ℕ)
    → (acc * 128 + len / weight (suc i) % 128) * weight (suc i) + len % weight (suc i)
      ≡ acc * weight (suc (suc i)) + len % weight (suc (suc i))
digit_value i len acc = rw (weight-suc (suc i), mod_split len (weight (suc i))) (omega arith)

digit_fits :
    (i len acc : ℕ)
    → acc * weight (suc (suc i)) + len % weight (suc (suc i)) < 2 ^ 32
    → acc * 128 + len / weight (suc i) % 128 < 2 ^ 32
digit_fits i len acc fits =
    let d = acc * 128 + len / weight (suc i) % 128 in
    omega (arith, digit_value i len acc, mul_le (weight (suc i)) d (weight-pos (suc i)))
  where
    mul_le : (w d : ℕ) → 0 < w → d ≤ d * w
    mul_le w d h = grind arith

-- The groups are read back as the digits that follow `acc`.
scan-groups :
    (i len j acc : ℕ) (rest : Bytes)
    → acc * weight (suc i) + len % weight (suc i) < 2 ^ 32
    → scan (groups (suc i) len ++ rest) j acc ≡ (j + i, acc * weight (suc i) + len % weight (suc i))
scan-groups zero len j acc rest fits =
    rw (groups-suc, group_zero)
      (rw (scan_last (len % 128) (groups 0 len ++ rest) j acc (omega arith)) (ground arith))
scan-groups (suc i) len j acc rest fits =
    ap (λ s. scan (s ++ rest) j acc) (groups-suc (suc i) len)
    ∙ ap (λ b. scan (b ∷ (groups (suc i) len ++ rest)) j acc) (group-suc i len)
    ∙ scan_more (c + 128) (groups (suc i) len ++ rest) j acc (omega arith)
    ∙ ap (scan (groups (suc i) len ++ rest) (suc j)) (omega (arith, digit_fits i len acc fits))
    ∙ scan-groups i len (suc j) (acc * 128 + c) rest (omega (arith, digit_value i len acc))
    ∙ ground (arith, digit_value i len acc)
  where
    c : ℕ
    c = len / weight (suc i) % 128

-- A zero group at the top means that the groups below hold the whole length.
lt-weight_of_zero : (i len : ℕ) → len < weight (suc i) → len / weight i % 128 ≡ 0 → len < weight i
lt-weight_of_zero i len below zero_group =
    let small =
      (div-lt_iff_lt-mul {x = len} {y = 128} (weight-pos i)).1 (omega (arith, weight-suc i)) in
    let q : len / weight i ≡ 0 = omega arith in
    omega (arith, (div-lt_iff_lt-mul {x = len} {y = 1} (weight-pos i)).0 (omega arith))

-- What the loop writes with the length `len`: it is read back, in at most `i` bytes.
abbrev pub IsReadBack : ℕ → ℕ → Bytes → Bytes → Type 0
IsReadBack i len out rest =
    (scan (out ++ rest) 0 0 ≡ (length out - 1, len)) × (1 ≤ length out) × (length out ≤ i)

groups-IsReadBack :
    (i len : ℕ) (rest : Bytes)
    → len < weight (suc i)
    → len < 2 ^ 32
    → IsReadBack (suc i) len (groups (suc i) len) rest
groups-IsReadBack i len rest below fits = (
  scan-groups i len 0 0 rest (omega (arith, whole))
      ∙ ground (arith, whole, length-groups (suc i) len),
  omega (arith, length-groups (suc i) len),
  omega (arith, length-groups (suc i) len),
)
  where
    whole : len % weight (suc i) ≡ len
    whole = mod-eq_of_lt below

-- With no byte written yet the leading zero groups are left out.
compress_loop-IsReadBack :
    (i len : ℕ) (rest : Bytes)
    → 0 < len
    → len < weight i
    → len < 2 ^ 32
    → IsReadBack i len (compress_loop i len []) rest
compress_loop-IsReadBack zero len rest pos below fits = absurd (omega arith)
compress_loop-IsReadBack (suc i) len rest pos below fits =
    elim (Bool-cases (len / weight i % 128 == 0)) [
      | inl none_yet ↦
          rw
            (compress_loop-suc i len []
              ∙ ap (compress_loop i len) (compress_byte-zero i len (ground arith)))
            (let (r, lo, hi) =
                compress_loop-IsReadBack i len rest pos
                  (lt-weight_of_zero i len below (ground arith)) fits in
              (r, lo, omega arith))
      | inr first ↦
          rw
            (compress_loop-suc i len []
              ∙ ap (compress_loop i len) (compress_byte-first i len (ground arith))
              ∙ compress_loop-groups i len (group i len) []
              ∙ sym (groups-suc i len))
            (groups-IsReadBack i len rest below fits)
    ]

compress_short : (len : ℕ) → ltb len 128 ≡ true → compress len [] ≡ len ∷ []
compress_short len h = unfold compress in rw h

compress_long : (len : ℕ) → ltb len 128 ≡ false → compress len [] ≡ compress_loop 5 len []
compress_long len h = unfold compress in rw h

-- `Compress` writes one to five bytes, from which the reader's loop gets the length back.
pub compress-IsReadBack :
    (len : ℕ) (rest : Bytes) → len < 2 ^ 32 → IsReadBack 5 len (compress len []) rest
compress-IsReadBack len rest fits = elim (Bool-cases (ltb len 128)) [
  | inl short ↦
      rw (compress_short len short)
        (scan_last len rest 0 0 (ltb→lt len 128 short) ∙ ground arith, omega arith, omega arith)
  | inr long ↦
      rw (compress_long len long)
        (compress_loop-IsReadBack 5 len rest (ground arith) (omega arith) fits)
]
