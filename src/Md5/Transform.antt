-- ===== src/Md5/Transform.antt =====
-- MD5::transform of FileServer/MD5.cpp: what one block of 64 bytes does to the four words of the state.
use Prim.Native.Nat.{bit_and, bit_or, bit_xor}
use sever_code.Prelude.{ℕ, ◌+◌, ◌-◌, ◌*◌, ◌/◌, ◌%◌, ◌^◌, none, some, List, [], ◌∷◌}
use sever_code.Prelude.{Bytes, get_elem?}

pub record Registers : Type 0 where
  pub a : ℕ
  pub b : ℕ
  pub c : ℕ
  pub d : ℕ

-- `~x` on a word of 32 bits.
abbrev bit_not : ℕ → ℕ
bit_not x = 2 ^ 32 - 1 - x

-- The macros F, G, H and I.
unfoldable pub mix_f : ℕ → ℕ → ℕ → ℕ
mix_f x y z = bit_or (bit_and x y) (bit_and (bit_not x) z)

unfoldable pub mix_g : ℕ → ℕ → ℕ → ℕ
mix_g x y z = bit_or (bit_and x z) (bit_and y (bit_not z))

unfoldable pub mix_h : ℕ → ℕ → ℕ → ℕ
mix_h x y z = bit_xor (bit_xor x y) z

unfoldable pub mix_i : ℕ → ℕ → ℕ → ℕ
mix_i x y z = bit_xor y (bit_or x (bit_not z))

-- ROTATE_LEFT: the two parts have no bit in common, so `|` is the sum.
unfoldable pub rotate_left : ℕ → ℕ → ℕ
rotate_left x n = x * 2 ^ n % 2 ^ 32 + x / 2 ^ (32 - n)

-- The macros FF, GG, HH and II, by the function that they mix the words with: the new value of `a`.
unfoldable pub mixed : (ℕ → ℕ → ℕ → ℕ) → ℕ → ℕ → ℕ → ℕ → ℕ → ℕ → ℕ → ℕ
unfolding rotate_left
mixed mix a b c d x s ac = (rotate_left ((a + (mix b c d + x + ac)) % 2 ^ 32) s + b) % 2 ^ 32

-- One line of transform: the register that it changes, which is the macro's first argument and
-- fixes the order of the others, the word of the block, the shift and the constant.
pub data Target : Type 0 where
  to_a to_b to_c to_d : Target

pub data Line : Type 0 where
  change : Target → ℕ → ℕ → ℕ → Line

abbrev word_at : ℕ → List ℕ → ℕ
word_at k x = elim (get_elem? x k) [ none ↦ 0 | some w ↦ w ]

unfoldable pub run_line : (ℕ → ℕ → ℕ → ℕ) → List ℕ → Line → Registers → Registers
unfolding mixed
run_line mix x (change to_a k s ac) r = record r {
  a = mixed mix r.a r.b r.c r.d (word_at k x) s ac;
}
run_line mix x (change to_d k s ac) r = record r {
  d = mixed mix r.d r.a r.b r.c (word_at k x) s ac;
}
run_line mix x (change to_c k s ac) r = record r {
  c = mixed mix r.c r.d r.a r.b (word_at k x) s ac;
}
run_line mix x (change to_b k s ac) r = record r {
  b = mixed mix r.b r.c r.d r.a (word_at k x) s ac;
}

unfoldable pub run_lines : (ℕ → ℕ → ℕ → ℕ) → List ℕ → List Line → Registers → Registers
unfolding run_line
run_lines mix x [] r = r
run_lines mix x (l ∷ lines) r = run_lines mix x lines (run_line mix x l r)

-- The lines of FF.
abbrev pub round_one : List Line
round_one =
    change to_a 0 7 0xd76aa478
    ∷ change to_d 1 12 0xe8c7b756
    ∷ change to_c 2 17 0x242070db
    ∷ change to_b 3 22 0xc1bdceee
    ∷ change to_a 4 7 0xf57c0faf
    ∷ change to_d 5 12 0x4787c62a
    ∷ change to_c 6 17 0xa8304613
    ∷ change to_b 7 22 0xfd469501
    ∷ change to_a 8 7 0x698098d8
    ∷ change to_d 9 12 0x8b44f7af
    ∷ change to_c 10 17 0xffff5bb1
    ∷ change to_b 11 22 0x895cd7be
    ∷ change to_a 12 7 0x6b901122
    ∷ change to_d 13 12 0xfd987193
    ∷ change to_c 14 17 0xa679438e
    ∷ change to_b 15 22 0x49b40821
    ∷ []

-- The lines of GG.
abbrev pub round_two : List Line
round_two =
    change to_a 1 5 0xf61e2562
    ∷ change to_d 6 9 0xc040b340
    ∷ change to_c 11 14 0x265e5a51
    ∷ change to_b 0 20 0xe9b6c7aa
    ∷ change to_a 5 5 0xd62f105d
    ∷ change to_d 10 9 0x2441453
    ∷ change to_c 15 14 0xd8a1e681
    ∷ change to_b 4 20 0xe7d3fbc8
    ∷ change to_a 9 5 0x21e1cde6
    ∷ change to_d 14 9 0xc33707d6
    ∷ change to_c 3 14 0xf4d50d87
    ∷ change to_b 8 20 0x455a14ed
    ∷ change to_a 13 5 0xa9e3e905
    ∷ change to_d 2 9 0xfcefa3f8
    ∷ change to_c 7 14 0x676f02d9
    ∷ change to_b 12 20 0x8d2a4c8a
    ∷ []

-- The lines of HH.
abbrev pub round_three : List Line
round_three =
    change to_a 5 4 0xfffa3942
    ∷ change to_d 8 11 0x8771f681
    ∷ change to_c 11 16 0x6d9d6122
    ∷ change to_b 14 23 0xfde5380c
    ∷ change to_a 1 4 0xa4beea44
    ∷ change to_d 4 11 0x4bdecfa9
    ∷ change to_c 7 16 0xf6bb4b60
    ∷ change to_b 10 23 0xbebfbc70
    ∷ change to_a 13 4 0x289b7ec6
    ∷ change to_d 0 11 0xeaa127fa
    ∷ change to_c 3 16 0xd4ef3085
    ∷ change to_b 6 23 0x4881d05
    ∷ change to_a 9 4 0xd9d4d039
    ∷ change to_d 12 11 0xe6db99e5
    ∷ change to_c 15 16 0x1fa27cf8
    ∷ change to_b 2 23 0xc4ac5665
    ∷ []

-- The lines of II.
abbrev pub round_four : List Line
round_four =
    change to_a 0 6 0xf4292244
    ∷ change to_d 7 10 0x432aff97
    ∷ change to_c 14 15 0xab9423a7
    ∷ change to_b 5 21 0xfc93a039
    ∷ change to_a 12 6 0x655b59c3
    ∷ change to_d 3 10 0x8f0ccc92
    ∷ change to_c 10 15 0xffeff47d
    ∷ change to_b 1 21 0x85845dd1
    ∷ change to_a 8 6 0x6fa87e4f
    ∷ change to_d 15 10 0xfe2ce6e0
    ∷ change to_c 6 15 0xa3014314
    ∷ change to_b 13 21 0x4e0811a1
    ∷ change to_a 4 6 0xf7537e82
    ∷ change to_d 11 10 0xbd3af235
    ∷ change to_c 2 15 0x2ad7d2bb
    ∷ change to_b 9 21 0xeb86d391
    ∷ []

-- `encode`: the bytes of the words, the lowest first.
unfoldable pub encode : List ℕ → Bytes
encode [] = []
encode (w ∷ words) =
    w % 256 ∷ (w / 2 ^ 8 % 256) ∷ (w / 2 ^ 16 % 256) ∷ (w / 2 ^ 24 % 256) ∷ encode words

-- `decode`: the words of the bytes; what `|` joins has no bit in common. Bytes come in fours.
unfoldable pub decode : Bytes → List ℕ
decode (p ∷ q ∷ r ∷ s ∷ input) = (p + q * 2 ^ 8 + r * 2 ^ 16 + s * 2 ^ 24) ∷ decode input
decode input = []

unfoldable pub transform : Bytes → Registers → Registers
unfolding run_lines decode mix_f mix_g mix_h mix_i
transform block r =
    let x = decode block in
    let r' = run_lines mix_i x round_four (
      run_lines mix_h x round_three
        (run_lines mix_g x round_two (run_lines mix_f x round_one r))) in
    record {
      a = (r.a + r'.a) % 2 ^ 32;
      b = (r.b + r'.b) % 2 ^ 32;
      c = (r.c + r'.c) % 2 ^ 32;
      d = (r.d + r'.d) % 2 ^ 32;
    }
