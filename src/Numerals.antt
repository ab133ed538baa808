-- ===== src/Numerals.antt =====
-- Numbers as text: std::to_string on a number that is not negative, std::hex on a stream, and the
-- number that a client reads off the front of a text in either base.
use sever_code.Prelude.{ℕ, zero, suc, ◌+◌, ◌-◌, ◌*◌, ◌/◌, ◌%◌, ◌≤◌, ◌<◌, ◌≡◌, refl, ap, ◌∙◌, arith}
use sever_code.Prelude.{true, false, ◌&&◌, Option, none, some, [], ◌∷◌, ◌++◌, append_assoc, Bytes}
use sever_code.Prelude.{ltb, leb, if◌then◌else◌, Bool-cases, inl, inr}

unfoldable pub symbol : ℕ → ℕ
symbol d = if ltb d 10 then b'0' + d else b'a' + (d - 10)

unfoldable pub digits : ℕ → ℕ → ℕ → Bytes
unfolding symbol
digits base zero n = []
digits base (suc fuel) n = elim (ltb n base) [
  | true ↦ symbol n ∷ []
  | false ↦ digits base fuel (n / base) ++ (symbol (n % base) ∷ [])
]

-- A number has fewer digits than one more than itself.
unfoldable pub decimal : ℕ → Bytes
unfolding digits
decimal n = digits 10 (suc n) n

unfoldable pub hex : ℕ → Bytes
unfolding digits
hex n = digits 16 (suc n) n

-- The value of a digit.
unfoldable pub digit_of : ℕ → ℕ → Option ℕ
digit_of base c =
    if leb b'0' c && leb c b'9'
    then some (c - b'0')
    else if leb b'a' c && ltb c (b'a' + (base - 10))
    then some (c - b'a' + 10)
    else none

-- The number that the first digits give behind `acc`, and the text behind them.
unfoldable pub read_digits : ℕ → ℕ → Bytes → ℕ × Bytes
unfolding digit_of
read_digits base acc [] = (acc, [])
read_digits base acc (c ∷ s) = elim (digit_of base c) [
  | none ↦ (acc, c ∷ s)
  | some d ↦ read_digits base (acc * base + d) s
]

-- What the proofs need of 10 and of 16.
pub record IsBase (base : ℕ) : Type 0 where
  pub ten : 10 ≤ base
  pub sixteen : base ≤ 16
  pub split : (n : ℕ) → (n / base) * base + n % base ≡ n
  pub below : (n : ℕ) → n % base < base
  pub smaller : (n : ℕ) → base ≤ n → n / base < n

pub ten-IsBase : IsBase 10
ten-IsBase = record {
  ten = omega arith;
  sixteen = omega arith;
  split = λ n. omega arith;
  below = λ n. omega arith;
  smaller = λ n h. omega arith;
}

pub sixteen-IsBase : IsBase 16
sixteen-IsBase = record {
  ten = omega arith;
  sixteen = omega arith;
  split = λ n. omega arith;
  below = λ n. omega arith;
  smaller = λ n h. omega arith;
}

digit_of-symbol :
    (base d : ℕ) → 10 ≤ base → base ≤ 16 → d < base → digit_of base (symbol d) ≡ some d
unfolding digit_of symbol
digit_of-symbol base d ten sixteen h = ground arith

module _ (base : ℕ) (b : IsBase base) where
  read_digits-symbol :
      (acc d : ℕ) (rest : Bytes)
      → d < base
      → read_digits base acc (symbol d ∷ rest) ≡ read_digits base (acc * base + d) rest
  unfolding read_digits
  read_digits-symbol acc d rest h = rw (digit_of-symbol base d b.ten b.sixteen h, read_digits) refl

  digits-small : (fuel n : ℕ) → ltb n base ≡ true → digits base (suc fuel) n ≡ symbol n ∷ []
  unfolding digits
  digits-small fuel n h = rw (h, digits) refl

  digits-large :
      (fuel n : ℕ)
      → ltb n base ≡ false
      → digits base (suc fuel) n ≡ digits base fuel (n / base) ++ (symbol (n % base) ∷ [])
  unfolding digits
  digits-large fuel n h = rw (h, digits) refl

  -- Reading what is printed, with enough digits, gives the number back.
  pub read_digits-digits :
      (fuel n : ℕ) (rest : Bytes)
      → n < fuel
      → read_digits base 0 (digits base fuel n ++ rest) ≡ read_digits base n rest
  read_digits-digits zero n rest h = elim h [ ]
  read_digits-digits (suc fuel) n rest h = elim (Bool-cases (ltb n base)) [
    | inl small ↦
        ap (λ s. read_digits base 0 (s ++ rest)) (digits-small fuel n small)
        ∙ read_digits-symbol 0 n rest (ground arith)
        ∙ ap (λ k. read_digits base k rest) (omega arith)
    | inr large ↦
        ap (λ s. read_digits base 0 (s ++ rest)) (digits-large fuel n large)
        ∙ ap (read_digits base 0)
            (append_assoc (digits base fuel (n / base)) (symbol (n % base) ∷ []) rest)
        ∙ read_digits-digits fuel (n / base) (symbol (n % base) ∷ rest)
            (omega (arith, b.smaller n (ground arith)))
        ∙ read_digits-symbol (n / base) (n % base) rest (b.below n)
        ∙ ap (λ k. read_digits base k rest) (b.split n)
  ]

-- A byte that is no digit in either base ends the number.
read_digits-stop :
    (base n c : ℕ) (rest : Bytes)
    → digit_of base c ≡ none
    → read_digits base n (c ∷ rest) ≡ (n, c ∷ rest)
unfolding read_digits
read_digits-stop base n c rest h = rw (h, read_digits) refl

pub read_digits-decimal :
    (n c : ℕ) (rest : Bytes)
    → digit_of 10 c ≡ none
    → read_digits 10 0 (decimal n ++ (c ∷ rest)) ≡ (n, c ∷ rest)
unfolding decimal
read_digits-decimal n c rest h =
    read_digits-digits 10 ten-IsBase (suc n) n (c ∷ rest) (omega arith)
    ∙ read_digits-stop 10 n c rest h

pub read_digits-hex :
    (n c : ℕ) (rest : Bytes)
    → digit_of 16 c ≡ none
    → read_digits 16 0 (hex n ++ (c ∷ rest)) ≡ (n, c ∷ rest)
unfolding hex
read_digits-hex n c rest h =
    read_digits-digits 16 sixteen-IsBase (suc n) n (c ∷ rest) (omega arith)
    ∙ read_digits-stop 16 n c rest h

-- The value in base 16 of the digits of a number in base 10.
misread : ℕ → ℕ → ℕ
misread zero n = 0
misread (suc fuel) n = elim (ltb n 10) [ true ↦ n | false ↦ misread fuel (n / 10) * 16 + n % 10 ]

misread-ge : (fuel n : ℕ) → n < fuel → n ≤ misread fuel n
unfolding misread
misread-ge zero n h = elim h [ ]
misread-ge (suc fuel) n h = ground (arith, misread-ge fuel (n / 10))

misread-gt : (fuel n : ℕ) → n < fuel → 10 ≤ n → n < misread fuel n
unfolding misread
misread-gt zero n h k = elim h [ ]
misread-gt (suc fuel) n h k = ground (arith, misread-ge fuel (n / 10))

read_digits-misread :
    (fuel n : ℕ) (rest : Bytes)
    → n < fuel
    → read_digits 16 0 (digits 10 fuel n ++ rest) ≡ read_digits 16 (misread fuel n) rest
unfolding misread
read_digits-misread zero n rest h = elim h [ ]
read_digits-misread (suc fuel) n rest h = elim (Bool-cases (ltb n 10)) [
  | inl small ↦
      ap (λ s. read_digits 16 0 (s ++ rest)) (digits-small 10 ten-IsBase fuel n small)
      ∙ read_digits-symbol 16 sixteen-IsBase 0 n rest (ground arith)
      ∙ ap (λ k. read_digits 16 k rest) (rw (small, misread) (omega arith))
  | inr large ↦
      ap (λ s. read_digits 16 0 (s ++ rest)) (digits-large 10 ten-IsBase fuel n large)
      ∙ ap (read_digits 16 0) (append_assoc (digits 10 fuel (n / 10)) (symbol (n % 10) ∷ []) rest)
      ∙ read_digits-misread fuel (n / 10) (symbol (n % 10) ∷ rest) (ground arith)
      ∙ read_digits-symbol 16 sixteen-IsBase (misread fuel (n / 10)) (n % 10) rest (omega arith)
      ∙ ap (λ k. read_digits 16 k rest) (rw (large, misread) refl)
]

-- A number of two digits or more that is printed in base 10 and read in base 16 comes out larger.
pub read_digits-decimal_gt :
    (n c : ℕ) (rest : Bytes)
    → 10 ≤ n
    → digit_of 16 c ≡ none
    → n < (read_digits 16 0 (decimal n ++ (c ∷ rest))).0
unfolding decimal
read_digits-decimal_gt n c rest h k =
    rw (read_digits-misread (suc n) n (c ∷ rest) (omega arith))
      (rw (read_digits-stop 16 (misread (suc n) n) c rest k) (misread-gt (suc n) n (omega arith) h))
