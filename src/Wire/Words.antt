-- ===== src/Wire/Words.antt =====
-- Integers in memory on a little-endian host, and the byte swaps htonl and htons.
use sever_code.Prelude.{
  ℕ, zero, suc, ◌+◌, ◌*◌, ◌/◌, ◌%◌, ◌^◌, ◌<◌, ◌≡◌, refl, sym, ap, ◌∙◌, arith, ◌++◌, length-append,
}
use mathlib.Core.Path.{ap₂}
use native.Mathlib.Nat.{div-lt_iff_lt-mul, pow-suc}
use sever_code.Prelude.{[], ◌∷◌, Bytes, length, All}
use mathlib.Core.List.{reverse, reverse-cons}

-- The `n` bytes of the object that holds `x`.
unfoldable pub le_bytes : ℕ → ℕ → Bytes
le_bytes zero x = []
le_bytes (suc n) x = x % 256 ∷ le_bytes n (x / 256)

unfoldable pub le_value : Bytes → ℕ
le_value [] = 0
le_value (b ∷ bs) = b + 256 * le_value bs

abbrev pub IsByte : ℕ → Type 0
IsByte b = b < 256

pub length-le_bytes : (n x : ℕ) → length (le_bytes n x) ≡ n
unfolding le_bytes
length-le_bytes zero x = refl
length-le_bytes (suc n) x = ap suc (length-le_bytes n (x / 256))

pub le_bytes-IsByte : (n x : ℕ) → All IsByte (le_bytes n x)
unfolding le_bytes
le_bytes-IsByte zero x = tt
le_bytes-IsByte (suc n) x = (omega arith, le_bytes-IsByte n (x / 256))

-- An object of `n` bytes holds every number below 256 ^ n.
pub le_value-le_bytes : (n x : ℕ) → x < 256 ^ n → le_value (le_bytes n x) ≡ x
unfolding le_bytes le_value
le_value-le_bytes zero x h = omega arith
le_value-le_bytes (suc n) x h =
    omega
      (arith, le_value-le_bytes n (x / 256) ((div-lt_iff_lt-mul (omega arith)).1 (rw pow-suc at h)))

pub le_bytes-le_value : (bs : Bytes) → All IsByte bs → le_bytes (length bs) (le_value bs) ≡ bs
unfolding le_bytes le_value
le_bytes-le_value [] h = refl
le_bytes-le_value (b ∷ bs) (hb, hbs) =
    ap₂ (λ x y. x ∷ y) (omega arith)
      (ap (le_bytes (length bs)) (omega arith) ∙ le_bytes-le_value bs hbs)

-- htonl and htons: the bytes of an object of `n` bytes in the opposite order.
unfoldable pub byte_swap : ℕ → ℕ → ℕ
byte_swap n x = le_value (reverse (le_bytes n x))

length-reverse : (bs : Bytes) → length (reverse bs) ≡ length bs
length-reverse [] = refl
length-reverse (b ∷ bs) =
    ap length (reverse-cons b bs)
    ∙ length-append (reverse bs) (b ∷ [])
    ∙ omega (arith, length-reverse bs)

All-append : (s t : Bytes) → All IsByte s → All IsByte t → All IsByte (s ++ t)
All-append [] t h k = k
All-append (b ∷ s) t (h, hs) k = (h, All-append s t hs k)

reverse-IsByte : (bs : Bytes) → All IsByte bs → All IsByte (reverse bs)
reverse-IsByte [] h = tt
reverse-IsByte (b ∷ bs) (h, hs) =
    rw (reverse-cons b bs) (All-append (reverse bs) (b ∷ []) (reverse-IsByte bs hs) (h, tt))

-- The swapped number lies in memory as the bytes of the other, last one first.
pub le_bytes-byte_swap : (n x : ℕ) → le_bytes n (byte_swap n x) ≡ reverse (le_bytes n x)
unfolding byte_swap
le_bytes-byte_swap n x =
    ap (λ k. le_bytes k (le_value (reverse (le_bytes n x))))
      (sym (length-reverse _ ∙ length-le_bytes n x))
    ∙ le_bytes-le_value (reverse (le_bytes n x))
        (reverse-IsByte (le_bytes n x) (le_bytes-IsByte n x))

pub length-reverse-le_bytes : (n x : ℕ) → length (reverse (le_bytes n x)) ≡ n
length-reverse-le_bytes n x = length-reverse (le_bytes n x) ∙ length-le_bytes n x
