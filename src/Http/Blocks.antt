-- ===== src/Http/Blocks.antt =====
-- The blocks that a file is sent in, joined again.
use sever_code.Prelude.{
  ℕ, zero, suc, ◌≤◌, ◌<◌, ◌≡◌, refl, ap, ◌∙◌, arith, true, [], ◌∷◌, ◌++◌, Bytes, append-nil,
}
use sever_code.Prelude.{length, take, drop, take-append-drop, length-drop, length-take, leb, ltb}
use sever_code.Prelude.{All, if◌then◌else◌, Bool-cases, inl, inr, leb→le}
use sever_code.Http.{blocks, file_blocks}
use sever_code.Upload.Steps.{joined}

-- A block of a file: not empty, and no longer than the buffer.
abbrev pub IsBlock : ℕ → Bytes → Type 0
IsBlock size b = (0 < length b) × (length b ≤ size)

ltb-suc : (n : ℕ) → ltb 0 (suc n) ≡ true
ltb-suc n = ground arith

module _ (size : ℕ) (wide : 0 < size) where
  -- What is left behind the full blocks.
  rest-joined : (s : Bytes) → joined (if ltb 0 (length s) then s ∷ [] else []) ≡ s
  unfolding joined
  rest-joined [] = refl
  rest-joined (c ∷ s) = rw (ltb-suc (length s)) (append-nil (c ∷ s))

  rest-IsBlock :
      (s : Bytes) → length s < size → All (IsBlock size) (if ltb 0 (length s) then s ∷ [] else [])
  rest-IsBlock [] h = tt
  rest-IsBlock (c ∷ s) h = rw (ltb-suc (length s)) ((omega arith, omega arith), tt)

  full-IsBlock : (s : Bytes) → size ≤ length s → IsBlock size (take size s)
  full-IsBlock s h = (omega (arith, length-take size s), omega (arith, length-take size s))

  blocks-joined : (fuel : ℕ) (s : Bytes) → length s < fuel → joined (blocks size fuel s) ≡ s
  unfolding blocks joined
  blocks-joined zero s h = elim h [ ]
  blocks-joined (suc fuel) s h = elim (Bool-cases (leb size (length s))) [
    | inl full ↦ rw full (
        ap (λ t. take size s ++ t)
          (blocks-joined fuel (drop size s)
            (omega (arith, length-drop size s, leb→le size (length s) full)))
        ∙ take-append-drop size s)
    | inr part ↦ rw part (rest-joined s)
  ]

  blocks-IsBlock : (fuel : ℕ) (s : Bytes) → All (IsBlock size) (blocks size fuel s)
  unfolding blocks
  blocks-IsBlock zero s = tt
  blocks-IsBlock (suc fuel) s = elim (Bool-cases (leb size (length s))) [
    | inl full ↦
        rw full (full-IsBlock s (leb→le size (length s) full), blocks-IsBlock fuel (drop size s))
    | inr part ↦ rw part (rest-IsBlock s (ground arith))
  ]

-- The blocks of a file are the file, and none is empty or longer than the buffer.
pub file_blocks-joined :
    (size : ℕ) (s : Bytes)
    → 0 < size
    → (joined (file_blocks size s) ≡ s) × All (IsBlock size) (file_blocks size s)
unfolding file_blocks
file_blocks-joined size s wide = (
  blocks-joined size wide (suc (length s)) s (omega arith),
  blocks-IsBlock size wide (suc (length s)) s,
)
