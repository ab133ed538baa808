-- ===== src/Md5/Copied.antt =====
-- memcpy into the buffer, and the loop over the whole blocks of the input.
use sever_code.Prelude.{
  ℕ, zero, suc, ◌+◌, ◌-◌, ◌%◌, ◌^◌, ◌<◌, ◌≤◌, ◌≡◌, refl, sym, ap, ◌∙◌, arith, inl, inr, List, [],
  ◌∷◌, ◌++◌, append_assoc,
}
use sever_code.Prelude.{
  Bytes, All, length, take, drop, length-append, length-take, length-drop, take-append_eq,
  drop-drop, take-append-drop, ltb, Bool-cases, ok,
}
use sever_code.Upload.Steps.{joined}
use sever_code.Md5.{copy_at, transform_at, blocks_fuel}
use sever_code.Md5.Transform.{Registers, transform}
use sever_code.Md5.Spec.{IsBlock, fold_blocks}

abbrev pub copied : ℕ → Bytes → Bytes → Bytes
copied i source buffer = take i buffer ++ (source ++ drop (i + length source) buffer)

pub copy_at-copied :
    (i : ℕ) (source buffer : Bytes)
    → i + length source ≤ 64
    → copy_at i source buffer ≡ ok (copied i source buffer)
unfolding copy_at
copy_at-copied i source buffer fits = ground arith

module _ (i : ℕ) (source buffer : Bytes) (full : length buffer ≡ 64)
    (fits : i + length source ≤ 64) where
  pub length-copied : length (copied i source buffer) ≡ 64
  length-copied = omega (
    arith,
    length-append {0} (take i buffer) (source ++ drop (i + length source) buffer),
    length-append {0} source (drop (i + length source) buffer),
    length-take {0} i buffer,
    length-drop {0} (i + length source) buffer,
  )

  pub take-copied : take (i + length source) (copied i source buffer) ≡ take i buffer ++ source
  take-copied =
      ap (take (i + length source)) (sym (append_assoc (take i buffer) source _))
      ∙ take-append_eq (i + length source) (take i buffer ++ source) _
          (omega (arith, length-append {0} (take i buffer) source, length-take {0} i buffer))

pub transform_at-ok :
    (input : Bytes) (i : ℕ) (r : Registers)
    → i + 64 ≤ length input
    → transform_at input i r ≡ ok (transform (take 64 (drop i input)) r)
unfolding transform_at
transform_at-ok input i r h = ground arith

-- The loop takes whole blocks off the input until fewer than 64 bytes are left.
pub blocks_fuel-blocks :
    (fuel : ℕ) (input : Bytes) (i : ℕ) (r : Registers)
    → i ≤ length input
    → length input + 64 ≤ 2 ^ 32
    → length input - i < fuel
    → (bs : List Bytes) × (j : ℕ) × All IsBlock bs
      × (drop i input ≡ joined bs ++ drop j input)
      × (j ≤ length input)
      × (length input < j + 64)
      × (blocks_fuel fuel input i r ≡ ok (j, fold_blocks bs r))
unfolding blocks_fuel joined fold_blocks
blocks_fuel-blocks zero input i r low wide enough = absurd (omega arith)
blocks_fuel-blocks (suc fuel) input i r low wide enough =
    elim (Bool-cases (ltb ((i + 63) % 2 ^ 32) (length input))) [
      | inl more ↦
          let here : i + 64 ≤ length input = ground arith in
          let b = take 64 (drop i input) in
          let (bs, j, whole, parts, end, last, ran) =
            blocks_fuel-blocks fuel input (i + 64) (transform b r) here wide (omega arith) in
          (
            b ∷ bs,
            j,
            (omega (arith, length-take {0} 64 (drop i input), length-drop {0} i input), whole),
            sym (take-append-drop 64 (drop i input))
                ∙ ap (λ t. b ++ t) (sym (drop-drop i 64 input) ∙ parts)
                ∙ sym (append_assoc b (joined bs) (drop j input)),
            end,
            last,
            rw (more, blocks_fuel)
                (rw (transform_at-ok input i r here)
                  (ap (λ k. blocks_fuel fuel input k (transform b r)) (omega arith) ∙ ran)),
          )
      | inr last ↦ ([], i, tt, refl, low, ground arith, rw (last, blocks_fuel) refl)
    ]
