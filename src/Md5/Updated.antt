-- ===== src/Md5/Updated.antt =====
-- `update`: what the object stands for behind it.
use sever_code.Prelude.{
  ℕ, suc, ◌+◌, ◌-◌, ◌*◌, ◌/◌, ◌%◌, ◌^◌, ◌<◌, ◌≤◌, ◌≡◌, refl, sym, ap, ◌∙◌, arith, inl, inr, true,
  false, List, [], ◌∷◌, ◌++◌, append_assoc, append-nil,
}
use sever_code.Prelude.{
  Bytes, All, length, take, drop, length-append, length-take, length-drop, drop-all,
  take-append-drop, take-all, eq_of_length_zero, leb, leb→le, Bool-cases, ok,
}
use mathlib.Core.Path.{subst}
use sever_code.Upload.Steps.{joined}
use sever_code.Md5.{
  Md5, index_of, count_up, update, updates, update_fuel, reset, initial, blocks_fuel,
}
use sever_code.Md5.Count.{count_up-add, index_of-mod}
use sever_code.Md5.Copied.{copied, copy_at-copied, length-copied, take-copied, blocks_fuel-blocks}
use sever_code.Md5.Blocks.{length-joined, joined-append, All-append, fold_blocks-append}
use sever_code.Md5.Transform.{transform}
use sever_code.Md5.Spec.{Represents, IsBlock, fold_blocks}

regroup : (p q x y z : Bytes) → (p ++ q) ++ (x ++ (y ++ z)) ≡ (p ++ ((q ++ x) ++ y)) ++ z
regroup p q x y z = simp append_assoc

module _ (m : Md5) (s input : Bytes) (r : Represents m s) (wide : length input + 64 ≤ 2 ^ 32) where
  length-parts : length s ≡ 64 * length r.blocks + length r.rest
  length-parts = omega (
    arith,
    ap length r.parts,
    length-append {0} (joined r.blocks) r.rest,
    length-joined r.blocks r.whole,
  )

  index_of-rest : index_of m ≡ length r.rest
  index_of-rest = omega (arith, index_of-mod m (length s) r.low, length-parts, r.short)

  -- The input goes into the buffer.
  kept : Md5
  unfolding count_up
  kept = record (count_up (length input) m) { buffer = copied (length r.rest) input m.buffer }

  -- The first bytes of the input fill the buffer, which is a block then.
  first : Bytes
  first = take (64 - length r.rest) input

  filled : Bytes
  unfolding first
  filled = copied (length r.rest) first m.buffer

  length-first : leb (64 - length r.rest) (length input) ≡ true → length first ≡ 64 - length r.rest
  unfolding first
  length-first h = omega (arith, leb→le _ _ h, length-take {0} (64 - length r.rest) input)

  filled-block : leb (64 - length r.rest) (length input) ≡ true → filled ≡ r.rest ++ first
  unfolding filled
  filled-block h =
      ap (λ t. t ++ (first ++ drop (length r.rest + length first) m.buffer)) r.pending
      ∙ ap (λ t. r.rest ++ (first ++ t))
          (drop-all (length r.rest + length first) m.buffer
            (omega (arith, length-first h, r.size, r.short)))
      ∙ ap (λ t. r.rest ++ t) (append-nil first)

  kept-ok : leb (64 - length r.rest) (length input) ≡ false → update input m ≡ ok kept
  unfolding update update_fuel kept
  kept-ok h =
      rw (index_of-rest, h) (rw (copy_at-copied (length r.rest) input m.buffer (ground arith)) refl)

  kept-pending :
      leb (64 - length r.rest) (length input) ≡ false
      → take (length (r.rest ++ input)) (copied (length r.rest) input m.buffer) ≡ r.rest ++ input
  kept-pending h =
      ap (λ k. take k (copied (length r.rest) input m.buffer)) (length-append r.rest input)
      ∙ take-copied (length r.rest) input m.buffer r.size (ground arith)
      ∙ ap (λ t. t ++ input) r.pending

  kept-Represents : leb (64 - length r.rest) (length input) ≡ false → Represents kept (s ++ input)
  unfolding kept count_up
  kept-Represents h =
      let (low, high) = count_up-add m (length s) (length input) (omega arith) r.low r.high in
      let total = length-append {0} s input in
      record {
        blocks = r.blocks;
        rest = r.rest ++ input;
        whole = r.whole;
        short = ground (arith, length-append r.rest input);
        parts = ap (λ t. t ++ input) r.parts ∙ append_assoc (joined r.blocks) r.rest input;
        state = r.state;
        low = low ∙ ap (λ n. n * 8 % 2 ^ 32) (sym total);
        high = high ∙ ap (λ n. n * 8 / 2 ^ 32 % 2 ^ 32) (sym total);
        pending = kept-pending h;
        size = length-copied (length r.rest) input m.buffer r.size (ground arith);
      }

  -- The whole blocks behind it go into the state at once, and what is left goes into the buffer.
  module _ (h : leb (64 - length r.rest) (length input) ≡ true) (bs : List Bytes) (j : ℕ)
      (whole : All IsBlock bs) (parts : drop (64 - length r.rest) input ≡ joined bs ++ drop j input)
      (end : j ≤ length input) (last : length input < j + 64) where
    left : Bytes
    left = copied 0 (drop j input) filled

    passed : Md5
    unfolding count_up left
    passed = record (count_up (length input) m) {
      state = fold_blocks bs (transform filled m.state);
      buffer = left;
    }

    length-filled : length filled ≡ 64
    unfolding filled
    length-filled =
        length-copied (length r.rest) first m.buffer r.size (omega (arith, length-first h, r.short))

    passed-ok :
        blocks_fuel (suc (length input)) input (64 - length r.rest) (transform filled m.state)
          ≡ ok (j, fold_blocks bs (transform filled m.state))
        → update input m ≡ ok passed
    unfolding update update_fuel passed filled first
    passed-ok ran =
        rw (index_of-rest, h)
          (rw
            (copy_at-copied (length r.rest) first m.buffer (omega (arith, length-first h, r.short)))
            (rw ran (
              rw (copy_at-copied 0 (drop j input) filled (omega (arith, length-drop {0} j input)))
                refl)))

    all_parts : s ++ input ≡ joined (r.blocks ++ (filled ∷ bs)) ++ drop j input
    unfolding joined first
    all_parts =
        ap (λ x. x ++ input) r.parts
        ∙ ap (λ x. (joined r.blocks ++ r.rest) ++ x)
            (sym (take-append-drop (64 - length r.rest) input) ∙ ap (λ x. first ++ x) parts)
        ∙ regroup (joined r.blocks) r.rest first (joined bs) (drop j input)
        ∙ ap (λ x. x ++ drop j input)
            (ap (λ x. joined r.blocks ++ (x ++ joined bs)) (sym (filled-block h))
              ∙ sym (joined-append r.blocks (filled ∷ bs)))

    passed-Represents : Represents passed (s ++ input)
    unfolding passed count_up fold_blocks left
    passed-Represents =
        let (low, high) = count_up-add m (length s) (length input) (omega arith) r.low r.high in
        let total = length-append {0} s input in
        record {
          blocks = r.blocks ++ (filled ∷ bs);
          rest = drop j input;
          whole = All-append r.blocks (filled ∷ bs) r.whole (length-filled, whole);
          short = omega (arith, length-drop {0} j input);
          parts = all_parts;
          state =
              ap (λ x. fold_blocks bs (transform filled x)) r.state
              ∙ sym (fold_blocks-append r.blocks (filled ∷ bs) initial);
          low = low ∙ ap (λ n. n * 8 % 2 ^ 32) (sym total);
          high = high ∙ ap (λ n. n * 8 / 2 ^ 32 % 2 ^ 32) (sym total);
          pending =
              ap (λ k. take k left) (omega arith)
              ∙ take-copied 0 (drop j input) filled length-filled
                  (omega (arith, length-drop {0} j input));
          size =
              length-copied 0 (drop j input) filled length-filled
                (omega (arith, length-drop {0} j input));
        }

    passed-exact : length r.rest + length input ≡ 64 → passed.buffer ≡ r.rest ++ input
    unfolding passed left
    passed-exact e =
        ap (λ x. x ++ drop (0 + length x) filled) nothing_left
        ∙ filled-block h
        ∙ ap (λ x. r.rest ++ x) (unfold first in take-all (64 - length r.rest) input (omega arith))
      where
        nothing_left : drop j input ≡ []
        nothing_left = eq_of_length_zero (drop j input) (
            omega (
              arith,
              ap length parts,
              length-append {0} (joined bs) (drop j input),
              length-drop {0} (64 - length r.rest) input,
            ))

  -- Fewer than 2^32 - 64 bytes more are taken in. Where they fit into the buffer they stand in it
  -- behind the others.
  pub update-Represents :
      (m' : Md5) × (r' : Represents m' (s ++ input)) × (update input m ≡ ok m')
      × (m'.finished ≡ false)
      × (length r.rest + length input ≡ 64 → m'.buffer ≡ r.rest ++ input)
      × (length r.rest + length input < 64 → r'.rest ≡ r.rest ++ input)
  update-Represents = elim (Bool-cases (leb (64 - length r.rest) (length input))) [
    | inr h ↦ (
      kept,
      kept-Represents h,
      kept-ok h,
      (unfold kept count_up in refl),
      λ e. absurd (ground arith),
      λ e. (unfold kept-Represents in refl),
    )
    | inl h ↦
        let (bs, j, whole, parts, end, last, ran) =
          blocks_fuel-blocks (suc (length input)) input (64 - length r.rest)
            (transform filled m.state) (leb→le _ _ h) wide (omega arith) in
        (
          passed h bs j whole parts end last,
          passed-Represents h bs j whole parts end last,
          passed-ok h bs j whole parts end last ran,
          (unfold passed count_up in refl),
          passed-exact h bs j whole parts end last,
          λ e. absurd (ground arith),
        )
  ]

pub length-rest_mod : (m : Md5) (s : Bytes) (r : Represents m s) → length r.rest ≡ length s % 64
length-rest_mod m s r = omega (
  arith,
  ap length r.parts,
  length-append {0} (joined r.blocks) r.rest,
  length-joined r.blocks r.whole,
  r.short,
)

-- An input that the loop's `uint32` can run over.
abbrev pub IsPiece : Bytes → Type 0
IsPiece input = length input + 64 ≤ 2 ^ 32

pub updates-Represents :
    (m : Md5) (s : Bytes) (pieces : List Bytes)
    → Represents m s
    → m.finished ≡ false
    → All IsPiece pieces
    → (m' : Md5) × Represents m' (s ++ joined pieces)
      × (updates pieces m ≡ ok m')
      × (m'.finished ≡ false)
unfolding updates joined
updates-Represents m s [] r f h = (m, subst (Represents m) (sym (append-nil s)) r, refl, f)
updates-Represents m s (p ∷ pieces) r f (h, hs) =
    let (m', r', ran, f', _, _) = update-Represents m s p r h in
    let (m'', r'', ran', f'') = updates-Represents m' (s ++ p) pieces r' f' hs in
    (m'', subst (Represents m'') (append_assoc s p (joined pieces)) r'', rw ran ran', f'')

pub reset-Represents : (m : Md5) → length m.buffer ≡ 64 → Represents (reset m) []
unfolding reset fold_blocks joined
reset-Represents m h = record {
  blocks = [];
  rest = [];
  whole = tt;
  short = omega arith;
  parts = refl;
  state = refl;
  low = refl;
  high = refl;
  pending = refl;
  size = h;
}
