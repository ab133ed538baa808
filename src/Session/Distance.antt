-- ===== src/Session/Distance.antt =====
-- `levenshteinDistance` of ClientSession.cpp, for texts of fewer than 2 ^ 32 bytes. The matrix is
-- the list of its rows; a row is filled from the row above it.
use sever_code.Prelude.{
  ℕ, suc, ◌+◌, ◌%◌, ◌^◌, ◌≤◌, ◌<◌, ◌≡◌, refl, sym, ap, ◌∙◌, arith, min, List, [], ◌∷◌,
}
use sever_code.Prelude.{Bytes, length, ◌==◌, if◌then◌else◌}

-- The cells of a row behind its first one: `a` is the byte of the row, `left` and `diagonal` are the
-- cells before and above before, `above` the rest of the row above.
unfoldable pub next_cells : ℕ → Bytes → ℕ → ℕ → List ℕ → List ℕ
next_cells a [] left diagonal above = []
next_cells a (b ∷ s₂) left diagonal [] = []
next_cells a (b ∷ s₂) left diagonal (up ∷ above) =
    let cell =
      min (min ((up + 1) % 2 ^ 32) ((left + 1) % 2 ^ 32))
        ((diagonal + (if a == b then 0 else 1)) % 2 ^ 32) in
    cell ∷ next_cells a s₂ cell up above

-- The rows from the row `i` with the cells `row`, one for each byte of `s1`: the last row.
unfoldable pub last_row : Bytes → Bytes → ℕ → List ℕ → List ℕ
unfolding next_cells
last_row [] s₂ i row = row
last_row (a ∷ s₁) s₂ i [] = []
last_row (a ∷ s₁) s₂ i (d ∷ row) = last_row s₁ s₂ (suc i) (suc i ∷ next_cells a s₂ (suc i) d row)

-- for (i = 1; i <= len2; ++i) d[0][i] = i
unfoldable pub count_from : ℕ → Bytes → List ℕ
count_from i [] = i ∷ []
count_from i (b ∷ s₂) = i ∷ count_from (suc i) s₂

unfoldable pub last_cell : List ℕ → ℕ
last_cell [] = 0
last_cell (d ∷ []) = d
last_cell (d ∷ e ∷ row) = last_cell (e ∷ row)

unfoldable pub levenshtein_distance : Bytes → Bytes → ℕ
unfolding last_row count_from last_cell
levenshtein_distance s₁ s₂ = last_cell (last_row s₁ s₂ 0 (count_from 0 s₂))

-- The edit distance of two texts, each given from its last byte to its first.
unfoldable pub edit : Bytes → Bytes → ℕ
edit [] q = length q
edit (a ∷ p) [] = suc (length p)
edit (a ∷ p) (b ∷ q) =
    min (min (edit p (b ∷ q) + 1) (edit (a ∷ p) q + 1)) (edit p q + (if a == b then 0 else 1))

-- `s` in the opposite order, in front of `q`.
unfoldable pub turned : Bytes → Bytes → Bytes
turned [] q = q
turned (b ∷ s) q = turned s (b ∷ q)

edit-le : (p q : Bytes) → edit p q ≤ length p + length q
unfolding edit
edit-le [] q = omega arith
edit-le (a ∷ p) [] = omega arith
edit-le (a ∷ p) (b ∷ q) = omega (arith, edit-le p (b ∷ q), edit-le (a ∷ p) q)

edit_none : (p : Bytes) → edit p [] ≡ length p
unfolding edit
edit_none [] = refl
edit_none (a ∷ p) = refl

-- The cells behind the first one of the row of the prefix `p`.
cells_behind : Bytes → Bytes → Bytes → List ℕ
cells_behind p q [] = []
cells_behind p q (b ∷ t) = edit p (b ∷ q) ∷ cells_behind p (b ∷ q) t

next_cells-cells_behind :
    (a : ℕ) (p q t : Bytes)
    → suc (length p) + (length q + length t) < 2 ^ 32
    → next_cells a t (edit (a ∷ p) q) (edit p q) (cells_behind p q t) ≡ cells_behind (a ∷ p) q t
unfolding next_cells cells_behind edit
next_cells-cells_behind a p q [] h = refl
next_cells-cells_behind a p q (b ∷ t) h =
    rw cell
      (ap (λ r. edit (a ∷ p) (b ∷ q) ∷ r) (next_cells-cells_behind a p (b ∷ q) t (omega arith)))
  where
    cell :
        min
          (min ((edit p (b ∷ q) + 1) % 2 ^ 32) ((edit (a ∷ p) q + 1) % 2 ^ 32))
          ((edit p q + (if a == b then 0 else 1)) % 2 ^ 32)
        ≡ edit (a ∷ p) (b ∷ q)
    cell = ground (arith, edit-le p (b ∷ q), edit-le (a ∷ p) q, edit-le p q)

count_from-cells_behind : (q t : Bytes) → count_from (length q) t ≡ length q ∷ cells_behind [] q t
unfolding count_from cells_behind edit
count_from-cells_behind q [] = refl
count_from-cells_behind q (b ∷ t) = ap (λ r. length q ∷ r) (count_from-cells_behind (b ∷ q) t)

-- The row of the prefix `p`.
row_of : Bytes → Bytes → List ℕ
row_of p t = length p ∷ cells_behind p [] t

last_row-row_of :
    (s t p : Bytes)
    → length s + (length p + length t) < 2 ^ 32
    → last_row s t (length p) (row_of p t) ≡ row_of (turned s p) t
unfolding last_row row_of turned
last_row-row_of [] t p h = refl
last_row-row_of (a ∷ s) t p h =
    ap (λ r. last_row s t (suc (length p)) (suc (length p) ∷ r)) next
    ∙ last_row-row_of s t (a ∷ p) (omega arith)
  where
    next :
        next_cells a t (suc (length p)) (length p) (cells_behind p [] t) ≡ cells_behind (a ∷ p) [] t
    next =
        ap (λ d. next_cells a t (suc (length p)) d (cells_behind p [] t)) (sym (edit_none p))
        ∙ ap (λ l. next_cells a t l (edit p []) (cells_behind p [] t)) (sym (edit_none (a ∷ p)))
        ∙ next_cells-cells_behind a p [] t (omega arith)

last_cell-cells_behind :
    (p q t : Bytes) → last_cell (edit p q ∷ cells_behind p q t) ≡ edit p (turned t q)
unfolding last_cell cells_behind turned
last_cell-cells_behind p q [] = refl
last_cell-cells_behind p q (b ∷ t) = last_cell-cells_behind p (b ∷ q) t

-- The matrix computes the edit distance, for texts of together fewer than 2 ^ 32 bytes: no cell
-- wraps around.
pub levenshtein_distance-edit :
    (s t : Bytes)
    → length s + length t < 2 ^ 32
    → levenshtein_distance s t ≡ edit (turned s []) (turned t [])
unfolding levenshtein_distance row_of
levenshtein_distance-edit s t h =
    ap (λ r. last_cell (last_row s t 0 r)) (count_from-cells_behind [] t)
    ∙ ap last_cell (last_row-row_of s t [] (omega arith))
    ∙ ap (λ d. last_cell (d ∷ cells_behind (turned s []) [] t)) (sym (edit_none (turned s [])))
    ∙ last_cell-cells_behind (turned s []) [] t
