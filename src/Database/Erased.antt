-- ===== src/Database/Erased.antt =====
-- Erasing names one after the other leaves the entries that are not listed.
use sever_code.Prelude.{
  ◌≡◌, refl, sym, ap, ◌∙◌, arith, none, List, [], ◌∷◌, Bytes, same, keep, Bool-cases, inl, inr,
}
use sever_code.Prelude.{same→eq}
use sever_code.Database.Maps.{find, erase, Distinct, unlisted, listed}
use sever_code.Database.Schema.{Fields}

unfoldable pub erase_all : List Bytes → Fields → Fields
erase_all [] fields = fields
erase_all (n ∷ ns) fields = erase_all ns (erase n fields)

find-erase-none : (k n : Bytes) (m : Fields) → find k m ≡ none → find k (erase n m) ≡ none
unfolding find erase
find-erase-none k n [] h = refl
find-erase-none k n ((j, f) ∷ m) h = ground (arith, find-erase-none k n m)

erase-Distinct : (n : Bytes) (m : Fields) → Distinct m → Distinct (erase n m)
unfolding erase
erase-Distinct n [] d = tt
erase-Distinct n ((j, f) ∷ m) (fresh, d) = elim (Bool-cases (same j n)) [
  | inl e ↦ rw e d
  | inr e ↦ rw e (find-erase-none j n m fresh, erase-Distinct n m d)
]

unlisted-absent :
    (n : Bytes) (ns : List Bytes) (m : Fields)
    → find n m ≡ none
    → unlisted (n ∷ ns) m ≡ unlisted ns m
unfolding unlisted listed keep find
unlisted-absent n ns [] h = refl
unlisted-absent n ns ((j, f) ∷ m) h = ground (arith, unlisted-absent n ns m)

erase-unlisted :
    (n : Bytes) (ns : List Bytes) (m : Fields)
    → Distinct m
    → unlisted ns (erase n m) ≡ unlisted (n ∷ ns) m
unfolding erase unlisted listed keep
erase-unlisted n ns [] d = refl
erase-unlisted n ns ((j, f) ∷ m) (fresh, d) = elim (Bool-cases (same j n)) [
  | inl e ↦ rw e (sym (unlisted-absent n ns m (ap (λ k. find k m) (sym (same→eq j n e)) ∙ fresh)))
  | inr e ↦ rw e (ground (arith, erase-unlisted n ns m d))
]

keep_all : (m : Fields) → unlisted [] m ≡ m
unfolding unlisted listed keep
keep_all [] = refl
keep_all (e ∷ m) = ap (λ t. e ∷ t) (keep_all m)

pub erase_all-unlisted :
    (ns : List Bytes) (m : Fields) → Distinct m → erase_all ns m ≡ unlisted ns m
unfolding erase_all
erase_all-unlisted [] m d = sym (keep_all m)
erase_all-unlisted (n ∷ ns) m d =
    erase_all-unlisted ns (erase n m) (erase-Distinct n m d) ∙ erase-unlisted n ns m d
