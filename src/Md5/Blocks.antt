-- ===== src/Md5/Blocks.antt =====
-- Texts in blocks of 64 bytes.
use sever_code.Prelude.{◌*◌, ◌≡◌, refl, sym, ap, ◌∙◌, arith, List, [], ◌∷◌, ◌++◌, append_assoc}
use sever_code.Prelude.{
  Bytes, All, length, take, drop, length-append, take-append_eq, drop-append_eq,
}
use sever_code.Upload.Steps.{joined}
use sever_code.Md5.Transform.{Registers, transform}
use sever_code.Md5.Spec.{IsBlock, fold_blocks, absorb}

pub length-joined : (bs : List Bytes) → All IsBlock bs → length (joined bs) ≡ 64 * length bs
unfolding joined
length-joined [] h = omega arith
length-joined (b ∷ bs) (h, hs) = omega (arith, length-append {0} b (joined bs), length-joined bs hs)

pub joined-append : (bs cs : List Bytes) → joined (bs ++ cs) ≡ joined bs ++ joined cs
unfolding joined
joined-append [] cs = refl
joined-append (b ∷ bs) cs =
    ap (λ t. b ++ t) (joined-append bs cs) ∙ sym (append_assoc b (joined bs) (joined cs))

pub All-append : (bs cs : List Bytes) → All IsBlock bs → All IsBlock cs → All IsBlock (bs ++ cs)
All-append [] cs h k = k
All-append (b ∷ bs) cs (h, hs) k = (h, All-append bs cs hs k)

pub fold_blocks-append :
    (bs cs : List Bytes) (r : Registers)
    → fold_blocks (bs ++ cs) r ≡ fold_blocks cs (fold_blocks bs r)
unfolding fold_blocks
fold_blocks-append [] cs r = refl
fold_blocks-append (b ∷ bs) cs r = fold_blocks-append bs cs (transform b r)

-- The reference takes the same blocks off the text.
pub absorb-fold_blocks :
    (bs : List Bytes) (t : Bytes) (r : Registers)
    → All IsBlock bs
    → absorb (length bs) (joined bs ++ t) r ≡ fold_blocks bs r
unfolding absorb fold_blocks joined
absorb-fold_blocks [] t r h = refl
absorb-fold_blocks (b ∷ bs) t r (h, hs) =
    ap (λ x. absorb (length bs) (drop 64 x) (transform (take 64 x) r))
      (append_assoc b (joined bs) t)
    ∙ ap (λ x. absorb (length bs) x (transform (take 64 (b ++ (joined bs ++ t))) r))
        (drop-append_eq 64 b (joined bs ++ t) h)
    ∙ ap (λ x. absorb (length bs) (joined bs ++ t) (transform x r))
        (take-append_eq 64 b (joined bs ++ t) h)
    ∙ absorb-fold_blocks bs t (transform b r) hs
