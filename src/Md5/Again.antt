-- ===== src/Md5/Again.antt =====
-- MD5 over pieces, and what a call of `digest` does to the object.
use sever_code.Prelude.{
  ◌+◌, ◌-◌, ◌*◌, ◌/◌, ◌%◌, ◌^◌, ◌<◌, ◌≤◌, ◌≡◌, false, refl, sym, ap, ◌∙◌, arith, List, [], ◌∷◌,
  ◌++◌, append_assoc,
}
use sever_code.Prelude.{
  Bytes, All, length, take, replicate, length-append, length-take, take-append_eq, drop-append_eq,
  drop, ok, ◌>>=◌,
}
use mathlib.Core.Path.{subst}
use sever_code.Upload.Steps.{joined}
use sever_code.Wire.Words.{le_bytes}
use sever_code.Md5.{Md5, updates, digest, reset}
use sever_code.Md5.Padding.{pad, pad-split, length-pad_below}
use sever_code.Md5.Updated.{IsPiece, updates-Represents, reset-Represents, length-rest_mod}
use sever_code.Md5.Digested.{digest-md5_buffer, restored, bits, bits-le_bytes, length-padding}
use sever_code.Md5.Spec.{Represents, md5}

-- The text whose last bytes, those behind its whole blocks, are 56 zeros and the first bytes of the
-- number of bits.
unfoldable pub overwritten : Bytes → Bytes
overwritten s =
    take (length s - length s % 64) s
    ++ take (length s % 64) (replicate 56 0 ++ le_bytes 8 (length s * 8 % 2 ^ 64))

pub reset_going : (m : Md5) → (reset m).finished ≡ false
unfolding reset
reset_going m = refl

pub digest_md5 :
    (m : Md5) (s : Bytes)
    → Represents m s
    → m.finished ≡ false
    → (m' : Md5) × (digest m ≡ ok (md5 s, m'))
digest_md5 m s r going =
    let (_, done, _, e, _, _, _, _) = digest-md5_buffer m s r going in
    (restored m s r going done, e)

-- An object that is reset and fed a text in any pieces has the digest of the text, as RFC 1321
-- describes it. A piece has at most 2^32 - 64 bytes.
pub digest-updates :
    (m : Md5) (pieces : List Bytes)
    → length m.buffer ≡ 64
    → All IsPiece pieces
    → (m' : Md5) × ((updates pieces (reset m) >>= digest) ≡ ok (md5 (joined pieces), m'))
digest-updates m pieces full h =
    let (fed, r, ran, going) =
      updates-Represents (reset m) [] pieces (reset-Represents m full) (reset_going m) h in
    let (m', e) = digest_md5 fed (joined pieces) r going in (m', rw ran e)

suffix_eq : (a b x y : Bytes) → length x ≡ length y → a ++ x ≡ b ++ y → x ≡ y
suffix_eq a b x y h e =
    sym (drop-append_eq (length a) a x refl)
    ∙ ap (drop (length a)) e
    ∙ drop-append_eq (length a) b y
        (omega (arith, h, ap length e, length-append {0} a x, length-append {0} b y))

module _ (m : Md5) (s : Bytes) (r : Represents m s) (going : m.finished ≡ false) where
  length-text : length s ≡ length (joined r.blocks) + length r.rest
  length-text = omega (arith, ap length r.parts, length-append {0} (joined r.blocks) r.rest)

  -- Behind `digest` the object stands for the whole blocks of the text, and for what the buffer has
  -- in the place of the rest.
  restored-Represents :
      (done : Md5)
      → length done.buffer ≡ 64
      → Represents (restored m s r going done) (joined r.blocks ++ take (length r.rest) done.buffer)
  restored-Represents done full =
      let kept : length (take (length r.rest) done.buffer) ≡ length r.rest =
        omega (arith, length-take {0} (length r.rest) done.buffer, r.short) in
      let total : length s ≡ length (joined r.blocks ++ take (length r.rest) done.buffer) = omega (
        arith,
        kept,
        length-text,
        length-append {0} (joined r.blocks) (take (length r.rest) done.buffer),
      ) in
      record {
        blocks = r.blocks;
        rest = take (length r.rest) done.buffer;
        whole = r.whole;
        short = omega (arith, kept, r.short);
        parts = refl;
        state = r.state;
        low = r.low ∙ ap (λ n. n * 8 % 2 ^ 32) total;
        high = r.high ∙ ap (λ n. n * 8 / 2 ^ 32 % 2 ^ 32) total;
        pending = ap (λ k. take k done.buffer) kept;
        size = full;
      }

  pub digest-keeps :
      length s % 64 < 56
      → (m' : Md5) × Represents m' s × (digest m ≡ ok (md5 s, m')) × (m'.finished ≡ false)
  digest-keeps room =
      let (m', done, r', e, buffer, few, going', full) = digest-md5_buffer m s r going in
      let rest : r'.rest ≡ r.rest ++ pad (length s % 64) =
        few (omega (arith, length-rest_mod m s r, length-pad_below (length s % 64) room)) in
      let back : take (length r.rest) done.buffer ≡ r.rest =
        ap (take (length r.rest)) (
          buffer
          ∙ ap (λ t. t ++ bits m s r going) rest
          ∙ append_assoc r.rest (pad (length s % 64)) (bits m s r going))
        ∙ take-append_eq (length r.rest) r.rest _ refl in
      (
        restored m s r going done,
        subst (Represents (restored m s r going done))
            (ap (λ t. joined r.blocks ++ t) back ∙ sym r.parts) (restored-Represents done full),
        e,
        going',
      )

  pub digest-loses :
      56 ≤ length s % 64
      → (m' : Md5) × Represents m' (overwritten s)
        × (digest m ≡ ok (md5 s, m'))
        × (m'.finished ≡ false)
  unfolding overwritten
  digest-loses h =
      let (m', done, r', e, buffer, few, going', full) = digest-md5_buffer m s r going in
      let zeros : r'.rest ≡ replicate 56 0 =
        suffix_eq (joined r'.blocks) (s ++ (0x80 ∷ replicate (63 - length s % 64) 0)) r'.rest
          (replicate 56 0)
          (omega
            (arith, length-rest_mod m' (s ++ pad (length s % 64)) r', length-padding m s r going))
          (sym r'.parts
            ∙ ap (λ t. s ++ t) (pad-split (length s % 64) h (omega arith))
            ∙ sym (append_assoc s (0x80 ∷ replicate (63 - length s % 64) 0) (replicate 56 0))) in
      let front : joined r.blocks ≡ take (length s - length s % 64) s = sym (
        ap (take (length s - length s % 64)) r.parts
        ∙ take-append_eq (length s - length s % 64) (joined r.blocks) r.rest
            (omega (arith, length-text, length-rest_mod m s r))) in
      (
        restored m s r going done,
        subst (Represents (restored m s r going done))
            (ap (λ t. t ++ take (length r.rest) done.buffer) front
              ∙ ap (λ t. take (length s - length s % 64) s ++ take (length r.rest) t)
                  (buffer
                    ∙ ap (λ t. t ++ bits m s r going) zeros
                    ∙ ap (λ t. replicate 56 0 ++ t) (bits-le_bytes m s r going))
              ∙ ap
                  (λ n.
                    take (length s - length s % 64) s
                    ++ take n (replicate 56 0 ++ le_bytes 8 (length s * 8 % 2 ^ 64)))
                  (length-rest_mod m s r))
            (restored-Represents done full),
        e,
        going',
      )

-- So further pieces and a second call give the digest of all pieces.
pub digest-again :
    (m : Md5) (pieces more : List Bytes)
    → length m.buffer ≡ 64
    → All IsPiece pieces
    → All IsPiece more
    → length (joined pieces) % 64 < 56
    → (m' : Md5) × ((updates pieces (reset m) >>= λ fed.
          digest fed >>= λ first. updates more first.1 >>= digest)
        ≡ ok (md5 (joined pieces ++ joined more), m'))
digest-again m pieces more full h k room =
    let (fed, r, ran, going) =
      updates-Represents (reset m) [] pieces (reset-Represents m full) (reset_going m) h in
    let (first, r', e, going') = digest-keeps fed (joined pieces) r going room in
    let (m', r'', ran', going'') = updates-Represents first (joined pieces) more r' going' k in
    let (end, e') = digest_md5 m' (joined pieces ++ joined more) r'' going'' in
    (end, rw ran (rw e (rw ran' e')))

-- Otherwise a second call gives the digest of what `overwritten` makes of the text: the bytes behind
-- its whole blocks are replaced by 56 zeros and the first bytes of its number of bits. That is another
-- text but where the bytes were those.
pub digest-overwritten :
    (m : Md5) (pieces : List Bytes)
    → length m.buffer ≡ 64
    → All IsPiece pieces
    → 56 ≤ length (joined pieces) % 64
    → (m' : Md5) × ((updates pieces (reset m) >>= λ fed. digest fed >>= λ first. digest first.1)
        ≡ ok (md5 (overwritten (joined pieces)), m'))
digest-overwritten m pieces full h late =
    let (fed, r, ran, going) =
      updates-Represents (reset m) [] pieces (reset-Represents m full) (reset_going m) h in
    let (first, r', e, going') = digest-loses fed (joined pieces) r going late in
    let (end, e') = digest_md5 first (overwritten (joined pieces)) r' going' in
    (end, rw ran (rw e e'))
