-- ===== src/Md5/Digested.antt =====
-- `digest`: what it returns, and what the object stands for behind it.
use sever_code.Prelude.{
  ℕ, ◌+◌, ◌*◌, ◌/◌, ◌%◌, ◌^◌, ◌<◌, ◌≡◌, refl, sym, ap, ◌∙◌, arith, true, false, [], ◌∷◌, ◌++◌,
}
use sever_code.Prelude.{Bytes, length, length-append, ok}
use mathlib.Core.Path.{subst}
use sever_code.Upload.Steps.{joined}
use sever_code.Wire.Words.{length-le_bytes, le_bytes}
use sever_code.Md5.{Md5, index_of, update, final, digest, initial}
use sever_code.Md5.Transform.{encode}
use sever_code.Md5.Count.{index_of-mod}
use sever_code.Md5.Blocks.{length-joined, absorb-fold_blocks}
use sever_code.Md5.Padding.{pad, length-pad, encode-count, padded-pad}
use sever_code.Md5.Updated.{update-Represents, length-rest_mod}
use sever_code.Md5.Spec.{Represents, md5, padded, words_of, absorb}

-- An object that has taken in the padded text holds the digest in its state.
Represents-md5 :
    (m : Md5) (s : Bytes)
    → Represents m (padded s)
    → length (padded s) % 64 ≡ 0
    → words_of m.state ≡ md5 s
unfolding md5
Represents-md5 m s r e = ap words_of (
    r.state
    ∙ sym (absorb-fold_blocks r.blocks r.rest initial r.whole)
    ∙ ap (λ t. absorb (length r.blocks) t initial) (sym r.parts)
    ∙ ap (λ n. absorb n (padded s) initial) {x = length r.blocks} {y = length (padded s) / 64}
        (omega (
          arith,
          ap length r.parts,
          length-append {0} (joined r.blocks) r.rest,
          length-joined r.blocks r.whole,
          r.short,
        )))

module _ (m : Md5) (s : Bytes) (r : Represents m s) (open_ : m.finished ≡ false) where
  busy : Md5
  busy = record m { finished = true }

  busy-Represents : Represents busy s
  unfolding busy
  busy-Represents = record {
    blocks = r.blocks;
    rest = r.rest;
    whole = r.whole;
    short = r.short;
    parts = r.parts;
    state = r.state;
    low = r.low;
    high = r.high;
    pending = r.pending;
    size = r.size;
  }

  abbrev pub at : ℕ
  at = length s % 64

  abbrev pub bits : Bytes
  bits = encode (m.low ∷ m.high ∷ [])

  pub bits-le_bytes : bits ≡ le_bytes 8 (length s * 8 % 2 ^ 64)
  bits-le_bytes = encode-count m.low m.high (length s) r.low r.high

  pub length-padding : length (s ++ pad at) % 64 ≡ 56
  length-padding =
      omega
        (arith, length-append {0} s (pad (length s % 64)), length-pad (length s % 64) (omega arith))

  all_padded : padded s ≡ (s ++ pad at) ++ bits
  all_padded = padded-pad s bits bits-le_bytes

  length-padded : length (padded s) % 64 ≡ 0
  length-padded = omega (
    arith,
    ap length all_padded,
    length-append {0} (s ++ pad at) bits,
    ap length bits-le_bytes,
    length-le_bytes 8 (length s * 8 % 2 ^ 64),
    length-padding,
  )

  index_of-at : index_of busy ≡ at
  unfolding busy
  index_of-at = index_of-mod busy (length s) r.low

  -- The object behind `final`.
  abbrev pub restored : Md5 → Md5
  restored done = record done {
    state = m.state;
    low = m.low;
    high = m.high;
    digest = words_of done.state;
  }

  digest-restored :
      (m' done : Md5)
      → update (pad at) busy ≡ ok m'
      → update bits m' ≡ ok done
      → digest m ≡ ok (words_of done.state, restored done)
  unfolding digest final words_of busy
  digest-restored m' done one two = rw open_ (rw index_of-at (rw one (rw two refl)))

  -- The digest is that of RFC 1321, and the buffer has what the padding left there.
  pub digest-md5_buffer :
      (m' done : Md5) × (r' : Represents m' (s ++ pad at)) × (digest m ≡ ok (md5 s, restored done))
      × (done.buffer ≡ r'.rest ++ bits)
      × (length r.rest + length (pad at) < 64 → r'.rest ≡ r.rest ++ pad at)
      × (done.finished ≡ false)
      × (length done.buffer ≡ 64)
  unfolding encode busy-Represents
  digest-md5_buffer =
      let (m', r', one, open', _, few) =
        update-Represents busy s (pad at) busy-Represents
          (omega (arith, length-pad at (omega arith))) in
      let (done, r'', two, open'', exact, _) =
        update-Represents m' (s ++ pad at) bits r' (omega arith) in
      (
        m',
        done,
        r',
        digest-restored m' done one two
            ∙ ap (λ out. ok (out, restored done))
                (Represents-md5 done s (subst (Represents done) (sym all_padded) r'')
                  length-padded),
        exact (omega (arith, length-rest_mod m' (s ++ pad at) r', length-padding)),
        few,
        open'',
        r''.size,
      )
