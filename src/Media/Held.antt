-- ===== src/Media/Held.antt =====
-- What the two streaming functions give back.
use sever_code.Prelude.{
  ℕ, suc, zero, ◌≡◌, refl, sym, ap, ◌∙◌, Bool, true, false, List, [], ◌∷◌, Bytes, ltb, All,
  if◌then◌else◌, Outcome, ok, ◌>>=◌,
}
use mathlib.Core.Path.{subst}
use sever_code.Media.{
  FfmpegLib, Resource, input, output, io_context, Streaming, acquire, release, give_back, is_same,
  write_packets, open_media, copy_streams, interleave, send_packets, send_media, on_stream_media,
}

-- The call returns a value for which P holds.
unfoldable pub Returns : {A : Type 0} → (A → Type 0) → Outcome A → Type 0
Returns {A} P o = (a : A) × (o ≡ ok a) × P a

pub Returns-ok : {A : Type 0} (P : A → Type 0) (a : A) → P a → Returns P (ok a)
unfolding Returns
Returns-ok P a h = (a, refl, h)

Returns-bind :
    {A B : Type 0} (Q : A → Type 0) (P : B → Type 0) (m : Outcome A) (f : A → Outcome B)
    → Returns Q m
    → ((a : A) → Q a → Returns P (f a))
    → Returns P (m >>= f)
unfolding Returns
Returns-bind Q P m f (a, e, q) next = let (b, e', p) = next a q in (b, ap (λ o. o >>= f) e ∙ e', p)

pub Returns-if :
    {A : Type 0} (P : A → Type 0) (b : Bool) (x y : Outcome A)
    → Returns P x
    → Returns P y
    → Returns P (if b then x else y)
Returns-if P true x y h k = h
Returns-if P false x y h k = k

-- These are the resources that are held.
unfoldable pub Holds : {S : Type 0} → List Resource → Streaming S → Type 0
Holds l m = m.held ≡ l

pub Returns-held :
    {S A : Type 0} (P : A → Type 0) (f : Streaming S → Outcome A) (m : Streaming S)
    (l : List Resource)
    → Holds l m
    → Returns P (f (record m { held = l }))
    → Returns P (f m)
unfolding Holds
Returns-held P f m l h = subst (λ x. Returns P (f x)) (ap (λ k. record m { held = k }) (sym h))

module _ (L : FfmpegLib) where
  -- After the common part the input is held exactly if it goes on.
  Begun : List Resource → Bool × Streaming L.State → Type 0
  Begun l x = x.1.held ≡ (if x.0 then input ∷ l else l)

  open_media-Begun :
      (file_path : Bytes) (m : Streaming L.State)
      → Returns (Begun m.held) (open_media L file_path m)
  unfolding open_media acquire release give_back is_same Begun
  open_media-Begun file_path m =
      Returns-if _ _ _ _ (Returns-if _ _ _ _ (Returns-ok _ _ refl) (Returns-ok _ _ refl))
        (Returns-ok _ _ refl)

  interleave-Holds :
      (n : ℕ) (is : List ℕ) (m : Streaming L.State)
      → All (λ i. ltb i n ≡ true) is
      → Returns (Holds m.held) (interleave L n is m)
  unfolding interleave acquire release give_back is_same write_packets Holds
  interleave-Holds n [] m h = Returns-ok _ m refl
  interleave-Holds n (i ∷ is) m h =
      rw (h.0, interleave)
        (go
          (interleave-Holds n is
            (write_packets (L.write_frame i m.lib).1 (L.write_frame i m.lib).2 m) h.1)
          ((L.write_frame i m.lib).0))
    where
      go :
          Returns (Holds m.held) (
            interleave L n is (write_packets (L.write_frame i m.lib).1 (L.write_frame i m.lib).2 m))
          → (b : Bool)
          → Returns (Holds m.held) (elim b [
            | false ↦ ok (write_packets (L.write_frame i m.lib).1 (L.write_frame i m.lib).2 m)
            | true ↦
                interleave L n is
                  (write_packets (L.write_frame i m.lib).1 (L.write_frame i m.lib).2 m)
          ])
      go rest false = Returns-ok _ _ refl
      go rest true = rest

  after_interleave :
      (P : Streaming L.State → Type 0) (n : ℕ) (is : List ℕ) (m : Streaming L.State)
      (f : Streaming L.State → Outcome (Streaming L.State))
      → All (λ i. ltb i n ≡ true) is
      → ((m₁ : Streaming L.State) → Returns P (f (record m₁ { held = m.held })))
      → Returns P (interleave L n is m >>= f)
  after_interleave P n is m f h next =
      Returns-bind (Holds m.held) P _ f (interleave-Holds n is m h)
        (λ m₁ e. Returns-held P f m₁ m.held e (next m₁))

  after_open :
      (P : Streaming L.State → Type 0) (file_path : Bytes) (m : Streaming L.State)
      (f : Bool × Streaming L.State → Outcome (Streaming L.State))
      → ((m₁ : Streaming L.State) → Returns P (f (true, record m₁ { held = input ∷ m.held })))
      → ((m₁ : Streaming L.State) → Returns P (f (false, record m₁ { held = m.held })))
      → Returns P (open_media L file_path m >>= f)
  unfolding Begun Holds
  after_open P file_path m f on off =
      Returns-bind (Begun m.held) P _ f (open_media-Begun file_path m) go
    where
      go : (x : Bool × Streaming L.State) → Begun m.held x → Returns P (f x)
      go (true, m₁) e = Returns-held P (λ m₂. f (true, m₂)) m₁ (input ∷ m.held) e (on m₁)
      go (false, m₁) e = Returns-held P (λ m₂. f (false, m₂)) m₁ m.held e (off m₁)

  module _ (new_stream_keeps : (s : L.State) → L.nb_streams (L.new_stream s).1 ≡ L.nb_streams s)
      (copy_parameters_keeps : (i : ℕ) (s : L.State)
        → L.nb_streams (L.copy_parameters i s).1 ≡ L.nb_streams s)
      (write_header_keeps : (s : L.State) → L.nb_streams (L.write_header s).2 ≡ L.nb_streams s)
      (announced : (s : L.State) → All (λ i. ltb i (L.nb_streams s) ≡ true) (L.packets s)) where
    copy_streams-nb_streams :
        (n i : ℕ) (s : L.State) → L.nb_streams (copy_streams L n i s).1 ≡ L.nb_streams s
    unfolding copy_streams
    copy_streams-nb_streams zero i s = refl
    copy_streams-nb_streams (suc n) i s =
        go ((L.new_stream s).0) ((L.copy_parameters i (L.new_stream s).1).0) _ _
          (new_stream_keeps s) (copy_parameters_keeps i _ ∙ new_stream_keeps s)
          (copy_streams-nb_streams n (suc i) _)
      where
        go :
            (made copied : Bool) (s₁ s₂ : L.State)
            → L.nb_streams s₁ ≡ L.nb_streams s
            → L.nb_streams s₂ ≡ L.nb_streams s
            → L.nb_streams (copy_streams L n (suc i) s₂).1 ≡ L.nb_streams s₂
            → L.nb_streams
                (elim made as (λ b. Bool × L.State) [
                  | false ↦ (false, s₁)
                  | true ↦ elim copied as (λ b. Bool × L.State) [
                    | false ↦ (false, s₂)
                    | true ↦ copy_streams L n (suc i) s₂
                  ]
                ]).1
              ≡ L.nb_streams s
        go false copied s₁ s₂ e e' rest = e
        go true false s₁ s₂ e e' rest = e'
        go true true s₁ s₂ e e' rest = rest ∙ e'

    send_packets-Holds :
        (n : ℕ) (m : Streaming L.State) (l : List Resource)
        → L.nb_streams m.lib ≡ n
        → Returns (Holds l) (send_packets L n (record m { held = output ∷ input ∷ l }))
    unfolding send_packets acquire release give_back is_same write_packets Holds
    send_packets-Holds n m l e =
        Returns-if (Holds l) ((L.write_header m.lib).0) _ _
          (after_interleave (Holds l) n (L.packets (L.write_header m.lib).2)
            (write_packets (L.write_header m.lib).1 (L.write_header m.lib).2
              (record m { held = io_context ∷ output ∷ input ∷ l }))
            _
            (subst (λ k. All (λ i. ltb i k ≡ true) (L.packets (L.write_header m.lib).2))
              (write_header_keeps m.lib ∙ e) (announced (L.write_header m.lib).2))
            (λ m₁. Returns-ok (Holds l) _ refl))
          (Returns-ok (Holds l) _ refl)

    send_media-Holds :
        (m : Streaming L.State) (l : List Resource)
        → Returns (Holds l) (send_media L (record m { held = input ∷ l }))
    unfolding send_media acquire release give_back is_same Holds
    send_media-Holds m l =
        Returns-if (Holds l) ((L.alloc_output m.lib).0) _ _
          (Returns-if (Holds l) ((copy_streams L (L.nb_streams s) 0 s).0) _ _
            (send_packets-Holds (L.nb_streams s)
              (record m { lib = (copy_streams L (L.nb_streams s) 0 s).1 }) l
              (copy_streams-nb_streams (L.nb_streams s) 0 s))
            (Returns-ok (Holds l) _ refl))
          (Returns-ok (Holds l) _ refl)
      where
        s : L.State
        s = (L.alloc_output m.lib).1

    -- If the calls on the output leave the number of input streams, and every packet belongs to one
    -- of them, onStreamMedia returns and has given back, once each, all resources that it acquired,
    -- whatever call of ffmpeg fails.
    pub on_stream_media-held :
        (file_path : Bytes) (m : Streaming L.State)
        → (m' : Streaming L.State) × (on_stream_media L file_path m ≡ ok m') × (m'.held ≡ m.held)
    unfolding on_stream_media Holds Returns
    on_stream_media-held file_path m =
        after_open (Holds m.held) file_path m _ (λ m₁. send_media-Holds m₁ m.held)
          (λ m₁. Returns-ok (Holds m.held) (record m₁ { held = m.held }) refl)
