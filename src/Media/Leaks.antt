-- ===== src/Media/Leaks.antt =====
-- What streamMedia does not give back.
use sever_code.Prelude.{
  ℕ, Bool, Outcome, if◌then◌else◌, suc, zero, ◌≡◌, refl, ap, ◌∙◌, true, false, List, [], ◌∷◌, ◌++◌,
  Bytes, length, ok, ◌>>=◌,
}
use sever_code.Media.{
  FfmpegLib, Resource, input, output, io_context, buffer, packet, Streaming, acquire, release,
  give_back, is_same, write_packets, open_media, write_all, stream_media, header,
}
use sever_code.Media.Held.{Returns, Returns-ok, Holds}

-- This many packets on top of what is held.
unfoldable pub add_packets : ℕ → List Resource → List Resource
add_packets zero l = l
add_packets (suc n) l = add_packets n (packet ∷ l)

give_back-add_packets :
    (r : Resource) (n : ℕ) (l l' : List Resource)
    → is_same r packet ≡ false
    → give_back r l ≡ ok l'
    → give_back r (add_packets n l) ≡ ok (add_packets n l')
unfolding give_back add_packets
give_back-add_packets r zero l l' other e = e
give_back-add_packets r (suc n) l l' other e =
    give_back-add_packets r n (packet ∷ l) (packet ∷ l') other
      (rw (other) (ap (λ o. o >>= λ k. ok (packet ∷ k)) e))

release-give_back :
    {S : Type 0} (r : Resource) (m : Streaming S) (l : List Resource)
    → give_back r m.held ≡ ok l
    → release r m ≡ ok (record m { held = l })
unfolding release
release-give_back r m l e = ap (λ o. o >>= λ k. ok (record m { held = k })) e

Returns-counted :
    {S : Type 0} (b : Bool) (x y : Outcome (Streaming S)) (n : ℕ) (l : List Resource)
    → Returns (Holds (add_packets n l)) x
    → Returns (Holds (add_packets 0 l)) y
    → Returns (Holds (add_packets (if b then n else 0) l)) (if b then x else y)
Returns-counted true x y n l h k = h
Returns-counted false x y n l h k = k

module _ (L : FfmpegLib) where
  write_all-held :
      (is : List ℕ) (m : Streaming L.State)
      → (write_all L is m).held ≡ add_packets (length is) m.held
  unfolding write_all add_packets acquire write_packets
  write_all-held [] m = refl
  write_all-held (i ∷ is) m =
      write_all-held is
        (write_packets (L.write_frame i m.lib).1 (L.write_frame i m.lib).2 (acquire packet m))

  module _ (file_path : Bytes) (m : Streaming L.State)
      (opened : (L.open_input file_path m.lib).0 ≡ true)
      (known : (L.find_stream_info (L.open_input file_path m.lib).1).0 ≡ true) where
    begun : Streaming L.State
    begun = record {
      lib = (L.find_stream_info (L.open_input file_path m.lib).1).1;
      sent = m.sent ++ (header ∷ []);
      held = input ∷ m.held;
    }

    -- How many packets there are to read behind the header, none if writing the header fails.
    unfoldable pub packets_read : ℕ
    unfolding begun
    packets_read =
        if (L.write_header begun.lib).0 then length (L.packets (L.write_header begun.lib).2) else 0

    close_both :
        (n : ℕ) (m₁ : Streaming L.State)
        → m₁.held ≡ add_packets n (output ∷ io_context ∷ buffer ∷ input ∷ m.held)
        → Returns
            (Holds (add_packets n (output ∷ io_context ∷ m.held)))
            (release buffer m₁ >>= release input)
    unfolding Holds Returns is_same give_back
    close_both n m₁ e = (
      record m₁ { held = add_packets n (output ∷ io_context ∷ m.held) },
      ap (λ o. o >>= release input)
            (release-give_back buffer m₁ _
              (ap (give_back buffer) e ∙ give_back-add_packets buffer n _ _ refl refl))
          ∙ release-give_back input _ _ (give_back-add_packets input n _ _ refl refl),
      refl,
    )

    -- If the input opens and its streams are found, streamMedia returns with the output context, the
    -- context of its callback and every packet that it read still held: none is read if writing the
    -- header fails.
    pub stream_media-held :
        (m' : Streaming L.State) × (stream_media L file_path m ≡ ok m')
        × (m'.held ≡ add_packets packets_read (output ∷ io_context ∷ m.held))
    unfolding Returns Holds stream_media open_media acquire release give_back is_same write_packets
        begun add_packets packets_read
    stream_media-held =
        rw (opened, stream_media, open_media)
          (rw (known) (
            Returns-counted ((L.write_header begun.lib).0) _ _
              (length (L.packets (L.write_header begun.lib).2)) (output ∷ io_context ∷ m.held)
              (close_both (length (L.packets (L.write_header begun.lib).2)) _
                (write_all-held (L.packets (L.write_header begun.lib).2) _))
              (Returns-ok (Holds (add_packets 0 (output ∷ io_context ∷ m.held))) _ refl)))
