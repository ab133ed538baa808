-- ===== src/Media/Tests.antt =====
-- Streaming over a small library: two streams, three packets.
use sever_code.Prelude.{◌≡◌, refl, true, [], ◌∷◌, text, ltb, All, ok}
use sever_code.Media.{
  FfmpegLib, Streaming, packet, output, io_context, on_stream_media, stream_media, header,
}
use sever_code.Media.Leaks.{add_packets, packets_read, stream_media-held}
use sever_code.Media.Held.{on_stream_media-held}

abbrev small : FfmpegLib
small = record {
  State = Unit {0};
  open_input = λ path s. (true, s);
  find_stream_info = λ s. (true, s);
  alloc_output = λ s. (true, s);
  nb_streams = λ s. 2;
  new_stream = λ s. (true, s);
  copy_parameters = λ i s. (true, s);
  write_header = λ s. (true, text "h" ∷ [], s);
  packets = λ s. 0 ∷ 1 ∷ 0 ∷ [];
  write_frame = λ i s. (true, text "p" ∷ [], s);
  write_trailer = λ s. (text "t" ∷ [], s);
}

abbrev before : Streaming Unit
before = record { lib = tt; sent = []; held = [] }

announced : (s : Unit {0}) → All (λ i. ltb i 2 ≡ true) (0 ∷ 1 ∷ 0 ∷ [])
announced s = (refl, (refl, (refl, tt)))

on_stream_media-held_example :
    (m' : Streaming Unit) × (on_stream_media small (text "a.mp4") before ≡ ok m') × (m'.held ≡ [])
on_stream_media-held_example =
    on_stream_media-held small (λ s. refl) (λ i s. refl) (λ s. refl) announced (text "a.mp4") before

stream_media-held_example :
    (m' : Streaming Unit) × (stream_media small (text "a.mp4") before ≡ ok m')
    × (m'.held
        ≡ add_packets
            (packets_read small (text "a.mp4") before refl refl)
            (output ∷ io_context ∷ []))
stream_media-held_example = stream_media-held small (text "a.mp4") before refl refl

-- The connection gets the header and all that the output writes.
streamed :
    on_stream_media small (text "a.mp4") before
    ≡ ok (record {
      lib = tt;
      sent = header ∷ text "h" ∷ text "p" ∷ text "p" ∷ text "p" ∷ text "t" ∷ [];
      held = [];
    })
unfolding on_stream_media
streamed = refl

leaked :
    stream_media small (text "a.mp4") before
    ≡ ok (record {
      lib = tt;
      sent = header ∷ text "h" ∷ text "p" ∷ text "p" ∷ text "p" ∷ text "t" ∷ [];
      held = packet ∷ packet ∷ packet ∷ output ∷ io_context ∷ [];
    })
unfolding stream_media
leaked = refl
