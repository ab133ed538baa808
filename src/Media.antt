-- ===== src/Media.antt =====
-- Streaming through ffmpeg (streamMedia, onStreamMedia, writePacket and onMediaRequest of FileServer/FileSession.cpp,
-- which no handler calls so far). ffmpeg is a parameter. What has to be given back is a list of
-- resources; the lines about time stamps and the log are left out.
pub mod Held
pub mod Leaks
mod Tests
use sever_code.Prelude.{
  ℕ, suc, zero, Bool, true, false, Option, none, some, List, [], ◌∷◌, ◌++◌, Bytes, text, ltb,
  if◌then◌else◌, Outcome, ok, fault, bad_access, ◌>>=◌,
}

-- The calls, each on the library's state. `packets` are the stream numbers of the packets that
-- av_read_frame will give until it fails; the writing calls return what they hand to the callback.
pub record FfmpegLib : Type 1 where
  pub State : Type 0
  pub open_input : Bytes → State → Bool × State
  pub find_stream_info : State → Bool × State
  pub alloc_output : State → Bool × State
  pub nb_streams : State → ℕ
  pub new_stream : State → Bool × State
  pub copy_parameters : ℕ → State → Bool × State
  pub write_header : State → Bool × List Bytes × State
  pub packets : State → List ℕ
  pub write_frame : ℕ → State → Bool × List Bytes × State
  pub write_trailer : State → List Bytes × State

pub data Resource : Type 0 where
  input output io_context buffer packet : Resource

unfoldable pub is_same : Resource → Resource → Bool
is_same input input = true
is_same output output = true
is_same io_context io_context = true
is_same buffer buffer = true
is_same packet packet = true
is_same a b = false

-- What is sent on the connection, and what has been acquired and not given back, the last first.
pub record Streaming (S : Type 0) : Type 0 where
  pub lib : S
  pub sent : List Bytes
  pub held : List Resource

unfoldable pub acquire : {S : Type 0} → Resource → Streaming S → Streaming S
acquire r m = record m { held = r ∷ m.held }

unfoldable pub give_back : Resource → List Resource → Outcome (List Resource)
unfolding is_same
give_back r [] = fault bad_access
give_back r (x ∷ l) = if is_same r x then ok l else (do l' ← give_back r l; ok (x ∷ l'))

-- What is given back without being held is freed twice.
unfoldable pub release : {S : Type 0} → Resource → Streaming S → Outcome (Streaming S)
unfolding give_back
release r m = do l ← give_back r m.held; ok (record m { held = l })

-- `writePacket`, the callback of the output, for each packet that the library hands to it.
unfoldable pub write_packets : {S : Type 0} → List Bytes → S → Streaming S → Streaming S
write_packets bytes s m = record m { lib = s; sent = m.sent ++ bytes }

abbrev pub header : Bytes
header =
    text "HTTP/1.1 200 OK"
    ++ (13 ∷ 10 ∷ text "Content-Type: video/mp2t")
    ++ (13 ∷ 10 ∷ text "Connection: close")
    ++ (13 ∷ 10 ∷ 13 ∷ 10 ∷ [])

-- The command that `onMediaRequest` hands to the system.
unfoldable pub ffmpeg_command : Bytes → Bytes → Bytes
ffmpeg_command client_ip file_path =
    text "ffmpeg -re -i "
    ++ (file_path
        ++ (text " -c:v copy -c:a copy -f mpegts "
            ++ (text "http://" ++ (client_ip ++ text "/stream"))))

module _ (L : FfmpegLib) where
  -- The part that both functions begin with: the input, open, and the header sent, or nothing held.
  unfoldable pub open_media : Bytes → Streaming L.State → Outcome (Bool × Streaming L.State)
  unfolding acquire release
  open_media file_path m =
      let (opened, s) = L.open_input file_path m.lib in
      if opened
      then (let m₁ = acquire input (record m { lib = s }) in
          let (known, s₁) = L.find_stream_info s in
          if known
          then ok (true, record m₁ { lib = s₁; sent = m₁.sent ++ (header ∷ []) })
          else (do m₂ ← release input (record m₁ { lib = s₁ }); ok (false, m₂)))
      else ok (false, record m { lib = s })

  -- The loop of streamMedia: nothing gives a packet back.
  unfoldable pub write_all : List ℕ → Streaming L.State → Streaming L.State
  unfolding acquire write_packets
  write_all [] m = m
  write_all (i ∷ rest) m =
      let (fine, bytes, s) = L.write_frame i m.lib in
      write_all rest (write_packets bytes s (acquire packet m))

  unfoldable pub stream_media : Bytes → Streaming L.State → Outcome (Streaming L.State)
  unfolding open_media acquire release write_packets write_all
  stream_media file_path m = do
    begun ← open_media file_path m
    if begun.0
        then (let m₁ = acquire output (acquire io_context (acquire buffer begun.1)) in
            let (fine, bytes, s) = L.write_header m₁.lib in
            let m₂ = write_packets bytes s m₁ in
            if fine
            then (let m₃ = write_all (L.packets s) m₂ in
                let (trailer, s') = L.write_trailer m₃.lib in
                release buffer (write_packets trailer s' m₃) >>= release input)
            else release buffer m₂ >>= release input)
        else ok begun.1

  -- The loop over the streams of the input, with the number of the first and how many are left.
  unfoldable pub copy_streams : ℕ → ℕ → L.State → Bool × L.State
  copy_streams zero i s = (true, s)
  copy_streams (suc n) i s =
      let (made, s₁) = L.new_stream s in
      let (copied, s₂) = L.copy_parameters i s₁ in
      elim made [
        | false ↦ (false, s₁)
        | true ↦ elim copied [ false ↦ (false, s₂) | true ↦ copy_streams n (suc i) s₂ ]
      ]

  -- The loop of onStreamMedia over the packets, for an output of `n` streams. A packet that
  -- av_interleaved_write_frame takes is given back by it, whether it fails or not.
  unfoldable pub interleave : ℕ → List ℕ → Streaming L.State → Outcome (Streaming L.State)
  unfolding acquire release write_packets
  interleave n [] m = ok m
  interleave n (i ∷ rest) m = elim (ltb i n) [
    | false ↦ fault bad_access
    | true ↦
        let (fine, bytes, s) = L.write_frame i m.lib in
        release packet (write_packets bytes s (acquire packet m)) >>= λ m₁. elim fine [
          | false ↦ ok m₁
          | true ↦ interleave n rest m₁
        ]
  ]

  -- onStreamMedia from the output callback on, for an output of `n` streams.
  unfoldable pub send_packets : ℕ → Streaming L.State → Outcome (Streaming L.State)
  unfolding acquire release write_packets interleave
  send_packets n m =
      let m₁ = acquire io_context m in
      let (fine, bytes, s) = L.write_header m₁.lib in
      let m₂ = write_packets bytes s m₁ in
      if fine
      then (do
        m₃ ← interleave n (L.packets s) m₂
        let (trailer, s') = L.write_trailer m₃.lib
        m₄ ← release input (write_packets trailer s' m₃)
        m₅ ← release output m₄
        release io_context m₅)
      else release input m₂ >>= λ m₃. release output m₃ >>= release io_context

  -- onStreamMedia from the output context on.
  unfoldable pub send_media : Streaming L.State → Outcome (Streaming L.State)
  unfolding acquire release copy_streams send_packets
  send_media m =
      let (allocated, s) = L.alloc_output m.lib in
      if allocated
      then (let m₁ = acquire output (record m { lib = s }) in
          let (copied, s₁) = copy_streams (L.nb_streams s) 0 s in
          if copied
          then send_packets (L.nb_streams s) (record m₁ { lib = s₁ })
          else release input (record m₁ { lib = s₁ }) >>= release output)
      else release input (record m { lib = s })

  unfoldable pub on_stream_media : Bytes → Streaming L.State → Outcome (Streaming L.State)
  unfolding open_media send_media
  on_stream_media file_path m = do
    begun ← open_media file_path m
    if begun.0 then send_media begun.1 else ok begun.1
