-- ===== src/VideoCore/Pipeline/Statistics.antt =====
-- The statistics of `VideoPipeline` (video-core/include/pipeline/video_pipeline.hpp).
use direct_link.Base.{
  ℕ, ◌+◌, ◌*◌, ◌%◌, ◌≤◌, ◌<◌, ◌≡◌, refl, true, List, [], ◌∷◌, length, ℤ, neg_part, is_neg, to_u32,
  to_i32, two_32, arith,
}
use direct_link.VideoCore.Types.{Packet}
use direct_link.VideoCore.Ffmpeg.{Ffmpeg}
use direct_link.VideoCore.Pipeline.{VideoPipeline, on_packet, on_packets, get_bitrate}

module _ (f : Ffmpeg) where
  abbrev total_bytes : List (Packet f.Payload) → ℕ
  total_bytes [] = 0
  total_bytes (p ∷ ps) = to_u32 p.size + total_bytes ps

  -- When the pipeline has a packet callback, every packet of the encoder is handed on, in order,
  -- and the counters grow by the number of packets and by their bytes, modulo 2^32.
  on_packets_counts :
      (p : VideoPipeline f) (ps : List (Packet f.Payload))
      → p.has_packet_callback ≡ true
      → let r = on_packets f p ps in
        (r.1 ≡ ps)
        × ((r.0).frames_encoded % two_32 ≡ (p.frames_encoded + length ps) % two_32)
        × ((r.0).bitrate % two_32 ≡ (p.bitrate + total_bytes ps) % two_32)
  unfolding on_packets
  on_packets_counts p [] h = (refl, ground arith, ground arith)
  on_packets_counts p (packet ∷ rest) h =
      let (e, n, b) = on_packets_counts (on_packet f p packet).0 rest h in
      (ground (arith, e), ground (arith, n), ground (arith, b))

  -- While the encode thread exists and time has passed, `seconds` at most, a count of 2^28 bytes
  -- or more is reported as a negative bit rate, until 8 times the count comes within `seconds` of
  -- 2^32: the product by 8 overflows, and wraps. The division takes a number that is at most -`seconds` to a
  -- negative one, as that by the elapsed time does.
  pub get_bitrate_overflows :
      (p : VideoPipeline f) (divide : ℤ → ℤ) (seconds : ℕ)
      → ((z : ℤ) → seconds ≤ neg_part z → is_neg (divide z) ≡ true)
      → p.encode_thread ≡ true
      → 268435456 ≤ p.bitrate
      → p.bitrate * 8 + seconds ≤ two_32
      → 0 < seconds
      → is_neg (get_bitrate f p true divide) ≡ true
  unfolding get_bitrate
  get_bitrate_overflows p divide seconds s t lo hi some_time =
      ground (arith, s (to_i32 (p.bitrate * 8 % two_32)))
