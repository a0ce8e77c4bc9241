-- ===== src/VideoCore/Pipeline/Encoding.antt =====
-- video-core/src/pipeline/video_pipeline.cpp: what `encodeLoop` does with a frame that it has taken
-- from the queue, together with the callback that `start` gives to the encoder.
use direct_link.Base.{◌≡◌, refl, ap, true, Option, none, some, List, [], ◌∷◌, arith}
use direct_link.VideoCore.Types.{Packet, AvFrame}
use direct_link.VideoCore.Ffmpeg.{Ffmpeg}
use direct_link.VideoCore.Encode.{Encoded}
use direct_link.VideoCore.Encode.Create.{Encoder}
use direct_link.VideoCore.Encode.Create
use direct_link.VideoCore.Pipeline.{VideoPipeline, on_packet, on_packets}

module _ (f : Ffmpeg) where
  -- `none` stands for a fault in `encodeFrame`. Its result is not looked at.
  encoded :
      VideoPipeline f
      → Option (Encoded f (Encoder f))
      → Option (VideoPipeline f × List (Packet f.Payload))
  unfolding on_packets
  encoded p none = none
  encoded p (some r) = some (on_packets f (record p { encoder = some r.encoder }) r.delivered)

  encode_with :
      VideoPipeline f
      → Option (Encoder f)
      → AvFrame f.Image
      → Option (VideoPipeline f × List (Packet f.Payload))
  unfolding encoded
  encode_with p none frame = none
  encode_with p (some e) frame = encoded p (Create.encode_frame f e frame)

  -- The packets are those that reach the pipeline's client.
  unfoldable pub encode_taken :
      VideoPipeline f → AvFrame f.Image → Option (VideoPipeline f × List (Packet f.Payload))
  unfolding encode_with
  encode_taken p frame = encode_with p p.encoder frame

  -- What the pipeline becomes with some packets counted, and which encoder it then has.
  abbrev pub counted : VideoPipeline f → Encoder f → List (Packet f.Payload) → VideoPipeline f
  counted p e ps = (on_packets f (record p { encoder = some e }) ps).0

  pub on_packets_all :
      (p : VideoPipeline f) (ps : List (Packet f.Payload))
      → p.has_packet_callback ≡ true
      → ((on_packets f p ps).1 ≡ ps)
        × ((on_packets f p ps).0.has_packet_callback ≡ true)
        × ((on_packets f p ps).0.encoder ≡ p.encoder)
  unfolding on_packets
  on_packets_all p [] h = (refl, h, refl)
  on_packets_all p (packet ∷ rest) h =
      let (e, k, n) = on_packets_all (on_packet f p packet).0 rest h in (ground (arith, e), k, n)

  pub encode_taken_forwards :
      (p : VideoPipeline f) (e : Encoder f) (frame : AvFrame f.Image) (r : Encoded f (Encoder f))
      → p.encoder ≡ some e
      → p.has_packet_callback ≡ true
      → Create.encode_frame f e frame ≡ some r
      → encode_taken p frame ≡ some (counted p r.encoder r.delivered, r.delivered)
  unfolding encode_taken
  encode_taken_forwards p e frame r h cb k =
      let v = on_packets_all (record p { encoder = some r.encoder }) r.delivered cb in
      rw (h, k) (ap (λ ps. some (counted p r.encoder r.delivered, ps)) v.0)
