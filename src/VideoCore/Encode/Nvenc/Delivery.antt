-- ===== src/VideoCore/Encode/Nvenc/Delivery.antt =====
-- What the NVENC encoder (video-core/src/encode/nvenc_encoder.cpp) promises: the packets that it
-- delivers, the frames that it sends, and the codec contexts that it owns.
use direct_link.Base.{
  ◌≡◌, refl, Bool, true, false, Option, none, some, List, [], map, inl, inr, Bool-cases, arith,
}
use direct_link.VideoCore.Types.{success, error_encode_failed, AvFrame}
use direct_link.VideoCore.Ffmpeg.{Ffmpeg, Settings, AvPacket}
use direct_link.VideoCore.Encode.{
  EncoderConfig, Context, EncoderState, Encoded, wrap_packet, receive_packets,
}
use direct_link.VideoCore.Encode.Drain.{Yields, receive_packets_wraps}
use direct_link.VideoCore.Encode.Nvenc.{
  prepare, encode_in, codec_name, initialize, encode_frame, stop,
}
use direct_link.VideoCore.Encode.Owned.{Owns}

module _ (f : Ffmpeg) where
  pub initialize-Owns :
      (e : EncoderState f) (config : EncoderConfig) (cb : Bool)
      → e.codec_ctx ≡ none
      → Owns f e
      → Owns f (initialize f e config cb).0
  unfolding initialize
  initialize-Owns e config cb a v = ground arith

  running_total :
      (e : EncoderState f) (frame : AvFrame f.Image) (o : Option (Context f))
      → e.codec_ctx ≡ o
      → e.running ≡ true
      → Owns f e
      → (r : Encoded f (EncoderState f)) × (encode_frame f e frame ≡ some r)
  unfolding encode_frame
  running_total e frame none h b v = absurd (ground (arith, v.open_if_running b))
  running_total e frame (some c) h b v = (encode_in f e c frame, ground arith)

  pub encode_frame-total :
      (e : EncoderState f) (frame : AvFrame f.Image)
      → Owns f e
      → (r : Encoded f (EncoderState f)) × (encode_frame f e frame ≡ some r)
  unfolding encode_frame
  encode_frame-total e frame v = elim (Bool-cases e.running) [
    | inr idle ↦
        (record { encoder = e; result = error_encode_failed; delivered = [] }, ground arith)
    | inl busy ↦ running_total e frame e.codec_ctx refl busy v
  ]

  pub encode_frame-Owns :
      (e : EncoderState f) (frame : AvFrame f.Image) (r : Encoded f (EncoderState f))
      → encode_frame f e frame ≡ some r
      → Owns f e
      → Owns f r.encoder
  unfolding encode_frame
  encode_frame-Owns e frame r h v = ground arith

  pub stop-Owns :
      (e : EncoderState f)
      → Owns f e
      → Owns f (stop f e).0
        × ((stop f e).0.running ≡ false)
        × ((stop f e).0.codec_ctx ≡ none)
        × (stop f (stop f e).0 ≡ ((stop f e).0, []))
  unfolding stop
  stop-Owns e v = (ground arith, ground arith, ground arith, ground arith)

  pub initialize_leaks_lem :
      (e : EncoderState f) (c : Context f) (config : EncoderConfig) (cb : Bool)
      → Owns f e
      → e.codec_ctx ≡ some c
      → f.find_encoder_by_name codec_name ≡ true
      → f.alloc_context codec_name ≡ true
      → (initialize f e config cb).0.live_contexts ≡ 2
  unfolding initialize
  initialize_leaks_lem e c config cb v h found made = ground arith

  -- When a running encoder with an open codec and a callback has its frame accepted by NVENC,
  -- `encodeFrame` succeeds, all that the codec then yields is delivered in order, and the codec
  -- has no more.
  encode_frame_delivers :
      (e : EncoderState f) (c : Context f) (s : f.State) (frame : AvFrame f.Image)
      → e.running ≡ true
      → e.codec_ctx ≡ some c
      → c.opened ≡ some s
      → e.has_callback ≡ true
      → (f.send_frame s (some (prepare f c.settings frame))).1 ≡ true
      → (ps : List (AvPacket f.Payload)) × (t : f.State) × Yields f
          (f.send_frame s (some (prepare f c.settings frame))).0
          t
          ps
        × (encode_frame f e frame
            ≡ some (record {
              encoder = record e { codec_ctx = some (record c { opened = some t }) };
              result = success;
              delivered = map (wrap_packet f c.settings.time_base) ps;
            }))
  unfolding encode_frame
  encode_frame_delivers e c s frame busy h o cb a =
      let sent : f.State = (f.send_frame s (some (prepare f c.settings frame))).0 in
      let (ps, y, m) = receive_packets_wraps f c.settings.time_base sent in
      (ps, (receive_packets f c.settings.time_base sent).0, y, ground arith)

  -- NVENC is sent an intra frame only if the camera gave one: nothing else asks it for a keyframe.
  prepare-intra :
      (c : Settings) (frame : AvFrame f.Image)
      → (prepare f c frame).intra ≡ true
      → frame.intra ≡ true
  unfolding prepare
  prepare-intra c frame h = ground arith
