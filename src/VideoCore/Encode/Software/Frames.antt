-- ===== src/VideoCore/Encode/Software/Frames.antt =====
-- What the x264 encoder (video-core/src/encode/software_encoder.cpp) promises: the frames that it
-- sends and the packets that it delivers.
use direct_link.Base.{
  ◌≡◌, refl, Bool, true, false, some, List, [], map, inl, inr, is_some, eq_ℤ-eq, Bool-cases, arith,
}
use direct_link.VideoCore.Types.{success, error_encode_failed, AvFrame, PixelFormat, yuv420p}
use direct_link.VideoCore.Ffmpeg.{Ffmpeg, Settings, AvPacket, nanoseconds}
use direct_link.VideoCore.Encode.{Encoded, Context, wrap_packet, receive_packets}
use direct_link.VideoCore.Encode.Drain.{Yields, receive_packets_wraps}
use direct_link.VideoCore.Encode.Software.{
  SoftwareEncoder, request_keyframe, needs_conversion, normal_format, is_full_range, input_frame,
  prepare, encode_frame,
}

module _ (f : Ffmpeg) where
  -- The shape for which the context was opened.
  pub record Fits (c : Settings) (frame : AvFrame f.Image) : Type 0 where
    pub format : frame.format ≡ yuv420p
    pub width : frame.width ≡ c.width
    pub height : frame.height ≡ c.height
    pub limited : frame.full_range ≡ false
    pub planes : frame.has_stride ≡ true

  needs_conversion-Fits :
      (c : Settings) (frame : AvFrame f.Image) → needs_conversion f c frame ≡ false → Fits c frame
  needs_conversion-Fits c frame h =
      ground (arith, eq_ℤ-eq frame.width c.width, eq_ℤ-eq frame.height c.height)

  input_frame-Fits :
      (c : Settings) (frame : AvFrame f.Image)
      → ((g : AvFrame f.Image) (fmt : PixelFormat) (range : Bool) (d : Settings)
          → is_some (f.convert g fmt range d) ≡ true)
      → Fits c (input_frame f c frame)
  unfolding input_frame
  input_frame-Fits c frame h = elim (Bool-cases (needs_conversion f c frame)) [
    | inl t ↦ ground (
      arith,
      h frame (normal_format frame.format) (is_full_range frame.format frame.full_range) c,
    )
    | inr t ↦ rw t (needs_conversion-Fits c frame t)
  ]

  -- Where swscale gives a context, whatever frame comes from the camera, the frame handed to x264
  -- has the format, the size and the colour range for which its context was opened, carries the
  -- time stamp in the encoder's time base, and is an intra frame if a keyframe was requested.
  pub prepare-Fits :
      (c : Settings) (force : Bool) (frame : AvFrame f.Image)
      → ((g : AvFrame f.Image) (fmt : PixelFormat) (range : Bool) (d : Settings)
          → is_some (f.convert g fmt range d) ≡ true)
      → Fits c (prepare f c force frame)
        × ((prepare f c force frame).pts ≡ f.rescale_q frame.pts nanoseconds c.time_base)
        × ((prepare f c true frame).intra ≡ true)
  unfolding prepare
  prepare-Fits c force frame h =
      let v = input_frame-Fits c frame h in
      (
        record {
          format = v.format;
          width = v.width;
          height = v.height;
          limited = v.limited;
          planes = v.planes;
        },
        refl,
        refl,
      )

  -- A running encoder and the codec that it holds.
  pub record IsOpen (e : SoftwareEncoder f) (c : Context f) (s : f.State) : Type 0 where
    pub running : e.running ≡ true
    pub context : e.codec_ctx ≡ some c
    pub state : c.opened ≡ some s

  -- The encoder with the codec in another state, and no keyframe requested.
  abbrev pub advance : SoftwareEncoder f → Context f → f.State → SoftwareEncoder f
  advance e c t = record e {
    base = record e.base { codec_ctx = some (record c { opened = some t }) };
    force_keyframe = false;
  }

  module _ (e : SoftwareEncoder f) (c : Context f) (s : f.State) (frame : AvFrame f.Image) where
    abbrev pub sent : f.State × Bool
    sent = f.send_frame s (some (prepare f c.settings e.force_keyframe frame))

    -- When a running encoder with an open codec and a callback has its frame accepted by x264,
    -- `encodeFrame` succeeds, all that the codec then yields is delivered in order, the codec has
    -- no more, and no keyframe is requested any longer.
    pub encode_frame_accepted :
        IsOpen e c s
        → e.has_callback ≡ true
        → sent.1 ≡ true
        → (ps : List (AvPacket f.Payload)) × (t : f.State) × Yields f sent.0 t ps
          × (encode_frame f e frame
              ≡ some (record {
                encoder = advance e c t;
                result = success;
                delivered = map (wrap_packet f c.settings.time_base) ps;
              }))
    unfolding encode_frame
    encode_frame_accepted o cb a =
        let (ps, y, m) = receive_packets_wraps f c.settings.time_base sent.0 in
        (ps, (receive_packets f c.settings.time_base sent.0).0, y, ground arith)

    -- When x264 refuses the frame, `encodeFrame` reports it and delivers nothing; the keyframe that
    -- was requested for this frame is forgotten.
    pub encode_frame_refused :
        IsOpen e c s
        → sent.1 ≡ false
        → encode_frame f e frame
          ≡ some (record {
            encoder = advance e c sent.0;
            result = error_encode_failed;
            delivered = [];
          })
    unfolding encode_frame
    encode_frame_refused o a = ground arith

    -- An encoder that is not running refuses every frame and stays as it is.
    encode_frame_idle :
        e.running ≡ false
        → encode_frame f e frame
          ≡ some (record { encoder = e; result = error_encode_failed; delivered = [] })
    unfolding encode_frame
    encode_frame_idle h = ground arith

  -- A keyframe that was requested of a running encoder for a frame which x264 then refuses is
  -- lost: `encodeFrame` reports the refusal and delivers nothing, the encoder still runs with its
  -- codec, and whatever frame comes next is sent with no keyframe asked for.
  refusal_loses_keyframe :
      (e : SoftwareEncoder f) (c : Context f) (s : f.State) (frame next : AvFrame f.Image)
      → IsOpen e c s
      → (f.send_frame s (some (prepare f c.settings true frame))).1 ≡ false
      → (r : Encoded f (SoftwareEncoder f)) × (d : Context f) × (t : f.State) × (encode_frame f
            (request_keyframe f e)
            frame
          ≡ some r)
        × (r.result ≡ error_encode_failed)
        × (r.delivered ≡ [])
        × IsOpen r.encoder d t
        × (sent r.encoder d t next ≡ f.send_frame t (some (prepare f c.settings false next)))
  unfolding request_keyframe
  refusal_loses_keyframe e c s frame next o a =
      let q : SoftwareEncoder f = request_keyframe f e in
      let t = (f.send_frame s (some (prepare f c.settings true frame))).0 in
      (
        record { encoder = advance q c t; result = error_encode_failed; delivered = [] },
        record c { opened = some t },
        t,
        encode_frame_refused q c s frame
            (record { running = o.running; context = o.context; state = o.state }) a,
        refl,
        refl,
        record { running = o.running; context = refl; state = refl },
        refl,
      )
