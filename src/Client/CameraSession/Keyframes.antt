-- ===== src/Client/CameraSession/Keyframes.antt =====
-- A keyframe request of the remote decoder in a camera session
-- (client/src/session/camera_session.cpp), from the probe of the publisher to the encoder.
use direct_link.Base.{◌≡◌, refl, sym, ap, ◌∙◌, Bool, true, some, List, [], ◌∷◌, map, arith}
use direct_link.VideoCore.Types.{Packet, AvFrame, success}
use direct_link.VideoCore.Ffmpeg.{Ffmpeg, Rational, AvPacket}
use direct_link.VideoCore.Encode.{Context, EncoderState, wrap_packet}
use direct_link.VideoCore.Encode.Drain.{Yields}
use direct_link.VideoCore.Encode.Create.{Encoder, x264, nvenc, wrap_encoded}
use direct_link.VideoCore.Encode.Create
use direct_link.VideoCore.Encode.Software.{SoftwareEncoder, prepare}
use direct_link.VideoCore.Encode.Software
use direct_link.VideoCore.Encode.Nvenc
use direct_link.VideoCore.Encode.Software.Frames.{IsOpen, advance, encode_frame_accepted}
use direct_link.VideoCore.Pipeline.{request_keyframe}
use direct_link.VideoCore.Pipeline.Encoding.{counted, on_packets_all}
use direct_link.Networking.Publisher.{Publisher, Buffer, on_upstream_event}
use direct_link.Networking.Publisher.Timing.{push_all}
use direct_link.Client.CameraSession.{Session, on_upstream}
use direct_link.Client.CameraSession.Encoding.{encode_frame, paired, push_packets-push_all}
use direct_link.Client.CameraSession.Running.{push_packets-Kept}
use direct_link.Client.CameraSession.Sending.{encode_frame_wires}

module _ (f : Ffmpeg) where
  -- With NVENC, and whatever the event, nothing changes.
  on_upstream-nvenc :
      (s : Session f) (e : EncoderState f) (force_key_unit : Bool)
      → s.pipeline.encoder ≡ some (nvenc e)
      → (on_upstream f s force_key_unit).pipeline.encoder ≡ some (nvenc e)
  unfolding on_upstream request_keyframe on_upstream_event Create.request_keyframe
      Nvenc.request_keyframe
  on_upstream-nvenc s e force_key_unit h = ground arith

  record Requested (s q : Session f) (e : SoftwareEncoder f) : Type 0 where
    encoder : q.pipeline.encoder ≡ some (x264 (Software.request_keyframe f e))
    has_packet_callback : q.pipeline.has_packet_callback ≡ s.pipeline.has_packet_callback
    publisher : q.publisher ≡ s.publisher

  on_upstream-Requested :
      (s : Session f) (e : SoftwareEncoder f)
      → s.pipeline.encoder ≡ some (x264 e)
      → s.publisher.has_keyframe_callback ≡ true
      → Requested s (on_upstream f s true) e
  unfolding on_upstream request_keyframe on_upstream_event Create.request_keyframe
  on_upstream-Requested s e h k = ground arith

  map-wrap_packet :
      (tb : Rational) (ps : List (AvPacket f.Payload))
      → map (λ p. p.packet) (map (wrap_packet f tb) ps) ≡ map (λ p. p.payload) ps
  unfolding wrap_packet
  map-wrap_packet tb [] = refl
  map-wrap_packet tb (p ∷ ps) = ap (λ xs. p.payload ∷ xs) (map-wrap_packet tb ps)

  -- All packets reach the source of a publisher that runs and has one.
  push_all-payloads :
      (w : Publisher) (ps : List (Packet f.Payload)) (ok : Bool)
      → w.running ≡ true
      → w.appsrc ≡ true
      → map (λ b. b.payload) (push_all w (paired f ok ps)).1 ≡ map (λ p. p.packet) ps
  push_all-payloads w ps ok r a =
      ap (λ q. map (λ b. b.payload) q.1) (sym (push_packets-push_all f w ps ok))
      ∙ (push_packets-Kept f w ps ok r a).1

  -- The frame as it goes to x264 when a keyframe is requested, and the codec's answer.
  abbrev pub forced : Context f → f.State → AvFrame f.Image → f.State × Bool
  forced c st frame = f.send_frame st (some (prepare f c.settings true frame))

  -- An event that asks for a key unit arrives at the source of a session whose publisher runs with
  -- a source and has its keyframe callback, and whose pipeline encodes by x264 with its callbacks.
  -- If x264 accepts the frame that the encode thread takes next, it was sent as an intra frame, all
  -- that the codec then yields reaches the network, in order, and the encoder no longer holds the
  -- request.
  pub on_upstream_forces :
      (s : Session f) (e : SoftwareEncoder f) (c : Context f) (st : f.State)
      (frame : AvFrame f.Image) (ok : Bool)
      → s.pipeline.encoder ≡ some (x264 e)
      → s.pipeline.has_packet_callback ≡ true
      → s.publisher.has_keyframe_callback ≡ true
      → s.publisher.running ≡ true
      → s.publisher.appsrc ≡ true
      → IsOpen f e c st
      → e.has_callback ≡ true
      → (forced c st frame).1 ≡ true
      → (ps : List (AvPacket f.Payload)) × (t : f.State) × (q : Session f) × (bs : List
          (Buffer f.Payload))
        × Yields f (forced c st frame).0 t ps
        × (encode_frame f (on_upstream f s true) (frame, ok) ≡ some (q, bs))
        × (map (λ b. b.payload) bs ≡ map (λ p. p.payload) ps)
        × (q.pipeline.encoder ≡ some (x264 (advance f e c t)))
        × ((prepare f c.settings true frame).intra ≡ true)
  unfolding Create.encode_frame Software.request_keyframe prepare
  on_upstream_forces s e c st frame ok h cb k r a o ecb accepted =
      let v = on_upstream-Requested s e h k in
      let q = on_upstream f s true in
      let e' = Software.request_keyframe f e in
      let (ps, t, y, sent) =
        encode_frame_accepted f e' c st frame
          (record { running = o.running; context = o.context; state = o.state }) ecb accepted in
      let wrapped = map (wrap_packet f c.settings.time_base) ps in
      let d : Encoder f = x264 (advance f e c t) in
      let w = push_all q.publisher (paired f ok wrapped) in
      (
        ps,
        t,
        record q { pipeline = counted f q.pipeline d wrapped; publisher = w.0 },
        w.1,
        y,
        encode_frame_wires f q (x264 e') frame ok
            (record { encoder = d; result = success; delivered = wrapped }) v.encoder
            (v.has_packet_callback ∙ cb) (ap (λ z. wrap_encoded f x264 z) sent),
        push_all-payloads q.publisher wrapped ok (ap (λ p. p.running) v.publisher ∙ r)
              (ap (λ p. p.appsrc) v.publisher ∙ a)
            ∙ map-wrap_packet c.settings.time_base ps,
        (on_packets_all f (record q.pipeline { encoder = some d }) wrapped
            (v.has_packet_callback ∙ cb)).2,
        refl,
      )
