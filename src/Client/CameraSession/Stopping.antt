-- ===== src/Client/CameraSession/Stopping.antt =====
-- `CameraSession::stop` (client/src/session/camera_session.cpp), from the flush of the codec to the
-- source of the publisher.
use direct_link.Base.{◌≡◌, refl, ap, ◌∙◌, Bool, true, false, none, some, List, [], ◌∷◌, map, arith}
use direct_link.VideoCore.Ffmpeg.{Ffmpeg, AvPacket, Rational}
use direct_link.VideoCore.Encode.{Context, wrap_packet}
use direct_link.VideoCore.Encode.Drain.{Yields, receive_packets_wraps}
use direct_link.VideoCore.Encode.Create.{Encoder, x264, nvenc, state}
use direct_link.VideoCore.Encode.Create
use direct_link.VideoCore.Pipeline.{VideoPipeline, stop_capture}
use direct_link.VideoCore.Pipeline
use direct_link.VideoCore.Pipeline.Encoding.{on_packets_all}
use direct_link.Client.CameraSession.{Session, stop}
use direct_link.Client.CameraSession.Running.{Inv, stop_ends}

module _ (f : Ffmpeg) where
  -- The encoder runs with a callback, and its context has this codec behind it.
  pub record Encodes (e : Encoder f) (s : f.State) : Type 0 where
    pub running : (state f e).running ≡ true
    pub has_callback : (state f e).has_callback ≡ true
    pub context : Context f
    pub held : (state f e).codec_ctx ≡ some context
    pub opened : context.opened ≡ some s

  stop_flushes :
      (e : Encoder f) (s : f.State) (v : Encodes e s)
      → (ps : List (AvPacket f.Payload)) × (t : f.State) × Yields f (f.send_frame s none).0 t ps
        × ((Create.stop f e).1 ≡ map (wrap_packet f v.context.settings.time_base) ps)
  unfolding Create.stop
  stop_flushes (x264 e) s v =
      let (ps, y, m) =
        receive_packets_wraps f v.context.settings.time_base (f.send_frame s none).0 in
      (ps, _, y, ground (arith, m, v.running, v.has_callback, v.held, v.opened))
  stop_flushes (nvenc e) s v =
      let (ps, y, m) =
        receive_packets_wraps f v.context.settings.time_base (f.send_frame s none).0 in
      (ps, _, y, ground (arith, m, v.running, v.has_callback, v.held, v.opened))

  payloads :
      (tb : Rational) (ps : List (AvPacket f.Payload))
      → map (λ q. q.packet) (map (wrap_packet f tb) ps) ≡ map (λ p. p.payload) ps
  unfolding wrap_packet
  payloads tb [] = refl
  payloads tb (p ∷ ps) = ap (λ xs. p.payload ∷ xs) (payloads tb ps)

  stop-forwards :
      (p : VideoPipeline f) (e : Encoder f)
      → p.encoder ≡ some e
      → p.has_packet_callback ≡ true
      → (Pipeline.stop f p).1 ≡ (Create.stop f e).1
  unfolding Pipeline.stop
  stop-forwards p e h cb =
      rw h
        (on_packets_all f
          (record p {
            capture_device = stop_capture f p.capture_device;
            encode_thread = false;
            encoder = some (Create.stop f e).0;
          })
          (Create.stop f e).1 cb).0

  -- `stop` of a running session that has the invariant, whose pipeline has its packet callback and an
  -- encoder that runs with a callback, keeps the invariant and ends both halves: the session is idle,
  -- the publisher has released its pipeline and the encode thread is joined; and every packet that the
  -- codec yields once it is flushed reaches the source of the publisher, in order, until it has no more.
  pub stop-Inv :
      (s : Session f) (e : Encoder f) (codec : f.State) (ok : Bool)
      → Inv f s
      → s.is_running ≡ true
      → s.pipeline.encoder ≡ some e
      → s.pipeline.has_packet_callback ≡ true
      → Encodes e codec
      → let q = (stop f s ok).0 in
        Inv f q
        × (q.is_running ≡ false)
        × (q.publisher.pipeline ≡ false)
        × (q.pipeline.encode_thread ≡ false)
        × ((ps : List (AvPacket f.Payload)) × (t : f.State) × Yields f
              (f.send_frame codec none).0
              t
              ps
            × (map (λ b. b.payload) (stop f s ok).1 ≡ map (λ p. p.payload) ps))
  stop-Inv s e codec ok v r h cb w =
      let (i, idle, released, joined, sent) = stop_ends f s ok v r in
      let (ps, t, y, m) = stop_flushes e codec w in
      (
        i,
        idle,
        released,
        joined,
        (
          ps,
          t,
          y,
          sent
              ∙ ap (λ qs. map (λ q. q.packet) qs) (stop-forwards s.pipeline e h cb ∙ m)
              ∙ payloads w.context.settings.time_base ps,
        ),
      )
