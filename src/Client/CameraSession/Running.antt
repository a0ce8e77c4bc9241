-- ===== src/Client/CameraSession/Running.antt =====
-- What a camera session (client/src/session/camera_session.cpp) promises.
use direct_link.Base.{
  ap₂, to_u64, ◌-ℤ◌, is_neg, is_zero, pos, ◌/◌, ◌≡◌, ◌∙◌, refl, inl, inr, Bool, true, false,
  if◌then◌else◌, String, some, List, [], ◌∷◌, map, arith, Bool-cases,
}
use direct_link.VideoCore.Types.{Packet}
use direct_link.VideoCore.Types
use direct_link.Gstreamer.{gst_second}
use direct_link.VideoCore.Ffmpeg.{Ffmpeg}
use direct_link.VideoCore.Capture.{Playing}
use direct_link.VideoCore.Pipeline.{VideoPipeline, is_success}
use direct_link.VideoCore.Pipeline
use direct_link.VideoCore.Pipeline.EncodeThread.{
  initialize-encode_thread, start-encode_thread, stop-encode_thread,
}
use direct_link.Networking.Types.{Result}
use direct_link.Networking.Publisher.{Publisher, Buffer, push_packet}
use direct_link.Networking.Publisher
use direct_link.Client.CameraSession
use direct_link.Client.CameraSession.{
  Session, Answers, published, capture_config, encoder_config, finish_start, start_pipeline,
  start_publisher, start_session, start, stop, push_packets,
}
use direct_link.Client.CameraSession.Parts.{
  initialize_complete, initialize-running, start-running, stop-running,
}

module _ (f : Ffmpeg) where
  -- A session runs exactly while its publisher does and its pipeline has an encode thread; its
  -- publisher then has a pipeline and a source.
  pub record Inv (s : Session f) : Type 0 where
    pub published_if_running : s.publisher.running ≡ s.is_running
    pub complete : s.is_running ≡ true → (s.publisher.pipeline ≡ true) × (s.publisher.appsrc ≡ true)
    pub threaded : s.pipeline.encode_thread ≡ s.is_running

  pub new-Inv : Inv (CameraSession.new f)
  new-Inv = record { published_if_running = refl; complete = λ h. ground arith; threaded = refl }

  -- A call of `start` keeps the invariant and says whether the session runs.
  record Told (r : Session f × Bool) : Type 0 where
    invariant : Inv r.0
    told : r.1 ≡ (r.0).is_running

  finish_start-Told :
      (s : Session f) (r : VideoPipeline f × Types.Result)
      → s.is_running ≡ false
      → s.publisher.running ≡ true
      → s.publisher.pipeline ≡ true
      → s.publisher.appsrc ≡ true
      → (r.0).encode_thread ≡ is_success r.1
      → Told (finish_start f s r)
  unfolding finish_start
  finish_start-Told s r i w p a t = ground (arith, stop-running s.publisher p)

  start_pipeline-Told :
      (s : Session f) (g : Playing) (r : Publisher × Result)
      → s.is_running ≡ false
      → s.pipeline.encode_thread ≡ false
      → (r.0).running ≡ published r.1
      → (r.0).pipeline ≡ true
      → (r.0).appsrc ≡ true
      → Told (start_pipeline f s g r)
  unfolding start_pipeline
  start_pipeline-Told s g r i t w p a = ground (
    arith,
    finish_start-Told (record s { publisher = r.0 }) (Pipeline.start f s.pipeline true g),
    start-encode_thread f s.pipeline true g t,
    stop-encode_thread f s.pipeline,
  )

  start_publisher-Told :
      (s : Session f) (a : Answers) (r : Publisher × Result)
      → s.is_running ≡ false
      → s.pipeline.encode_thread ≡ false
      → (r.0).running ≡ false
      → (published r.1 ≡ true → ((r.0).pipeline ≡ true) × ((r.0).appsrc ≡ true))
      → Told (start_publisher f s a r)
  unfolding start_publisher Publisher.set_keyframe_request_callback
  start_publisher-Told s a r i t w c = elim (Bool-cases (published r.1)) [
    | inr no_pub ↦ ground arith
    | inl ok ↦
        let w' : Publisher = record r.0 { has_keyframe_callback = true } in
        let q = start-running w' a.handshake a.waited (c ok).0 w in
        ground
          (arith, start_pipeline-Told s a.playing (Publisher.start w' a.handshake a.waited), c ok)
  ]

  -- A publisher that does not run drops every packet.
  push_packets-idle :
      (w : Publisher) (ps : List (Packet f.Payload)) (ok : Bool)
      → w.running ≡ false
      → (push_packets f w ps ok).0 ≡ w
  unfolding push_packets push_packet
  push_packets-idle w [] ok h = refl
  push_packets-idle w (packet ∷ rest) ok h = ground (arith, push_packets-idle w rest ok h)

  start_session-Told :
      (s : Session f) (url key : String) (a : Answers)
      (r : VideoPipeline f × Types.Result × List (Packet f.Payload))
      → Inv s
      → s.is_running ≡ false
      → (r.0).encode_thread ≡ false
      → Told (start_session f s url key a r)
  unfolding start_session
  start_session-Told s url key a r v i t =
      let q = push_packets-idle s.publisher r.2 true (v.published_if_running ∙ i) in
      let w = Publisher.initialize s.publisher url key encoder_config.framerate true a.elements in
      let wr = initialize-running s.publisher url key encoder_config.framerate true a.elements in
      let wc = initialize_complete s.publisher url key encoder_config.framerate true a.elements in
      elim (Bool-cases (is_success r.1)) [
        | inr failed ↦ ground arith
        | inl ok ↦ ground (
          arith,
          start_publisher-Told (record s { pipeline = r.0 }) a w i t
              (wr ∙ v.published_if_running ∙ i) wc,
        )
      ]

  -- Whatever GStreamer and FFmpeg answer, `start` of an idle session that has the invariant keeps
  -- it and reports whether the session now runs. By the invariant the publisher runs and the
  -- pipeline has an encode thread exactly if the session runs, so a `start` that reports failure
  -- leaves neither.
  pub start-Inv :
      (s : Session f) (url key : String) (a : Answers)
      → Inv s
      → s.is_running ≡ false
      → Inv (start f s url key a).0 × ((start f s url key a).1 ≡ (start f s url key a).0.is_running)
  unfolding start
  start-Inv s url key a v idle =
      let p =
        Pipeline.initialize f s.pipeline capture_config encoder_config a.has_pipewire a.probe in
      let t = start_session-Told s url key a p v idle (
        initialize-encode_thread f s.pipeline capture_config encoder_config a.has_pipewire a.probe
        ∙ v.threaded
        ∙ idle) in
      ground (arith, t.invariant, t.told)

  pub record Kept (w w' : Publisher) : Type 0 where
    pub running : w'.running ≡ true
    pub pipeline : w'.pipeline ≡ w.pipeline
    pub appsrc : w'.appsrc ≡ w.appsrc

  push_one :
      (w : Publisher) (packet : Packet f.Payload) (ok : Bool)
      → w.running ≡ true
      → w.appsrc ≡ true
      → Kept w (push_packet w packet ok).publisher
        × ((b : Buffer f.Payload) × ((push_packet w packet ok).buffer ≡ some b)
            × (b.payload ≡ packet.packet))
  unfolding push_packet
  push_one w packet ok r a = (
    ground arith,
    (
      record {
        payload = packet.packet;
        pts =
            to_u64 (
              packet.pts -ℤ (if is_neg w.stream_start_pts then packet.pts else w.stream_start_pts));
        duration = gst_second / to_u64 (if is_zero w.framerate then pos 30 else w.framerate);
      },
      ground arith,
      refl,
    ),
  )

  pub push_packets-Kept :
      (w : Publisher) (ps : List (Packet f.Payload)) (ok : Bool)
      → w.running ≡ true
      → w.appsrc ≡ true
      → Kept w (push_packets f w ps ok).0
        × (map (λ b. b.payload) (push_packets f w ps ok).1 ≡ map (λ p. p.packet) ps)
  unfolding push_packets
  push_packets-Kept w [] ok r a = (record { running = r; pipeline = refl; appsrc = refl }, refl)
  push_packets-Kept w (packet ∷ rest) ok r a =
      let one = push_one w packet ok r a in
      let (k, e) =
        push_packets-Kept (push_packet w packet ok).publisher rest ok (one.0).running
          ((one.0).appsrc ∙ a) in
      let (b, eb, pb) = one.1 in
      (
        record {
          running = k.running;
          pipeline = k.pipeline ∙ (one.0).pipeline;
          appsrc = k.appsrc ∙ (one.0).appsrc;
        },
        rw eb (ap₂ ◌∷◌ pb e),
      )

  stop-cleared :
      (w : Publisher)
      → w.running ≡ true
      → w.pipeline ≡ true
      → ((Publisher.stop w).0.running ≡ false) × ((Publisher.stop w).0.pipeline ≡ false)
  unfolding Publisher.stop
  stop-cleared w r p = (ground arith, ground arith)

  -- `stop` of a running session: what of the invariant it keeps, and what becomes of the packets that
  -- the pipeline hands on.
  pub stop_ends :
      (s : Session f) (ok : Bool)
      → Inv s
      → s.is_running ≡ true
      → let q = (stop f s ok).0 in
        Inv q
        × (q.is_running ≡ false)
        × (q.publisher.pipeline ≡ false)
        × (q.pipeline.encode_thread ≡ false)
        × (map (λ b. b.payload) (stop f s ok).1
            ≡ map (λ p. p.packet) (Pipeline.stop f s.pipeline).1)
  unfolding stop
  stop_ends s ok v r =
      let p = Pipeline.stop f s.pipeline in
      let (k, e) =
        push_packets-Kept s.publisher p.1 ok (v.published_if_running ∙ r) (v.complete r).1 in
      let t = stop-encode_thread f s.pipeline in
      let w =
        stop-cleared (push_packets f s.publisher p.1 ok).0 k.running
          (k.pipeline ∙ (v.complete r).0) in
      ground (arith, t, w, e)
