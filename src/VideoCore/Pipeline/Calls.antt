-- ===== src/VideoCore/Pipeline/Calls.antt =====
-- What `initialize`, `start` and `stop` of video-core/src/pipeline/video_pipeline.cpp do to the
-- capture device and to the encoder.
use direct_link.Base.{
  ◌≡◌, Bool, true, false, ◌&&◌, if◌then◌else◌, none, some, List, [], ◌∷◌, refl, arith,
}
use direct_link.VideoCore.Types.{Packet, Result, success, error_init_failed, error_capture_failed}
use direct_link.VideoCore.Ffmpeg.{Ffmpeg}
use direct_link.VideoCore.Encode.{Context}
use direct_link.VideoCore.Encode.Owned.{Owns}
use direct_link.VideoCore.Encode.Contract.{stop_releases, initialize_leaks, codec_of}
use direct_link.VideoCore.Encode.Create.{Encoder, state}
use direct_link.VideoCore.Encode.Create
use direct_link.VideoCore.Capture.{Capture, Playing, plays, absent, looping}
use direct_link.VideoCore.Capture
use direct_link.VideoCore.Capture.Lifecycle
use direct_link.VideoCore.Pipeline.{VideoPipeline, is_success, on_packet, on_packets, start, stop}

module _ (f : Ffmpeg) where
  -- An initialized pipeline that does not run.
  pub record IsReady (p : VideoPipeline f) (c : Capture) (e : Encoder f) : Type 0 where
    pub capture : p.capture_device ≡ some c
    pub encoder : p.encoder ≡ some e
    pub unthreaded : p.encode_thread ≡ false
    pub pipeline : c.pipeline ≡ true
    pub idle : c.running ≡ false
    pub unjoined : c.capture_thread ≡ absent

  -- The encoder as `start` opens it.
  abbrev pub open_encoder : VideoPipeline f → Encoder f → Encoder f × Result
  open_encoder p e = Create.initialize f e p.encoder_config true

  module _ (p : VideoPipeline f) (c : Capture) (e : Encoder f) (cb : Bool) (g : Playing) where
    abbrev opened : Encoder f × Result
    opened = open_encoder p e

    -- `start` of a ready pipeline: it succeeds exactly when the encoder opens and the capture
    -- reaches PLAYING, and only then has an encode thread. An encoder that fails leaves the
    -- capture alone; a capture that fails leaves the encoder open.
    start_opens :
        IsReady p c e
        → let r = start f p cb g in
          ((r.1) ≡ (
            if is_success opened.1
            then (if plays g then success else error_capture_failed)
            else error_init_failed))
          × ((r.0).encode_thread ≡ (is_success opened.1 && plays g))
          × ((r.0).encoder ≡ some opened.0)
          × ((r.0).capture_device
              ≡ some (if is_success opened.1 then (Capture.start c true g).0 else c))
    unfolding start
    start_opens v = ground (arith, Lifecycle.start-plays c true g v.pipeline v.idle v.unjoined)

    -- A capture that did not start leaves a pipeline that is ready again, with the encoder open.
    start_failed-IsReady :
        IsReady p c e
        → opened.1 ≡ success
        → plays g ≡ false
        → IsReady (start f p cb g).0 (Capture.start c true g).0 opened.0
    start_failed-IsReady v ok stuck =
        let o = start_opens v in
        let k = Lifecycle.start-plays c true g v.pipeline v.idle v.unjoined in
        record {
          capture = ground arith;
          encoder = o.2;
          unthreaded = ground arith;
          pipeline = unfold Capture.start in ground arith;
          idle = ground arith;
          unjoined = ground arith;
        }

  -- When the encoder of a ready pipeline opens, owning its context, and the capture does not
  -- start, `start` reports it and keeps the encoder open; the next `start` opens a second codec
  -- context over it, once FFmpeg has the codec and allocates: two are live, and the encoder holds
  -- one at most.
  start_again_leaks :
      (p : VideoPipeline f) (c : Capture) (e : Encoder f) (cb : Bool) (g h : Playing)
      (x : Context f)
      → IsReady p c e
      → Owns f (state f (open_encoder p e).0)
      → (open_encoder p e).1 ≡ success
      → (state f (open_encoder p e).0).codec_ctx ≡ some x
      → plays g ≡ false
      → f.find_encoder_by_name (codec_of f (open_encoder p e).0) ≡ true
      → f.alloc_context (codec_of f (open_encoder p e).0) ≡ true
      → let q = (start f p cb g).0 in
        ((start f p cb g).1 ≡ error_capture_failed)
        × ((e' : Encoder f) × ((start f q cb h).0.encoder ≡ some e')
            × ((state f e').live_contexts ≡ 2))
  start_again_leaks p c e cb g h x v w ok has stuck found made =
      let opened : Encoder f × Result = Create.initialize f e p.encoder_config true in
      let o = start_opens p c e cb g v in
      let r =
        start_opens (start f p cb g).0 (Capture.start c true g).0 opened.0 cb h
          (start_failed-IsReady p c e cb g v ok stuck) in
      (
        ground arith,
        (
          (Create.initialize f opened.0 (start f p cb g).0.encoder_config true).0,
          r.2,
          initialize_leaks f opened.0 x (start f p cb g).0.encoder_config true w has found made,
        ),
      )

  pub on_packets-rest :
      (p : VideoPipeline f) (ps : List (Packet f.Payload))
      → let q = (on_packets f p ps).0 in
        (q.capture_device ≡ p.capture_device)
        × (q.encoder ≡ p.encoder)
        × (q.encode_thread ≡ p.encode_thread)
        × (q.encoder_config ≡ p.encoder_config)
  unfolding on_packets
  on_packets-rest p [] = (refl, refl, refl, refl)
  on_packets-rest p (packet ∷ rest) = on_packets-rest (on_packet f p packet).0 rest

  -- The pipeline whose devices are stopped, before the flushed packets are counted.
  abbrev stopped : VideoPipeline f → Capture → Encoder f → VideoPipeline f
  stopped p c e = record p {
    capture_device = some (Capture.stop c).0;
    encode_thread = false;
    encoder = some (Create.stop f e).0;
  }

  stop_running :
      (p : VideoPipeline f) (c : Capture) (e : Encoder f)
      → p.capture_device ≡ some c
      → p.encoder ≡ some e
      → c.running ≡ true
      → stop f p ≡ on_packets f (stopped p c e) (Create.stop f e).1
  unfolding stop
  stop_running p c e pc pe r = ground arith

  -- `stop` of a pipeline whose capture runs and has its invariant, and whose encoder owns its
  -- context, leaves a pipeline that is ready to start again: the capture is stopped and its thread
  -- joined, the encode thread is joined, and the encoder has given up its codec context.
  pub stop-IsReady :
      (p : VideoPipeline f) (c : Capture) (e : Encoder f)
      → p.capture_device ≡ some c
      → p.encoder ≡ some e
      → Lifecycle.Inv c
      → c.running ≡ true
      → Owns f (state f e)
      → IsReady (stop f p).0 (Capture.stop c).0 (Create.stop f e).0
        × ((state f (Create.stop f e).0).codec_ctx ≡ none)
        × ((state f (Create.stop f e).0).live_contexts ≡ 0)
  stop-IsReady p c e pc pe v r w =
      let q = on_packets-rest (stopped p c e) (Create.stop f e).1 in
      let released = stop_releases f e w in
      (
        record {
          capture = rw (stop_running p c e pc pe r) q.0;
          encoder = rw (stop_running p c e pc pe r) q.1;
          unthreaded = rw (stop_running p c e pc pe r) q.2;
          pipeline = unfold Capture.stop in ground arith;
          idle = unfold Capture.stop in ground arith;
          unjoined = unfold Capture.stop in ground arith;
        },
        released.1,
        released.2,
      )
