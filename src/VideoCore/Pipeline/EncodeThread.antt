-- ===== src/VideoCore/Pipeline/EncodeThread.antt =====
-- When the pipeline (video-core/src/pipeline/video_pipeline.cpp) has an encode thread.
use direct_link.Base.{◌≡◌, ◌∙◌, refl, Bool, false, String, Option, none, some, arith}
use direct_link.VideoCore.Ffmpeg.{Ffmpeg}
use direct_link.VideoCore.Encode.{EncoderConfig}
use direct_link.VideoCore.Encode.Create.{Encoder}
use direct_link.VideoCore.Encode.Create
use direct_link.VideoCore.Types.{Result}
use direct_link.VideoCore.Capture
use direct_link.VideoCore.Capture.{Capture, CaptureConfig, Probe, Playing}
use direct_link.VideoCore.Pipeline.{
  VideoPipeline, is_success, drop_encoder, initialize_encoder, initialize, start, stop_encoder,
  stop,
}
use direct_link.VideoCore.Pipeline.Calls.{on_packets-rest}

module _ (f : Ffmpeg) where
  drop_encoder-encode_thread :
      (p : VideoPipeline f) (e : Option (Encoder f))
      → (drop_encoder f p e).0.encode_thread ≡ p.encode_thread
  unfolding drop_encoder
  drop_encoder-encode_thread p none = refl
  drop_encoder-encode_thread p (some e) = (on_packets-rest f p (Create.destroy f e).1).2

  initialize_encoder-encode_thread :
      (p : VideoPipeline f) (r : Capture × Result)
      → (initialize_encoder f p r).0.encode_thread ≡ p.encode_thread
  unfolding initialize_encoder
  initialize_encoder-encode_thread p r =
      let q : VideoPipeline f = record p { capture_device = some r.0 } in
      ground (arith, drop_encoder-encode_thread q q.encoder)

  pub initialize-encode_thread :
      (p : VideoPipeline f) (c : CaptureConfig) (e : EncoderConfig) (w : Bool)
      (probe : String → Probe)
      → (initialize f p c e w probe).0.encode_thread ≡ p.encode_thread
  unfolding initialize
  initialize-encode_thread p c e w probe =
      initialize_encoder-encode_thread (record p { encoder_config = e })
        (Capture.initialize Capture.new c w probe)

  pub start-encode_thread :
      (p : VideoPipeline f) (cb : Bool) (g : Playing)
      → p.encode_thread ≡ false
      → (start f p cb g).0.encode_thread ≡ is_success (start f p cb g).1
  unfolding start
  start-encode_thread p cb g h = ground arith

  stop_encoder-encode_thread :
      (p : VideoPipeline f) (e : Option (Encoder f))
      → p.encode_thread ≡ false
      → (stop_encoder f p e).0.encode_thread ≡ false
  unfolding stop_encoder
  stop_encoder-encode_thread p none h = h
  stop_encoder-encode_thread p (some e) h =
      (on_packets-rest f (record p { encoder = some (Create.stop f e).0 }) (Create.stop f e).1).2
      ∙ h

  pub stop-encode_thread : (p : VideoPipeline f) → (stop f p).0.encode_thread ≡ false
  unfolding stop
  stop-encode_thread p = stop_encoder-encode_thread _ p.encoder refl
