-- ===== src/Client/CameraSession.antt =====
-- client/src/session/camera_session.cpp and camera_session.hpp, in the branch for systems other than
-- Windows: the pipeline and the publisher of an operator, joined by their callbacks.
use direct_link.Base.{
  ℕ, Bool, true, false, not, if◌then◌else◌, String, Option, none, some, List, [], ◌∷◌, ℤ, pos,
}
use direct_link.VideoCore.Types.{Packet}
use direct_link.VideoCore.Types
use direct_link.VideoCore.Ffmpeg.{Ffmpeg}
use direct_link.VideoCore.Encode.{EncoderConfig, ultra_fast}
use direct_link.VideoCore.Encode
use direct_link.VideoCore.Capture.{CaptureConfig, Probe, Playing}
use direct_link.VideoCore.Capture
use direct_link.VideoCore.Pipeline.{VideoPipeline, is_success}
use direct_link.VideoCore.Pipeline
use direct_link.Networking.Types.{Result, success}
use direct_link.Networking.Publisher.{Publisher, Buffer, Elements, on_upstream_event, cons_buffer}
use direct_link.Networking.Publisher
use direct_link.Gstreamer.{StateChange}
pub mod Parts
pub mod Running
pub mod Stopping
pub mod Sample
pub mod Encoding
pub mod Sending
pub mod Keyframes
pub mod StartSteps
pub mod Live
pub mod Destruction
mod Tests

pub record Session (f : Ffmpeg) : Type 0 where
  pub pipeline : VideoPipeline f
  pub publisher : Publisher
  pub is_running : Bool

-- What GStreamer answers while a session starts.
pub record Answers : Type 0 where
  pub has_pipewire : Bool
  pub probe : String → Probe
  pub elements : Elements
  pub handshake : StateChange
  pub waited : StateChange
  pub playing : Playing

abbrev pub capture_config : CaptureConfig
capture_config = record Capture.default_config {
  device_path = "/dev/video0";
  input_format = "v4l2";
  pixel_format = "mjpeg";
  width = pos 1280;
  height = pos 720;
  framerate = pos 30;
}

abbrev pub encoder_config : EncoderConfig
encoder_config = record Encode.default_config {
  width = pos 1280;
  height = pos 720;
  framerate = pos 30;
  bitrate = pos 4000000;
  preset = ultra_fast;
}

abbrev pub published : Result → Bool
published success = true
published r = false

module _ (f : Ffmpeg) where
  abbrev pub new : Session f
  new = record { pipeline = Pipeline.new f; publisher = Publisher.new; is_running = false }

  -- From `pipeline_.start` on: its packets go to the publisher.
  finish_start : Session f → VideoPipeline f × Types.Result → Session f × Bool
  finish_start s (p, r) =
      if not (is_success r)
      then (record s { pipeline = p; publisher = (Publisher.stop s.publisher).0 }, false)
      else (record s { pipeline = p; is_running = true }, true)

  -- From `whipPublisher_.start` on.
  start_pipeline : Session f → Playing → Publisher × Result → Session f × Bool
  start_pipeline s g (w, r) =
      if not (published r)
      then (record s { publisher = w; pipeline = (Pipeline.stop f s.pipeline).0 }, false)
      else finish_start (record s { publisher = w }) (Pipeline.start f s.pipeline true g)

  -- From `whipPublisher_.initialize` on.
  start_publisher : Session f → Answers → Publisher × Result → Session f × Bool
  start_publisher s a (w, r) =
      if not (published r)
      then (record s { publisher = w }, false)
      else (let w' = Publisher.set_keyframe_request_callback w true in
          start_pipeline s a.playing (Publisher.start w' a.handshake a.waited))

  -- The packet callback for one packet after the other; the buffers that reach the source.
  pub push_packets :
      Publisher → List (Packet f.Payload) → Bool → Publisher × List (Buffer f.Payload)
  push_packets w [] flow_ok = (w, [])
  push_packets w (packet ∷ rest) flow_ok =
      let r = Publisher.push_packet w packet flow_ok in
      let (w', bs) = push_packets r.publisher rest flow_ok in (w', cons_buffer r.buffer bs)

  -- From `pipeline_.initialize` on. The packets that an earlier encoder flushes go to the callback
  -- of the last `pipeline_.start`; the answer of the source to them changes a log line only.
  start_session :
      Session f
      → String
      → String
      → Answers
      → VideoPipeline f × Types.Result × List (Packet f.Payload)
      → Session f × Bool
  start_session s url key a (p, r, flushed) =
      let t = record s { pipeline = p; publisher = (push_packets s.publisher flushed true).0 } in
      if not (is_success r)
      then (t, false)
      else start_publisher t a
          (Publisher.initialize t.publisher url key encoder_config.framerate true a.elements)

  pub start : Session f → String → String → Answers → Session f × Bool
  start s url key a =
      if s.is_running
      then (s, false)
      else start_session s url key a
          (Pipeline.initialize f s.pipeline capture_config encoder_config a.has_pipewire a.probe)

  unfoldable pub set_preview_callback : Session f → Bool → Session f
  set_preview_callback s cb = record s { pipeline = Pipeline.set_preview_callback f s.pipeline cb }

  -- The encoder flushes into the publisher before that is stopped. `flow_ok` is what the source
  -- answers to the flushed packets.
  pub stop : Session f → Bool → Session f × List (Buffer f.Payload)
  stop s flow_ok =
      if not s.is_running
      then (s, [])
      else (let (p, flushed) = Pipeline.stop f s.pipeline in
          let (w, bs) = push_packets s.publisher flushed flow_ok in
          (record s { pipeline = p; publisher = (Publisher.stop w).0; is_running = false }, bs))

  -- A PLI or FIR of the remote decoder: the probe calls the callback, which asks the pipeline.
  unfoldable pub on_upstream : Session f → Bool → Session f
  on_upstream s force_key_unit =
      if on_upstream_event s.publisher force_key_unit
      then record s { pipeline = Pipeline.request_keyframe f s.pipeline }
      else s
