-- ===== src/Client/CameraSession/StartSteps.antt =====
-- `CameraSession::start` (client/src/session/camera_session.cpp) in the pool, one call after the
-- other, while the main thread may call `stop`. `isRunning_` is what the two have in common: `stop`
-- tests it first. The events of the publisher's source, which come once it plays, are left out.
use direct_link.Base.{Bool, true, false, not, if◌then◌else◌, String, List, [], ◌∷◌}
use direct_link.VideoCore.Types
use direct_link.VideoCore.Ffmpeg.{Ffmpeg}
use direct_link.VideoCore.Pipeline.{VideoPipeline, is_success}
use direct_link.VideoCore.Pipeline
use direct_link.VideoCore.Types.{Packet}
use direct_link.Networking.Types.{Result}
use direct_link.Networking.Publisher.{Publisher}
use direct_link.Networking.Publisher
use direct_link.Client.CameraSession.{
  Session, Answers, published, capture_config, encoder_config, push_packets, stop,
}
pub mod Lost
mod Tests

-- Which call of `start` has returned last, and its result; or what it has done since.
pub data StartPc : Type 0 where
  entered : StartPc
  pipeline_initialized : Types.Result → StartPc
  publisher_initialized : Result → StartPc
  callback_set : StartPc
  publisher_started : Result → StartPc
  pipeline_started : Types.Result → StartPc
  marked : StartPc  -- isRunning_ is set
  returned : Bool → StartPc

-- A step of the pool thread, or a whole `stop` of the main thread.
pub data Move : Type 0 where
  advances : Move
  stops : Bool → Move

module _ (f : Ffmpeg) where
  with_pipeline :
      Session f → VideoPipeline f × Types.Result × List (Packet f.Payload) → Session f × StartPc
  unfolding push_packets
  with_pipeline s (p, r, flushed) = (
    record s { pipeline = p; publisher = (push_packets f s.publisher flushed true).0 },
    pipeline_initialized r,
  )

  with_publisher : Session f → (Result → StartPc) → Publisher × Result → Session f × StartPc
  with_publisher s pc (w, r) = (record s { publisher = w }, pc r)

  with_started : Session f → VideoPipeline f × Types.Result → Session f × StartPc
  with_started s (p, r) = (record s { pipeline = p }, pipeline_started r)

  module _ (url key : String) (a : Answers) where
    unfoldable pub advance : Session f → StartPc → Session f × StartPc
    unfolding with_pipeline with_publisher with_started
    advance s entered =
        if s.is_running
        then (s, returned false)
        else with_pipeline s
            (Pipeline.initialize f s.pipeline capture_config encoder_config a.has_pipewire a.probe)
    advance s (pipeline_initialized r) =
        if not (is_success r)
        then (s, returned false)
        else with_publisher s publisher_initialized
            (Publisher.initialize s.publisher url key encoder_config.framerate true a.elements)
    advance s (publisher_initialized r) = if not (published r) then (s, returned false) else (
      record s { publisher = Publisher.set_keyframe_request_callback s.publisher true },
      callback_set,
    )
    advance s callback_set =
        with_publisher s publisher_started (Publisher.start s.publisher a.handshake a.waited)
    advance s (publisher_started r) =
        if not (published r)
        then (record s { pipeline = (Pipeline.stop f s.pipeline).0 }, returned false)
        else with_started s (Pipeline.start f s.pipeline true a.playing)
    advance s (pipeline_started r) =
        if not (is_success r)
        then (record s { publisher = (Publisher.stop s.publisher).0 }, returned false)
        else (record s { is_running = true }, marked)
    advance s marked = (s, returned true)
    advance s (returned b) = (s, returned b)

    unfoldable pub move : Move → Session f × StartPc → Session f × StartPc
    unfolding advance stop
    move advances (s, pc) = advance s pc
    move (stops flow_ok) (s, pc) = ((stop f s flow_ok).0, pc)

    -- Moves of the two threads, in this order.
    unfoldable pub run : List Move → Session f × StartPc → Session f × StartPc
    unfolding move
    run [] q = q
    run (m ∷ ms) q = run ms (move m q)
