-- ===== src/Client/CameraSession/Destruction.antt =====
-- The destruction of a camera session (client/src/session/camera_session.hpp): `~CameraSession` and
-- `~VideoPipeline` are defaulted, so the members go in the reverse of their order, while the capture
-- thread and the encode thread still run unless the session was stopped before.
use direct_link.Base.{Bool, true, false, if◌then◌else◌, Option, none, some, List, [], ◌∷◌}
use direct_link.VideoCore.Types.{Packet}
use direct_link.VideoCore.Ffmpeg.{Ffmpeg}
use direct_link.VideoCore.Encode.Create.{Encoder}
use direct_link.VideoCore.Encode.Create
use direct_link.VideoCore.Pipeline.{VideoPipeline}
use direct_link.VideoCore.Pipeline.Encoding.{encode_taken}
use direct_link.VideoCore.Pipeline.Threads
use direct_link.VideoCore.Pipeline.Threads.{
  Threads, capture_push, capture_notify, encode_step, owner_step, EncodePc, encoding, exited,
  CapturePc, ready, joined,
}
use direct_link.Networking.Publisher
use direct_link.Client.Task.{Outcome, moves, disabled, faults, ◌>>=◌}
use direct_link.Client.CameraSession.Live.{Shot, Live}
use direct_link.Client.CameraSession.Live
pub mod EncodeStep
pub mod Unstopped
pub mod Stopped
mod Tests

-- How far the destruction has come.
pub data Stage : Type 0 where
  whole : Stage  -- about to destroy whipPublisher_
  unpublished : Stage  -- about to destroy encodeThread_: request its stop
  joining : Stage  -- blocked in the join of encodeThread_
  unthreaded : Stage  -- about to destroy queueCondition_, queueMutex_, frameQueue_ and the callbacks
  unqueued : Stage  -- about to destroy encoder_
  unencoded : Stage  -- about to destroy captureDevice_, whose destructor joins the capture thread
  gone : Stage

-- Whether the publisher, or the queue with its mutex and the callbacks, are destroyed.
abbrev pub publisher_gone : Stage → Bool
publisher_gone whole = false
publisher_gone s = true

abbrev pub queue_gone : Stage → Bool
queue_gone unqueued = true
queue_gone unencoded = true
queue_gone gone = true
queue_gone s = false

module _ (f : Ffmpeg) where
  pub record Dying : Type 0 where
    pub live : Live f
    pub stage : Stage

  pub data Label : Type 0 where
    destroys : Label
    thread : Threads.Label (Shot f) → Label

  any_packet : Option (VideoPipeline f × List (Packet f.Payload)) → Bool
  any_packet (some (p, packet ∷ rest)) = true
  any_packet o = false

  -- The frame in `encodeFrame` yields a packet, which the callback gives to `pushPacket`.
  unfoldable pub sends : VideoPipeline f → Shot f → Bool
  unfolding any_packet encode_taken
  sends p (frame, flow_ok) = any_packet (encode_taken f p frame)

  -- A step of a thread that uses a member which is destroyed.
  pub uses_gone : Threads.Label (Shot f) → EncodePc (Shot f) → Dying → Bool
  unfolding sends
  uses_gone encode_step (encoding shot) d =
      let sent = sends d.live.session.pipeline shot in
      if publisher_gone d.stage then sent else false
  uses_gone (capture_push shot) pc d = queue_gone d.stage
  uses_gone capture_notify pc d = queue_gone d.stage
  uses_gone l pc d = false

  unfoldable pub checked : Bool → Live f → Outcome (Live f)
  checked true t = faults
  checked false t = moves t

  -- The thread that destroys is the owner of the pipeline, so that it makes no step of `stop`.
  thread_next : Threads.Label (Shot f) → Dying → Outcome Dying
  unfolding uses_gone checked Live.fire
  thread_next owner_step d = disabled
  thread_next l d = Live.fire f l d.live >>= λ t.
      checked (uses_gone l d.live.threads.encode_pc d) t >>= λ u. moves (record d { live = u })

  abbrev with_pipeline : VideoPipeline f → Live f → Live f
  with_pipeline p t = record t { session = record t.session { pipeline = p } }

  -- The destructor of the encoder: packets that it flushes go to the callbacks, which are destroyed.
  flushed : List (Packet f.Payload) → Dying → Outcome Dying
  flushed [] d = moves (record d { stage = unencoded })
  flushed (packet ∷ rest) d = faults

  pub destroy_encoder : Option (Encoder f) → Dying → Outcome Dying
  unfolding flushed Create.destroy
  destroy_encoder none d = moves (record d { stage = unencoded })
  destroy_encoder (some e) d =
      let t = d.live in
      flushed (Create.destroy f e).1
        (record d { live = with_pipeline (record t.session.pipeline { encoder = none }) t })

  join_encode : EncodePc (Shot f) → Dying → Outcome Dying
  join_encode exited d = moves (record d { stage = unthreaded })
  join_encode pc d = disabled

  -- `CameraCapture::stop` returns once the capture thread is between two frames and has ended.
  destroy_capture : CapturePc → Dying → Outcome Dying
  destroy_capture ready d =
      let t = d.live in
      let p = t.session.pipeline in
      moves (record d {
        live =
            with_pipeline (record p { capture_device = none })
              (record t { threads = record t.threads { capture_pc = joined } });
        stage = gone;
      })
  destroy_capture joined d =
      let t = d.live in
      moves (record d {
        live = with_pipeline (record t.session.pipeline { capture_device = none }) t;
        stage = gone;
      })
  destroy_capture pc d = disabled

  pub destroy_next : Stage → Dying → Outcome Dying
  unfolding join_encode destroy_encoder destroy_capture Publisher.destroy
  destroy_next whole d =
      let t = d.live in
      moves (record d {
        live = record t {
          session = record t.session { publisher = Publisher.destroy t.session.publisher };
        };
        stage = unpublished;
      })
  destroy_next unpublished d =
      let t = d.live in
      moves (record d {
        live = record t { threads = record t.threads { stop_requested = true } };
        stage = joining;
      })
  destroy_next joining d = join_encode d.live.threads.encode_pc d
  destroy_next unthreaded d =
      let t = d.live in
      moves (record d {
        live = record t { threads = record t.threads { frame_queue = [] } };
        stage = unqueued;
      })
  destroy_next unqueued d = destroy_encoder d.live.session.pipeline.encoder d
  destroy_next unencoded d = destroy_capture d.live.threads.capture_pc d
  destroy_next gone d = disabled

  unfoldable pub fire : Label → Dying → Outcome Dying
  unfolding destroy_next thread_next
  fire destroys d = destroy_next d.stage d
  fire (thread l) d = thread_next l d

  unfoldable pub run : List Label → Dying → Outcome Dying
  unfolding fire
  run [] d = moves d
  run (l ∷ ls) d = fire l d >>= λ e. run ls e
