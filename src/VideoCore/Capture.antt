-- ===== src/VideoCore/Capture.antt =====
-- video-core/src/capture/camera_capture.cpp and include/capture/camera_capture.hpp: the state of `CameraCapture`, and
-- `initialize`, `start` and `stop`. What GStreamer answers is an argument; log lines are left out.
use direct_link.Base.{
  ℕ, Bool, true, false, not, ◌&&◌, ◌||◌, if◌then◌else◌, String, Option, none, some, List, [], ◌∷◌,
  ◌++◌, ℤ, pos, is_zero, to_string,
}
use direct_link.VideoCore.Types.{
  Result, success, error_device_not_found, error_init_failed, error_capture_failed,
}
use direct_link.Gstreamer.{
  GstState, null, ready, paused, playing, StateChange, failure, async, no_preroll,
}
use direct_link.Gstreamer
mod Candidates
pub use Candidates.{CaptureConfig, default_config}
unfoldable pub use Candidates.{apply_defaults, candidates}
pub mod Probing
pub mod Lifecycle
pub mod Loop
mod Tests

-- The capture thread: not joinable, in its loop, or ended and not joined.
pub data Thread : Type 0 where
  absent looping ended : Thread

-- Of the GStreamer objects it matters whether the pointers are null, and the state that was asked
-- of the pipeline last. `faulted` records the history: a pipeline was used after its last reference
-- was given back. The code keeps no such record.
pub record Capture : Type 0 where
  pub config : CaptureConfig
  pub pipeline : Bool
  pub appsink : Bool
  pub running : Bool
  pub capture_thread : Thread
  pub width : ℤ
  pub height : ℤ
  pub framerate : ℤ
  pub has_callback : Bool
  pub requested : GstState
  pub faulted : Bool

abbrev pub new : Capture
new = record {
  config = default_config;
  pipeline = false;
  appsink = false;
  running = false;
  capture_thread = absent;
  width = pos 0;
  height = pos 0;
  framerate = pos 0;
  has_callback = false;
  requested = null;
  faulted = false;
}

-- What GStreamer answers for one description.
pub record Probe : Type 0 where
  pub parse_error : Bool
  pub parsed : Bool  -- gst_parse_launch gave a pipeline
  pub set_ready : StateChange
  pub get_ready : StateChange
  pub reached : GstState
  pub sink : Bool  -- the pipeline has an element called sink

abbrev pub is_failure : StateChange → Bool
is_failure failure = true
is_failure ret = false

abbrev is_ready : GstState → Bool
is_ready ready = true
is_ready s = false

abbrev is_playing : GstState → Bool
is_playing playing = true
is_playing s = false

-- `ret != GST_STATE_CHANGE_FAILURE && reached == GST_STATE_READY`; gst_element_get_state is not
-- asked after a failure.
unfoldable pub reaches_ready : Probe → Bool
reaches_ready g = not (is_failure g.set_ready) && not (is_failure g.get_ready) && is_ready g.reached

-- The candidate is kept.
unfoldable pub kept : Probe → Bool
unfolding reaches_ready
kept g = not g.parse_error && g.parsed && reaches_ready g && g.sink

-- The candidate reaches READY and has no sink: its pipeline is released, and then used and released
-- again by the diagnostics of a failed candidate.
unfoldable pub is_sinkless : Probe → Bool
unfolding reaches_ready
is_sinkless g = not g.parse_error && g.parsed && reaches_ready g && not g.sink

abbrev pub refused_by : Probe → Capture → Capture
refused_by g c = record c { faulted = c.faulted || is_sinkless g }

-- The loop over the candidates of `buildPipeline`.
unfoldable pub try_candidates : (String → Probe) → List String → Capture → Capture × Result
unfolding kept is_sinkless
try_candidates probe [] c = (c, error_device_not_found)
try_candidates probe (d ∷ ds) c = elim (kept (probe d)) [
  | true ↦ (
    record c {
      pipeline = true;
      appsink = true;
      width = c.config.width;
      height = c.config.height;
      framerate = c.config.framerate;
      requested = ready;
    },
    success,
  )
  | false ↦ try_candidates probe ds (refused_by (probe d) c)
]

unfoldable pub initialize : Capture → CaptureConfig → Bool → (String → Probe) → Capture × Result
unfolding apply_defaults candidates try_candidates
initialize c config has_pipewire probe =
    let d = apply_defaults config in
    try_candidates probe (candidates d has_pipewire) (record c { config = d })

abbrev joinable : Thread → Bool
joinable absent = false
joinable t = true

-- The answers of GStreamer to `start`: to the request for PLAYING, and at the end of the wait.
pub record Playing : Type 0 where
  pub set_playing : StateChange
  pub get_playing : StateChange
  pub reached : GstState

abbrev pub plays : Playing → Bool
plays g = not (is_failure g.set_playing) && not (is_failure g.get_playing) && is_playing g.reached

unfoldable pub start : Capture → Bool → Playing → Capture × Result
start c cb g =
    if not c.pipeline
    then (c, error_init_failed)
    else if c.running || joinable c.capture_thread
    then (c, error_init_failed)
    else if not (plays g)
    then (record c { has_callback = cb; requested = null }, error_capture_failed)
    else (
      record c { has_callback = cb; requested = playing; running = true; capture_thread = looping },
      success,
    )

unfoldable pub stop : Capture → Capture × Result
stop c = if not c.running then (c, success) else (
  record c {
    running = false;
    capture_thread = absent;
    requested = if c.pipeline then null else c.requested;
  },
  success,
)

-- The end of `captureLoop` by an error or the end of the stream: the thread is not joined.
unfoldable pub loop_ends : Capture → Capture
loop_ends c = record c { running = false; capture_thread = ended }

-- `~CameraCapture`: `stop`, and the GStreamer objects are given up; the destructor of the thread
-- member joins one that ended by itself.
unfoldable pub destroy : Capture → Capture
unfolding stop
destroy c =
    let d = (stop c).0 in
    record d { appsink = false; pipeline = false; requested = null; capture_thread = absent }
