-- ===== src/Networking/Publisher.antt =====
-- networking/src/whip_publisher.cpp and include/whip_publisher.hpp. What GStreamer answers is an
-- argument; the log lines are left out.
use direct_link.Base.{
  ℕ, suc, ◌+◌, ◌-◌, ◌/◌, ◌%◌, Bool, true, false, not, ◌&&◌, ◌||◌, if◌then◌else◌, String, Option,
  none, some, List, [], ◌∷◌, ℤ, pos, negsuc, ◌-ℤ◌, is_neg, is_zero, to_u64, two_64,
}
use direct_link.VideoCore.Types.{Packet}
use direct_link.Networking.Types.{Result, success, error_pipeline_failed, error_not_initialized}
use direct_link.Gstreamer.{
  GstState, null, playing, StateChange, async, failure, no_preroll, gst_second,
}
pub mod Lifecycle
pub mod Timing
pub mod Threads
mod Tests

-- Of the callbacks it matters only whether there is one; of the pipeline and of its source, whether
-- the pointer is null, and the state that was asked of the pipeline last. `live_pipelines` records
-- the history: the pipelines that were created and not released. The code keeps no such count.
pub record Publisher : Type 0 where
  pub whip_url : String
  pub stream_key : String
  pub has_error_callback : Bool
  pub has_keyframe_callback : Bool
  pub running : Bool
  pub pipeline : Bool
  pub appsrc : Bool
  pub frame_count : ℕ
  pub framerate : ℤ
  pub stream_start_pts : ℤ
  pub requested : GstState
  pub live_pipelines : ℕ

abbrev pub new : Publisher
new = record {
  whip_url = "";
  stream_key = "";
  has_error_callback = false;
  has_keyframe_callback = false;
  running = false;
  pipeline = false;
  appsrc = false;
  frame_count = 0;
  framerate = pos 60;
  stream_start_pts = negsuc 0;
  requested = null;
  live_pipelines = 0;
}

-- The answers in `initialize`: whether each call gave an object, or succeeded.
pub record Elements : Type 0 where
  pub pipeline : Bool
  pub appsrc : Bool
  pub h264parse : Bool
  pub rtph264pay : Bool
  pub whipsink : Bool
  pub links : Bool
  pub sink_pad : Bool
  pub pad_link : Bool

-- gst_element_set_state to NULL, gst_object_unref, and the pointer is cleared.
abbrev release : Publisher → Publisher
release p = record p { pipeline = false; requested = null; live_pipelines = p.live_pipelines - 1 }

-- From gst_element_link_many on.
link_pipeline : Publisher → Elements → Publisher × Result
link_pipeline p g =
    if not g.links
    then (release p, error_pipeline_failed)
    else if not g.sink_pad
    then (release p, error_pipeline_failed)
    else if not g.pad_link
    then (release p, error_pipeline_failed)
    else (p, success)

-- From the creation of the elements on. Their failure leaves the pipeline where it is.
make_elements : Publisher → Elements → Publisher × Result
unfolding link_pipeline
make_elements p g =
    let q = record p { appsrc = g.appsrc } in
    if not (g.appsrc && g.h264parse && g.rtph264pay && g.whipsink)
    then (q, error_pipeline_failed)
    else link_pipeline q g

-- The pointer is overwritten, whatever it held.
unfoldable pub initialize : Publisher → String → String → ℤ → Bool → Elements → Publisher × Result
unfolding make_elements
initialize p whip_url stream_key framerate on_error g =
    let q = record p {
      whip_url = whip_url;
      stream_key = stream_key;
      framerate = framerate;
      has_error_callback = on_error;
      pipeline = g.pipeline;
    } in
    if not g.pipeline
    then (q, error_pipeline_failed)
    else make_elements (record q { requested = null; live_pipelines = suc p.live_pipelines }) g

unfoldable pub set_keyframe_request_callback : Publisher → Bool → Publisher
set_keyframe_request_callback p cb = record p { has_keyframe_callback = cb }

-- The bus watch: an error message is handed to the callback, which is not tested before; `none`
-- stands for the exception that an empty one throws.
unfoldable pub on_bus_error : Publisher → String → Option (List String)
on_bus_error p message = if p.has_error_callback then some (message ∷ []) else none

-- The probe on the source pad: is the keyframe callback called?
unfoldable pub on_upstream_event : Publisher → Bool → Bool
on_upstream_event p force_key_unit = force_key_unit && p.has_keyframe_callback

-- `waited` is the answer of gst_element_get_state, which is asked only after ASYNC.
await_playing : Publisher → StateChange → StateChange → Publisher × Result
await_playing p failure waited = (p, error_pipeline_failed)
await_playing p async failure = (record p { requested = null }, error_pipeline_failed)
await_playing p async async = (record p { requested = null }, error_pipeline_failed)
await_playing p ret waited = (record p { running = true }, success)

unfoldable pub start : Publisher → StateChange → StateChange → Publisher × Result
unfolding await_playing
start p ret waited =
    if not p.pipeline
    then (p, error_not_initialized)
    else if p.running
    then (p, success)
    else await_playing (record p { requested = playing }) ret waited

-- Whether the end of the stream arrives in time changes a log line only.
unfoldable pub stop : Publisher → Publisher × Result
stop p =
    if not p.pipeline then (p, error_not_initialized) else if not p.running then (p, success) else (
      record p {
        requested = null;
        pipeline = false;
        appsrc = false;
        running = false;
        stream_start_pts = negsuc 0;
        live_pipelines = p.live_pipelines - 1;
      },
      success,
    )

-- `~WHIPPublisher`: a publisher that runs is stopped, and a pipeline that is left is released.
unfoldable pub destroy : Publisher → Publisher
unfolding stop
destroy p =
    let q = if p.running then (stop p).0 else p in
    if q.pipeline then record q { pipeline = false; live_pipelines = q.live_pipelines - 1 } else q

-- `GstBuffer`
pub record Buffer (P : Type 0) : Type 0 where
  pub payload : P
  pub pts : ℕ
  pub duration : ℕ

-- What `pushPacket` leaves, the buffer that reaches the source, and the errors that it reports.
pub record Pushed (P : Type 0) : Type 0 where
  pub publisher : Publisher
  pub buffer : Option (Buffer P)
  pub errors : List String

abbrev pub push_failed : String
push_failed = "Failed to push buffer to GStreamer pipeline"

module _ {P : Type 0} where
  abbrev pub cons_buffer : Option (Buffer P) → List (Buffer P) → List (Buffer P)
  cons_buffer none bs = bs
  cons_buffer (some b) bs = b ∷ bs

  -- The part under `appsrcMutex_`. `flow_ok` is the answer of the source.
  emit : Publisher → Buffer P → Bool → Pushed P
  emit p b flow_ok =
      if not p.appsrc then record { publisher = p; buffer = none; errors = [] } else record {
        publisher = p;
        buffer = some b;
        errors = if not flow_ok && p.has_error_callback then push_failed ∷ [] else [];
      }

  unfoldable pub push_packet : Publisher → Packet P → Bool → Pushed P
  unfolding emit
  push_packet p packet flow_ok =
      if not p.running
      then record { publisher = p; buffer = none; errors = [] }
      else (let start = if is_neg p.stream_start_pts then packet.pts else p.stream_start_pts in
          let rate = if is_zero p.framerate then pos 30 else p.framerate in
          emit
            (record p {
              stream_start_pts = start;
              framerate = rate;
              frame_count = (p.frame_count + 1) % two_64;
            })
            (record {
              payload = packet.packet;
              pts = to_u64 (packet.pts -ℤ start);
              duration = gst_second / to_u64 rate;
            })
            flow_ok)
