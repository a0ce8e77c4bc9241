-- ===== src/Client/CameraSession/Sample.antt =====
-- Answers of GStreamer with which a camera session starts, and sessions that run.
use direct_link.Base.{◌≡◌, refl, true, false, some}
use direct_link.Gstreamer.{playing, async, ready}
use direct_link.Gstreamer
use direct_link.VideoCore.Encode.{Context, EncoderState, default_config}
use direct_link.VideoCore.Encode.Owned.{Owns}
use direct_link.VideoCore.Encode.Nvenc.{settings}
use direct_link.VideoCore.Encode.Create.{Encoder, nvenc}
use direct_link.VideoCore.Encode.Sample.{counting}
use direct_link.VideoCore.Capture.{Capture, Probe, Playing, looping}
use direct_link.VideoCore.Pipeline
use direct_link.VideoCore.Capture
use direct_link.VideoCore.Encode.Create
use direct_link.Networking.Publisher
use direct_link.Client.CameraSession.{
  Session, Answers, new, start, start_session, start_publisher, start_pipeline, finish_start,
  push_packets,
}

abbrev pub willing : Probe
willing = record {
  parse_error = false;
  parsed = true;
  set_ready = async;
  get_ready = Gstreamer.success;
  reached = ready;
  sink = true;
}

abbrev pub answers : Answers
answers = record {
  has_pipewire = false;
  probe = λ d. willing;
  elements = record {
    pipeline = true;
    appsrc = true;
    h264parse = true;
    rtph264pay = true;
    whipsink = true;
    links = true;
    sink_pad = true;
    pad_link = true;
  };
  handshake = async;
  waited = Gstreamer.success;
  playing = record { set_playing = async; get_playing = Gstreamer.success; reached = playing };
}

abbrev pub started : Session counting
started = (start counting (new counting) "http://localhost/whip" "key" answers).0

pub starts_well :
    start counting (new counting) "http://localhost/whip" "key" answers ≡ (started, true)
unfolding start start_session start_publisher start_pipeline finish_start push_packets
    Publisher.initialize Publisher.start Publisher.push_packet Pipeline.initialize Pipeline.start
    Capture.initialize Publisher.set_keyframe_request_callback Create.initialize
    Create.create_encoder Capture.start
starts_well = refl

abbrev pub context : Context counting
context = record { settings = settings default_config; opened = some 2 }

abbrev pub open_nvenc : Encoder counting
open_nvenc = nvenc (record {
  config = default_config;
  has_callback = true;
  running = true;
  codec_ctx = some context;
  live_contexts = 1;
})

abbrev pub busy_capture : Capture
busy_capture = record Capture.new {
  pipeline = true;
  appsink = true;
  running = true;
  capture_thread = looping;
  has_callback = true;
  requested = playing;
}

-- Two packets wait in the codec.
abbrev pub busy : Session counting
busy = record {
  pipeline = record (Pipeline.new counting) {
    capture_device = some busy_capture;
    encoder = some open_nvenc;
    has_packet_callback = true;
    encode_thread = true;
  };
  publisher = record Publisher.new {
    running = true;
    pipeline = true;
    appsrc = true;
    requested = playing;
    live_pipelines = 1;
  };
  is_running = true;
}

abbrev pub empty_context : Context counting
empty_context = record context { opened = some 0 }

abbrev pub live_state : EncoderState counting
live_state = record {
  config = default_config;
  has_callback = true;
  running = true;
  codec_ctx = some empty_context;
  live_contexts = 1;
}

-- A session with this encoder, whose codec is empty.
abbrev pub with_encoder : Encoder counting → Session counting
with_encoder e = record busy { pipeline = record busy.pipeline { encoder = some e } }

pub live_state-Owns : Owns counting live_state
live_state-Owns = record { owned = refl; open_if_running = λ h. refl }
