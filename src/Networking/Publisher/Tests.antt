-- ===== src/Networking/Publisher/Tests.antt =====
-- The publisher with GStreamer's answers written out.
use direct_link.Base.{ℕ, refl, true, false, pos}
use direct_link.VideoCore.Types.{Packet}
use direct_link.Gstreamer.{playing}
use direct_link.Networking.Publisher.{Publisher, Elements, new}
use direct_link.Networking.Publisher.Lifecycle.{Inv, pushes, perform, perform-Inv}

abbrev complete : Elements
complete = record {
  pipeline = true;
  appsrc = true;
  h264parse = true;
  rtph264pay = true;
  whipsink = true;
  links = true;
  sink_pad = true;
  pad_link = true;
}

abbrev streaming : Publisher
streaming = record new {
  framerate = pos 30;
  running = true;
  pipeline = true;
  appsrc = true;
  requested = playing;
  live_pipelines = 1;
}

streaming-Inv : Inv streaming
streaming-Inv = record { owned = refl; complete = λ h. (refl, refl) }

abbrev packet_at : ℕ → Packet ℕ
packet_at n = record { packet = n; pts = pos n; dts = pos n; size = pos 100; is_keyframe = false }

perform-Inv_example : Inv (perform ℕ (pushes (packet_at 7) true) streaming)
perform-Inv_example = perform-Inv ℕ (pushes (packet_at 7) true) streaming tt streaming-Inv
