-- ===== src/VideoCore/Pipeline/Tests.antt =====
-- The pipeline's calls, with a codec in the place of FFmpeg and GStreamer's answers written out.
use direct_link.Base.{
  ℕ, suc, ◌/◌, ◌-◌, ◌≤◌, ◌==◌, if◌then◌else◌, ◌≡◌, refl, true, none, some, ℤ, pos, negsuc, neg_part,
  is_neg, arith,
}
use direct_link.VideoCore.Types.{Packet}
use direct_link.Gstreamer.{playing, paused, async, ready}
use direct_link.Gstreamer
use direct_link.VideoCore.Encode.{EncoderConfig, Context, default_config}
use direct_link.VideoCore.Encode
use direct_link.VideoCore.Encode.Sample.{counting}
use direct_link.VideoCore.Encode.Owned.{Owns}
use direct_link.VideoCore.Encode.Nvenc.{settings}
use direct_link.VideoCore.Encode.Create.{Encoder, nvenc, state}
use direct_link.VideoCore.Encode.Create
use direct_link.VideoCore.Capture.{Capture, Playing, looping}
use direct_link.VideoCore.Capture
use direct_link.VideoCore.Capture.Lifecycle.{Inv}
use direct_link.VideoCore.Pipeline.{VideoPipeline, new, stop, get_bitrate}
use direct_link.VideoCore.Pipeline.Calls.{IsReady, stop-IsReady}
use direct_link.VideoCore.Pipeline.Statistics.{get_bitrate_overflows}

abbrev idle_capture : Capture
idle_capture = record Capture.new { pipeline = true; appsink = true; requested = ready }

abbrev made : Encoder counting
made = nvenc (Encode.fresh counting)

abbrev idle : VideoPipeline counting
idle = record (new counting) { capture_device = some idle_capture; encoder = some made }

abbrev reached : Playing
reached = record { set_playing = async; get_playing = Gstreamer.success; reached = playing }

abbrev opened : Context counting
opened = record { settings = settings default_config; opened = some 0 }

abbrev open_nvenc : Encoder counting
open_nvenc = nvenc (record {
  config = default_config;
  has_callback = true;
  running = true;
  codec_ctx = some opened;
  live_contexts = 1;
})

open_nvenc-Owns : Owns counting (state counting open_nvenc)
open_nvenc-Owns = record { owned = refl; open_if_running = λ h. refl }

abbrev busy_capture : Capture
busy_capture = record idle_capture {
  running = true;
  capture_thread = looping;
  requested = playing;
  has_callback = true;
}

busy_capture-Inv : Inv busy_capture
busy_capture-Inv = record {
  looping_if_running = λ h. refl;
  running_if_looping = λ h. refl;
  playing_if_running = λ h. (refl, refl);
}

abbrev busy : VideoPipeline counting
busy = record idle {
  capture_device = some busy_capture;
  encoder = some open_nvenc;
  encode_thread = true;
}

stop-IsReady_example :
    IsReady counting
      (stop counting busy).0
      (Capture.stop busy_capture).0
      (Create.stop counting open_nvenc).0
    × ((state counting (Create.stop counting open_nvenc).0).codec_ctx ≡ none)
    × ((state counting (Create.stop counting open_nvenc).0).live_contexts ≡ 0)
stop-IsReady_example =
    stop-IsReady counting busy busy_capture open_nvenc refl refl busy_capture-Inv refl
      open_nvenc-Owns

abbrev forwarding : VideoPipeline counting
forwarding = record (new counting) {
  encode_thread = true;
  has_packet_callback = true;
  bitrate = 400000000;
}

abbrev packet : Packet ℕ
packet = record { packet = 1; pts = pos 5; dts = pos 5; size = pos 100; is_keyframe = true }

-- The elapsed time is one second.
-- Two seconds have passed.
abbrev halved : ℤ → ℤ
halved (pos n) = pos (n / 2)
halved (negsuc n) = if n == 0 then pos 0 else negsuc (suc n / 2 - 1)

halved-is_neg : (z : ℤ) → 2 ≤ neg_part z → is_neg (halved z) ≡ true
halved-is_neg (pos n) h = absurd (omega arith)
halved-is_neg (negsuc n) h = ground arith

get_bitrate_overflows_example : is_neg (get_bitrate counting forwarding true halved) ≡ true
get_bitrate_overflows_example =
    get_bitrate_overflows counting forwarding halved 2 halved-is_neg refl (omega arith)
      (omega arith) (omega arith)
