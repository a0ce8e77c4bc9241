-- ===== src/VideoCore/Encode/Tests.antt =====
-- The encoders on one camera frame, with codecs in the place of FFmpeg.
use direct_link.Base.{ℕ, ◌≡◌, refl, true, some, List, pos}
use direct_link.VideoCore.Types.{AvFrame, PixelFormat}
use direct_link.VideoCore.Ffmpeg.{AvPacket, nanoseconds}
use direct_link.VideoCore.Encode.{
  EncoderConfig, EncoderState, Context, default_config, receive_packets,
}
use direct_link.VideoCore.Encode.Sample.{counting, camera_frame}
use direct_link.VideoCore.Encode.Drain.{Yields, ArePacketsOf, receive_packets-Yields}
use direct_link.VideoCore.Encode.Owned.{Owns}
use direct_link.VideoCore.Encode.Software.{SoftwareEncoder, prepare, settings}
use direct_link.VideoCore.Encode.Software.Frames.{Fits, prepare-Fits}
use direct_link.VideoCore.Encode.Create.{Encoder, x264, state}
use direct_link.VideoCore.Encode.Contract.{encodes, perform, perform-Owns}

abbrev config : EncoderConfig
config = record default_config { width = pos 1280; height = pos 720 }

receive_packets-Yields_example :
    (ps : List (AvPacket ℕ)) × Yields counting 2 (receive_packets counting nanoseconds 2).0 ps
    × ArePacketsOf counting nanoseconds ps (receive_packets counting nanoseconds 2).1
receive_packets-Yields_example = receive_packets-Yields counting nanoseconds 2

prepare-Fits_example :
    Fits counting (settings config) (prepare counting (settings config) true camera_frame)
    × ((prepare counting (settings config) true camera_frame).pts ≡ pos 5)
    × ((prepare counting (settings config) true camera_frame).intra ≡ true)
prepare-Fits_example =
    prepare-Fits counting (settings config) true camera_frame (λ g fmt range d. refl)

abbrev context : Context counting
context = record { settings = settings config; opened = some 0 }

-- An x264 encoder that runs, with a keyframe requested.
abbrev open_x264 : SoftwareEncoder counting
open_x264 = record {
  base = record {
    config = config;
    has_callback = true;
    running = true;
    codec_ctx = some context;
    live_contexts = 1;
  };
  force_keyframe = true;
}

abbrev open_nvenc : EncoderState counting
open_nvenc = open_x264.base

open_nvenc-Owns : Owns counting open_nvenc
open_nvenc-Owns = record { owned = refl; open_if_running = λ h. refl }

abbrev keyframe : AvFrame ℕ
keyframe = record camera_frame {
  format = PixelFormat.yuv420p;
  width = pos 1280;
  height = pos 720;
  intra = true;
}

perform-Owns_example :
    (e : Encoder counting) × (perform counting (encodes camera_frame) (x264 open_x264) ≡ some e)
    × Owns counting (state counting e)
perform-Owns_example =
    perform-Owns counting (encodes camera_frame) (x264 open_x264) tt open_nvenc-Owns
