-- ===== src/VideoCore/Capture/Candidates.antt =====
-- video-core/include/capture/capture_config.hpp, and the descriptions that `buildPipeline` of
-- video-core/src/capture/camera_capture.cpp tries.
use Prim.Native.String.{◌++◌ as ◌+++◌}
use direct_link.Base.{
  Bool, true, false, if◌then◌else◌, String, List, [], ◌∷◌, ℤ, pos, is_zero, to_string,
}

pub record CaptureConfig : Type 0 where
  pub device_path : String
  pub input_format : String
  pub pixel_format : String
  pub width : ℤ
  pub height : ℤ
  pub framerate : ℤ
  pub buffer_size : ℤ

-- The default member initialisers.
abbrev pub default_config : CaptureConfig
default_config = record {
  device_path = "/dev/video0";
  input_format = "v4l2";
  pixel_format = "";
  width = pos 0;
  height = pos 0;
  framerate = pos 30;
  buffer_size = pos 4;
}

unfoldable pub apply_defaults : CaptureConfig → CaptureConfig
apply_defaults c = record c {
  width = if is_zero c.width then pos 1280 else c.width;
  height = if is_zero c.height then pos 720 else c.height;
  framerate = if is_zero c.framerate then pos 30 else c.framerate;
}

infixr 66 ◌<>◌
abbrev ◌<>◌ : String → String → String
◌<>◌ = ◌+++◌

raw_caps : CaptureConfig → String
raw_caps c =
    "video/x-raw,format=I420"
    <> ",width="
    <> to_string c.width
    <> ",height="
    <> to_string c.height
    <> ",framerate="
    <> to_string c.framerate
    <> "/1"

abbrev sink_props : String
sink_props = "appsink name=sink sync=false max-buffers=4 drop=true emit-signals=false"

v4l2_jpeg : CaptureConfig → String
v4l2_jpeg c =
    "v4l2src device="
    <> c.device_path
    <> " ! image/jpeg,width="
    <> to_string c.width
    <> ",height="
    <> to_string c.height
    <> ",framerate="
    <> to_string c.framerate
    <> "/1"
    <> " ! jpegdec ! videoconvert ! video/x-raw,format=I420 ! "
    <> sink_props

v4l2_raw : CaptureConfig → String
v4l2_raw c =
    "v4l2src device="
    <> c.device_path
    <> " ! video/x-raw,width="
    <> to_string c.width
    <> ",height="
    <> to_string c.height
    <> ",framerate="
    <> to_string c.framerate
    <> "/1"
    <> " ! videoconvert ! video/x-raw,format=I420 ! "
    <> sink_props

pipewire : CaptureConfig → Bool → Bool → String
unfolding raw_caps
pipewire c targeted jpeg =
    "pipewiresrc"
    <> (if targeted then " target-object=" <> c.device_path else "")
    <> " do-timestamp=true"
    <> (if jpeg then " ! jpegdec" else "")
    <> " ! videoconvert ! videoscale ! "
    <> raw_caps c
    <> " ! "
    <> sink_props

-- The descriptions that are tried, in order; `has_pipewire` is whether GStreamer has pipewiresrc.
unfoldable pub candidates : CaptureConfig → Bool → List String
unfolding v4l2_jpeg v4l2_raw pipewire
candidates c has_pipewire =
    v4l2_jpeg c
    ∷ v4l2_raw c
    ∷ (if has_pipewire
        then pipewire c true true
          ∷ pipewire c false true
          ∷ pipewire c true false
          ∷ pipewire c false false
          ∷ []
        else [])
