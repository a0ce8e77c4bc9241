-- ===== src/VideoCore/Encode/Software.antt =====
-- video-core/src/encode/software_encoder.cpp: the x264 encoder.
use direct_link.Base.{
  suc, ◌-◌, Bool, true, false, not, ◌||◌, if◌then◌else◌, String, Option, none, some, List, [], ◌∷◌,
  ℤ, pos, eq_ℤ,
}
use direct_link.VideoCore.Types.{
  Result, success, error_init_failed, error_encode_failed, Packet, AvFrame, PixelFormat, yuv420p,
  yuvj420p, yuv422p, yuvj422p, yuv444p, yuvj444p,
}
use direct_link.VideoCore.Ffmpeg.{Ffmpeg, Settings, nanoseconds}
use direct_link.VideoCore.Encode.{
  Preset, ultra_fast, fast, medium, slow, EncoderConfig, Context, EncoderState, Encoded, fresh,
  base_initialize, send, receive, deliver, flush_and_free,
}
pub mod Frames
pub mod Ownership

pub record SoftwareEncoder (f : Ffmpeg) : Type 0 where
  pub base : EncoderState f
  pub open base use *
  pub force_keyframe : Bool

abbrev pub codec_name : String
codec_name = "libx264"

abbrev preset_name : Preset → String
preset_name ultra_fast = "ultrafast"
preset_name fast = "fast"
preset_name medium = "medium"
preset_name slow = "slow"

abbrev pub options : EncoderConfig → List (String × String)
options c =
    ("preset", preset_name c.preset) ∷ ("tune", "zerolatency") ∷ ("profile", "baseline") ∷ []

abbrev pub settings : EncoderConfig → Settings
settings c = record {
  width = c.width;
  height = c.height;
  bit_rate = c.bitrate;
  time_base = record { num = pos 1; den = c.framerate };
  framerate = record { num = c.framerate; den = pos 1 };
  gop_size = c.gop_size;
  max_b_frames = pos 0;
  pix_fmt = yuv420p;
  limited_range = true;
  baseline = true;
}

-- The `switch` on the source format: full-range formats are named by their limited twins.
abbrev normal_format : PixelFormat → PixelFormat
normal_format yuvj420p = yuv420p
normal_format yuvj422p = yuv422p
normal_format yuvj444p = yuv444p
normal_format fmt = fmt

abbrev is_full_range : PixelFormat → Bool → Bool
is_full_range yuvj420p range = true
is_full_range yuvj422p range = true
is_full_range yuvj444p range = true
is_full_range fmt range = range

abbrev pub is_yuv420p : PixelFormat → Bool
is_yuv420p yuv420p = true
is_yuv420p fmt = false

module _ (f : Ffmpeg) where
  abbrev pub new : SoftwareEncoder f
  new = record { base = fresh f; force_keyframe = false }

  -- From avcodec_open2 on; the context is allocated and set up.
  open_context : EncoderState f → Context f → EncoderState f × Result
  open_context e c = elim (f.open_codec codec_name c.settings (options e.config)) [
    | none ↦ (record e { codec_ctx = some c }, error_init_failed)
    | some s ↦
        (record e { codec_ctx = some (record c { opened = some s }); running = true }, success)
  ]

  -- From avcodec_find_encoder_by_name on. A null context replaces the old one all the same.
  make_context : EncoderState f → EncoderState f × Result
  unfolding open_context
  make_context e =
      if not (f.find_encoder_by_name codec_name)
      then (e, error_init_failed)
      else if not (f.alloc_context codec_name)
      then (record e { codec_ctx = none }, error_init_failed)
      else open_context (record e { live_contexts = suc e.live_contexts })
          (record { settings = settings e.config; opened = none })

  -- `Encoder::initialize` returns Success always, so its result is not tested further.
  unfoldable pub initialize : SoftwareEncoder f → EncoderConfig → Bool → SoftwareEncoder f × Result
  unfolding make_context base_initialize
  initialize e config has_callback =
      let (b, _) = base_initialize f e.base config has_callback in
      let (b', r) = make_context b in (record e { base = b' }, r)

  unfoldable pub request_keyframe : SoftwareEncoder f → SoftwareEncoder f
  request_keyframe e = record e { force_keyframe = true }

  -- Does the frame differ from what the context was opened for?
  abbrev pub needs_conversion : Settings → AvFrame f.Image → Bool
  needs_conversion c frame =
      not (is_yuv420p (normal_format frame.format))
      || is_full_range frame.format frame.full_range
      || not (eq_ℤ frame.width c.width)
      || not (eq_ℤ frame.height c.height)
      || not frame.has_stride

  -- The frame that goes on: converted, or the given one if there is no need or no swscale context.
  unfoldable pub input_frame : Settings → AvFrame f.Image → AvFrame f.Image
  input_frame c frame =
      if needs_conversion c frame
      then (elim (f.convert frame (normal_format frame.format)
          (is_full_range frame.format frame.full_range) c) [
            | none ↦ frame
            | some image ↦ record {
              image = image;
              format = yuv420p;
              width = c.width;
              height = c.height;
              full_range = false;
              has_stride = true;
              pts = frame.pts;
              intra = false;
            }
          ])
      else frame

  -- The frame handed to avcodec_send_frame.
  unfoldable pub prepare : Settings → Bool → AvFrame f.Image → AvFrame f.Image
  unfolding input_frame
  prepare c force frame =
      let input = input_frame c frame in
      record input {
        intra = if force then true else input.intra;
        pts = f.rescale_q frame.pts nanoseconds c.time_base;
      }

  encode_in : SoftwareEncoder f → Context f → AvFrame f.Image → Encoded f (SoftwareEncoder f)
  unfolding prepare send receive
  encode_in e c frame =
      let (s, accepted) = send f c.opened (some (prepare c.settings e.force_keyframe frame)) in
      if not accepted
      then record {
        encoder = record e {
          base = record e.base { codec_ctx = some (record c { opened = s }) };
          force_keyframe = false;
        };
        result = error_encode_failed;
        delivered = [];
      }
      else (let (t, ps) = receive f c.settings.time_base s in
          record {
            encoder = record e {
              base = record e.base { codec_ctx = some (record c { opened = t }) };
              force_keyframe = false;
            };
            result = success;
            delivered = deliver f e.base ps;
          })

  -- `none` stands for the read through the null context of an encoder that is marked running.
  encode_with :
      SoftwareEncoder f
      → Option (Context f)
      → AvFrame f.Image
      → Option (Encoded f (SoftwareEncoder f))
  unfolding encode_in
  encode_with e none frame = none
  encode_with e (some c) frame = some (encode_in e c frame)

  unfoldable pub encode_frame :
      SoftwareEncoder f → AvFrame f.Image → Option (Encoded f (SoftwareEncoder f))
  unfolding encode_with
  encode_frame e frame =
      if not e.running
      then some (record { encoder = e; result = error_encode_failed; delivered = [] })
      else encode_with e e.codec_ctx frame

  stop_with : SoftwareEncoder f → Option (Context f) → SoftwareEncoder f × List (Packet f.Payload)
  unfolding flush_and_free
  stop_with e none = (e, [])
  stop_with e (some c) = let (b, ps) = flush_and_free f e.base c in (record e { base = b }, ps)

  unfoldable pub stop : SoftwareEncoder f → SoftwareEncoder f × List (Packet f.Payload)
  unfolding stop_with
  stop e = stop_with e e.codec_ctx

  -- What `~SoftwareEncoder` does after its `stop`: the context goes, if there is one.
  free_context : EncoderState f → Option (Context f) → EncoderState f
  free_context b none = b
  free_context b (some c) = record b { codec_ctx = none; live_contexts = b.live_contexts - 1 }

  unfoldable pub destroy : SoftwareEncoder f → SoftwareEncoder f × List (Packet f.Payload)
  unfolding stop free_context
  destroy e =
      let (e', ps) = if e.running then stop e else (e, []) in
      (record e' { base = free_context e'.base e'.codec_ctx }, ps)
