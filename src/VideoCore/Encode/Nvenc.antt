-- ===== src/VideoCore/Encode/Nvenc.antt =====
-- video-core/src/encode/nvenc_encoder.cpp: the NVENC encoder. Its state is that of `Encoder`: it does
-- not override `requestKeyframe`, which does nothing in the base class.
use direct_link.Base.{
  suc, ◌-◌, Bool, true, false, not, ◌||◌, if◌then◌else◌, String, Option, none, some, List, [], ◌∷◌,
  ℤ, pos, eq_ℤ,
}
use direct_link.VideoCore.Types.{
  Result, success, error_device_not_found, error_init_failed, error_encode_failed, Packet, AvFrame,
  PixelFormat, yuv420p, yuvj420p, yuv422p, yuvj422p, yuv444p, yuvj444p,
}
use direct_link.VideoCore.Ffmpeg.{Ffmpeg, Settings, nanoseconds}
use direct_link.VideoCore.Encode.{
  Preset, ultra_fast, fast, medium, slow, EncoderConfig, Context, EncoderState, Encoded, fresh,
  base_initialize, send, receive, deliver, flush_and_free,
}
pub mod Delivery

abbrev pub codec_name : String
codec_name = "h264_nvenc"

abbrev preset_name : Preset → String
preset_name ultra_fast = "p1"
preset_name fast = "p3"
preset_name medium = "p5"
preset_name slow = "p7"

abbrev pub options : EncoderConfig → List (String × String)
options c = ("preset", preset_name c.preset) ∷ ("tune", "ull") ∷ []

abbrev pub settings : EncoderConfig → Settings
settings c = record {
  width = c.width;
  height = c.height;
  bit_rate = c.bitrate;
  time_base = record { num = pos 1; den = c.framerate };
  framerate = record { num = c.framerate; den = pos 1 };
  gop_size = c.gop_size;
  max_b_frames = pos 0;
  pix_fmt = yuv420p;
  limited_range = false;
  baseline = false;
}

abbrev pub is_yuv420p : PixelFormat → Bool
is_yuv420p yuv420p = true
is_yuv420p fmt = false

module _ (f : Ffmpeg) where
  -- From avcodec_open2 on; the context is allocated and set up.
  open_context : EncoderState f → Context f → EncoderState f × Result
  open_context e c = elim (f.open_codec codec_name c.settings (options e.config)) [
    | none ↦ (record e { codec_ctx = some c }, error_init_failed)
    | some s ↦
        (record e { codec_ctx = some (record c { opened = some s }); running = true }, success)
  ]

  -- From avcodec_find_encoder_by_name on. A null context replaces the old one all the same.
  make_context : EncoderState f → EncoderState f × Result
  unfolding open_context
  make_context e =
      if not (f.find_encoder_by_name codec_name)
      then (e, error_device_not_found)
      else if not (f.alloc_context codec_name)
      then (record e { codec_ctx = none }, error_init_failed)
      else open_context (record e { live_contexts = suc e.live_contexts })
          (record { settings = settings e.config; opened = none })

  -- `Encoder::initialize` returns Success always, so its result is not tested further.
  unfoldable pub initialize : EncoderState f → EncoderConfig → Bool → EncoderState f × Result
  unfolding make_context base_initialize
  initialize e config has_callback =
      let (b, _) = base_initialize f e config has_callback in make_context b

  -- `Encoder::requestKeyframe`
  unfoldable pub request_keyframe : EncoderState f → EncoderState f
  request_keyframe e = e

  -- Does the frame differ from what the context was opened for?
  abbrev pub needs_conversion : Settings → AvFrame f.Image → Bool
  needs_conversion c frame =
      not (is_yuv420p frame.format)
      || not (eq_ℤ frame.width c.width)
      || not (eq_ℤ frame.height c.height)
      || not frame.has_stride

  -- The frame that goes on: converted, or the given one if there is no need or no swscale context.
  -- swscale is not told that a source has the full colour range.
  unfoldable pub input_frame : Settings → AvFrame f.Image → AvFrame f.Image
  input_frame c frame =
      if needs_conversion c frame
      then (elim (f.convert frame frame.format false c) [
        | none ↦ frame
        | some image ↦ record {
          image = image;
          format = yuv420p;
          width = c.width;
          height = c.height;
          full_range = false;
          has_stride = true;
          pts = frame.pts;
          intra = false;
        }
      ])
      else frame

  -- The frame handed to avcodec_send_frame.
  unfoldable pub prepare : Settings → AvFrame f.Image → AvFrame f.Image
  unfolding input_frame
  prepare c frame =
      let input = input_frame c frame in
      record input { pts = f.rescale_q frame.pts nanoseconds c.time_base }

  encode_in : EncoderState f → Context f → AvFrame f.Image → Encoded f (EncoderState f)
  unfolding prepare send receive
  encode_in e c frame =
      let (s, accepted) = send f c.opened (some (prepare c.settings frame)) in
      if not accepted
      then record {
        encoder = record e { codec_ctx = some (record c { opened = s }) };
        result = error_encode_failed;
        delivered = [];
      }
      else (let (t, ps) = receive f c.settings.time_base s in
          record {
            encoder = record e { codec_ctx = some (record c { opened = t }) };
            result = success;
            delivered = deliver f e ps;
          })

  -- `none` stands for the read through the null context of an encoder that is marked running.
  encode_with :
      EncoderState f → Option (Context f) → AvFrame f.Image → Option (Encoded f (EncoderState f))
  unfolding encode_in
  encode_with e none frame = none
  encode_with e (some c) frame = some (encode_in e c frame)

  unfoldable pub encode_frame :
      EncoderState f → AvFrame f.Image → Option (Encoded f (EncoderState f))
  unfolding encode_with
  encode_frame e frame =
      if not e.running
      then some (record { encoder = e; result = error_encode_failed; delivered = [] })
      else encode_with e e.codec_ctx frame

  stop_with : EncoderState f → Option (Context f) → EncoderState f × List (Packet f.Payload)
  unfolding flush_and_free
  stop_with e none = (e, [])
  stop_with e (some c) = flush_and_free f e c

  unfoldable pub stop : EncoderState f → EncoderState f × List (Packet f.Payload)
  unfolding stop_with
  stop e = stop_with e e.codec_ctx

  -- What `~NVENCEncoder` does after its `stop`: the context goes, if there is one.
  free_context : EncoderState f → Option (Context f) → EncoderState f
  free_context b none = b
  free_context b (some c) = record b { codec_ctx = none; live_contexts = b.live_contexts - 1 }

  unfoldable pub destroy : EncoderState f → EncoderState f × List (Packet f.Payload)
  unfolding stop free_context
  destroy e =
      let (e', ps) = if e.running then stop e else (e, []) in (free_context e' e'.codec_ctx, ps)
