-- ===== src/VideoCore/Ffmpeg.antt =====
-- What video-core relies on in FFmpeg: the calls it makes, as a parameter of the models, and the
-- documented behaviour that the theorems need.
use direct_link.Base.{ℕ, ◌<◌, ◌≡◌, Bool, String, Option, some, List, ℤ, pos, negsuc}
use direct_link.VideoCore.Types.{PixelFormat, AvFrame}

-- `AVRational`
pub record Rational : Type 0 where
  pub num : ℤ
  pub den : ℤ

abbrev pub nanoseconds : Rational
nanoseconds = record { num = pos 1; den = pos 1000000000 }

-- AV_NOPTS_VALUE, the least `int64_t`.
abbrev pub no_pts : ℤ
no_pts = negsuc 9223372036854775807

-- What the encoders write into their `AVCodecContext` before they open it.
pub record Settings : Type 0 where
  pub width : ℤ
  pub height : ℤ
  pub bit_rate : ℤ
  pub time_base : Rational
  pub framerate : Rational
  pub gop_size : ℤ
  pub max_b_frames : ℤ
  pub pix_fmt : PixelFormat
  pub limited_range : Bool  -- color_range = AVCOL_RANGE_MPEG
  pub baseline : Bool  -- profile = the constrained baseline

-- `AVPacket` as the codec yields it.
pub record AvPacket (P : Type 0) : Type 0 where
  pub payload : P
  pub pts : ℤ
  pub dts : ℤ
  pub size : ℤ
  pub key_flag : Bool

-- The encoder side of FFmpeg. `State` is what lies behind an opened context.
pub record Ffmpeg : Type 1 where
  pub State : Type 0
  pub Image : Type 0
  pub Payload : Type 0
  pub find_encoder_by_name : String → Bool
  -- avcodec_alloc_context3 gives a context.
  pub alloc_context : String → Bool
  -- avcodec_open2 with its option dictionary; `none` is a negative result.
  pub open_codec : String → Settings → List (String × String) → Option State
  -- avcodec_send_frame; the test is `ret >= 0`, and no frame is the flush.
  pub send_frame : State → Option (AvFrame Image) → State × Bool
  -- avcodec_receive_packet; `none` is any result but 0.
  pub receive_packet : State → Option (AvPacket Payload × State)
  -- The packets that a codec holds are finitely many, and each one received is one less.
  pub pending : State → ℕ
  pub pending_falls :
      (s t : State) (p : AvPacket Payload) → receive_packet s ≡ some (p, t) → pending t < pending s
  pub rescale_q : ℤ → Rational → Rational → ℤ
  -- sws_getContext, sws_setColorspaceDetails for a full-range source, and sws_scale: the image in
  -- the size and format that the settings ask for. `none` is a null context. The frame for the image
  -- is made by av_frame_alloc and av_frame_get_buffer, which are taken to succeed here: the source
  -- tests neither.
  pub convert : AvFrame Image → PixelFormat → Bool → Settings → Option Image
