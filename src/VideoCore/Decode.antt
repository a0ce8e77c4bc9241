-- ===== src/VideoCore/Decode.antt =====
-- video-core/include/decode/decoder.hpp and src/decode/decoder.cpp: what the decoders rely on in
-- FFmpeg, as a parameter, and the state that the two of them share.
use direct_link.Base.{
  ℕ, suc, ◌<◌, ◌-◌, ◌≡◌, Bool, true, false, if◌then◌else◌, Option, none, some, is_some, List, [],
  ◌∷◌, map, ℤ, pos, eq_ℤ,
}
use direct_link.VideoCore.Types.{Result, success, Packet, Frame, AvFrame}
use direct_link.VideoCore.Ffmpeg.{Rational, nanoseconds, no_pts}
use direct_link.VideoCore.Drain.{drain}
pub mod Software
pub mod Nvdec
pub mod Create
pub mod Lifecycle
pub mod Frames
mod Tests

-- The decoder side of FFmpeg. `State` is what lies behind an opened context.
pub record Ffmpeg : Type 1 where
  pub State : Type 0
  pub Image : Type 0
  pub Payload : Type 0
  pub has_h264 : Bool  -- avcodec_find_decoder(AV_CODEC_ID_H264)
  pub has_cuvid : Bool  -- avcodec_find_decoder_by_name("h264_cuvid")
  pub has_cuda : Bool  -- av_hwdevice_ctx_create
  pub alloc_context : Bool
  -- avcodec_open2; `none` is a negative result.
  pub open_codec : Option State
  pub alloc_frame : Bool
  pub alloc_cpu_frame : Bool
  -- avcodec_send_packet; no packet is the flush.
  pub send_packet : State → Option Payload → State × Bool
  -- avcodec_receive_frame; `none` is any result but 0.
  pub receive_frame : State → Option (AvFrame Image × State)
  -- The frames that a codec holds are finitely many, and each one received is one less.
  pub pending : State → ℕ
  pub pending_falls :
      (s t : State) (p : AvFrame Image) → receive_frame s ≡ some (p, t) → pending t < pending s
  -- av_hwframe_transfer_data; `none` is a negative result.
  pub transfer : AvFrame Image → Option (AvFrame Image)
  -- av_frame_clone; `none` is a null pointer.
  pub clone : AvFrame Image → Option (AvFrame Image)
  pub time_base : Rational  -- of the context, in which the source does not set it
  pub rescale_q : ℤ → Rational → Rational → ℤ

-- The members that both decoders declare, and their callback. A context has a codec state once
-- avcodec_open2 has accepted it. `live_contexts` and `live_frames` record the history: what was
-- allocated and not freed. The code keeps no such count.
pub record DecoderState (f : Ffmpeg) : Type 0 where
  pub has_callback : Bool
  pub initialized : Bool
  pub codec_ctx : Option (Option f.State)
  pub has_frame : Bool
  pub live_contexts : ℕ
  pub live_frames : ℕ

module _ (f : Ffmpeg) where
  -- A newly made decoder.
  abbrev pub fresh : DecoderState f
  fresh = record {
    has_callback = false;
    initialized = false;
    codec_ctx = none;
    has_frame = false;
    live_contexts = 0;
    live_frames = 0;
  }

  -- `Decoder::initialize`
  unfoldable pub base_initialize : DecoderState f → Bool → DecoderState f × Result
  base_initialize d has_callback = (record d { has_callback = has_callback }, success)

  -- `Decoder::rescaleToNs`
  unfoldable pub rescale_to_ns : ℤ → Rational → ℤ
  rescale_to_ns value src_tb =
      if eq_ℤ value no_pts then pos 0 else f.rescale_q value src_tb nanoseconds

  -- The frame for the callback, of the decoded frame and of the one whose image is handed on.
  unfoldable pub wrap_frame : AvFrame f.Image → AvFrame f.Image → Frame (Option (AvFrame f.Image))
  unfolding rescale_to_ns
  wrap_frame decoded image = record {
    frame = f.clone image;
    pts = rescale_to_ns decoded.pts f.time_base;
    width = image.width;
    height = image.height;
    format = image.format;
  }

  -- One round for each frame that the codec holds, and one that finds none.
  unfoldable pub receive_frames : f.State → f.State × List (AvFrame f.Image)
  unfolding drain
  receive_frames s = drain f.receive_frame (suc (f.pending s)) s

  abbrev pub deliver :
      DecoderState f
      → List (Frame (Option (AvFrame f.Image)))
      → List (Frame (Option (AvFrame f.Image)))
  deliver d fs = if d.has_callback then fs else []

  -- avcodec_send_packet on a context; one that is not open is refused.
  unfoldable pub send : Option f.State → Option f.Payload → Option f.State × Bool
  send none packet = (none, false)
  send (some s) packet = let (t, accepted) = f.send_packet s packet in (some t, accepted)

  -- The receive loop on a context.
  unfoldable pub receive : Option f.State → Option f.State × List (AvFrame f.Image)
  unfolding receive_frames
  receive none = (none, [])
  receive (some s) = let (t, fs) = receive_frames s in (some t, fs)

  -- The flush at the end: what the codec still holds is received and dropped. These are the frames.
  unfoldable pub dropped : Option (Option f.State) → List (AvFrame f.Image)
  unfolding send receive
  dropped none = []
  dropped (some c) = (receive (send c none).0).1

  -- `stop`, which is the same in both decoders, with the frames that it drops.
  unfoldable pub base_stop : DecoderState f → DecoderState f × List (AvFrame f.Image)
  unfolding dropped
  base_stop d =
      if d.initialized
      then (
        record d { initialized = false; codec_ctx = none; live_contexts = d.live_contexts - 1 },
        dropped d.codec_ctx,
      )
      else (d, [])

  -- The destructor, for the members that both have.
  unfoldable pub base_destroy : DecoderState f → DecoderState f
  base_destroy d = record d {
    initialized = false;
    has_frame = false;
    codec_ctx = none;
    live_frames = if d.has_frame then d.live_frames - 1 else d.live_frames;
    live_contexts = if is_some d.codec_ctx then d.live_contexts - 1 else d.live_contexts;
  }
