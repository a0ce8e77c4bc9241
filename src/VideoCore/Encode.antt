-- ===== src/VideoCore/Encode.antt =====
-- video-core/include/encode/encoder_config.hpp, encoder.hpp and src/encode/encoder.cpp: the
-- configuration, the state that the two encoders share, and the loop that receives packets.
use direct_link.Base.{
  ℕ, zero, suc, Bool, true, false, if◌then◌else◌, Option, none, some, List, [], ◌∷◌, map, ◌-◌, ℤ,
  pos, eq_ℤ,
}
use direct_link.VideoCore.Types.{Result, success, Packet, AvFrame}
use direct_link.VideoCore.Drain.{drain}
use direct_link.VideoCore.Ffmpeg.{Ffmpeg, Rational, Settings, AvPacket, nanoseconds, no_pts}
pub mod Software
pub mod Nvenc
pub mod Create
pub mod Drain
pub mod Owned
pub mod Contract
pub mod Sample
mod Tests

pub data Preset : Type 0 where
  ultra_fast fast medium slow : Preset

pub data EncoderType : Type 0 where
  software hardware : EncoderType

pub record EncoderConfig : Type 0 where
  pub width : ℤ
  pub height : ℤ
  pub bitrate : ℤ
  pub framerate : ℤ
  pub gop_size : ℤ
  pub preset : Preset
  pub type : EncoderType

-- The default member initialisers.
abbrev pub default_config : EncoderConfig
default_config = record {
  width = pos 0;
  height = pos 0;
  bitrate = pos 4000000;
  framerate = pos 30;
  gop_size = pos 60;
  preset = ultra_fast;
  type = software;
}

-- `AVCodecContext`: it has a codec state once avcodec_open2 has accepted it. FFmpeg refuses frames
-- for a context that is not open, and yields no packet from it.
pub record Context (f : Ffmpeg) : Type 0 where
  pub settings : Settings
  pub opened : Option f.State

-- The members of `Encoder`, and `codecCtx_`, which both encoders declare alike. `live_contexts`
-- records the history: the contexts that were allocated and not freed. The code keeps no such
-- count. Of the callback it matters only whether there is one: what it is called with is a result.
pub record EncoderState (f : Ffmpeg) : Type 0 where
  pub config : EncoderConfig
  pub has_callback : Bool
  pub running : Bool
  pub codec_ctx : Option (Context f)
  pub live_contexts : ℕ

-- What `encodeFrame` leaves and returns, and the packets that it hands to the callback, in order.
pub record Encoded (f : Ffmpeg) (E : Type 0) : Type 0 where
  pub encoder : E
  pub result : Result
  pub delivered : List (Packet f.Payload)

module _ (f : Ffmpeg) where
  -- A newly made encoder.
  abbrev pub fresh : EncoderState f
  fresh = record {
    config = default_config;
    has_callback = false;
    running = false;
    codec_ctx = none;
    live_contexts = 0;
  }

  -- `Encoder::initialize`
  unfoldable pub base_initialize : EncoderState f → EncoderConfig → Bool → EncoderState f × Result
  base_initialize e config has_callback =
      (record e { config = config; has_callback = has_callback }, success)

  -- `Encoder::rescaleToNs`
  unfoldable pub rescale_to_ns : ℤ → Rational → ℤ
  rescale_to_ns value src_tb =
      if eq_ℤ value no_pts then pos 0 else f.rescale_q value src_tb nanoseconds

  unfoldable pub wrap_packet : Rational → AvPacket f.Payload → Packet f.Payload
  unfolding rescale_to_ns
  wrap_packet encoder_tb p = record {
    packet = p.payload;
    pts = rescale_to_ns p.pts encoder_tb;
    dts = rescale_to_ns p.dts encoder_tb;
    size = p.size;
    is_keyframe = p.key_flag;
  }

  -- `while (avcodec_receive_packet(codecCtx_, pkt) == 0) { … }`: one round for each packet that the
  -- codec holds, and one that finds none.
  unfoldable pub receive_packets : Rational → f.State → f.State × List (Packet f.Payload)
  unfolding drain
  receive_packets tb s =
      let (t, ps) = drain f.receive_packet (suc (f.pending s)) s in (t, map (wrap_packet tb) ps)

  -- The callback is called only if there is one.
  abbrev pub deliver : EncoderState f → List (Packet f.Payload) → List (Packet f.Payload)
  deliver e ps = if e.has_callback then ps else []

  -- avcodec_send_frame on a context.
  unfoldable pub send : Option f.State → Option (AvFrame f.Image) → Option f.State × Bool
  send none frame = (none, false)
  send (some s) frame = let (t, accepted) = f.send_frame s frame in (some t, accepted)

  -- The receive loop on a context.
  unfoldable pub receive : Rational → Option f.State → Option f.State × List (Packet f.Payload)
  unfolding receive_packets
  receive tb none = (none, [])
  receive tb (some s) = let (t, ps) = receive_packets tb s in (some t, ps)

  -- The body of `stop` of both encoders, behind its test: flush, receive, free the context.
  unfoldable pub flush_and_free :
      EncoderState f → Context f → EncoderState f × List (Packet f.Payload)
  unfolding send receive
  flush_and_free e c =
      let (flushed, _) = send c.opened none in
      let (_, ps) = receive c.settings.time_base flushed in
      (
        record e { running = false; codec_ctx = none; live_contexts = e.live_contexts - 1 },
        deliver e ps,
      )
