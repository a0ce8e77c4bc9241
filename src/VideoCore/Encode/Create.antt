-- ===== src/VideoCore/Encode/Create.antt =====
-- `createEncoder` of video-core/src/encode/encoder.cpp, and the calls that it sends to the encoder it
-- made: the virtual functions of `Encoder`.
use direct_link.Base.{◌≡◌, Bool, if◌then◌else◌, Option, none, some, List, arith}
use direct_link.VideoCore.Types.{Result, Packet, AvFrame}
use direct_link.VideoCore.Ffmpeg.{Ffmpeg}
use direct_link.VideoCore.Encode.{
  EncoderType, software, hardware, EncoderConfig, EncoderState, Encoded, fresh,
}
use direct_link.VideoCore.Encode.Software.{SoftwareEncoder}
use direct_link.VideoCore.Encode.Software
use direct_link.VideoCore.Encode.Nvenc

-- The classes that derive from `Encoder`.
pub data Encoder (f : Ffmpeg) : Type 0 where
  x264 : SoftwareEncoder f → Encoder f
  nvenc : EncoderState f → Encoder f

module _ (f : Ffmpeg) where
  abbrev pub state : Encoder f → EncoderState f
  state (x264 e) = e.base
  state (nvenc e) = e

  -- Both requests are resolved by whether FFmpeg has NVENC.
  resolve : EncoderType → EncoderType
  resolve software = if f.find_encoder_by_name "h264_nvenc" then hardware else software
  resolve hardware = if f.find_encoder_by_name "h264_nvenc" then hardware else software

  make : EncoderType → Encoder f
  make software = x264 (Software.new f)
  make hardware = nvenc (fresh f)

  -- The `default` of the source's `switch`, a null pointer, serves no value of the enumeration.
  unfoldable pub create_encoder : EncoderConfig → Encoder f
  unfolding resolve make
  create_encoder config = make (resolve config.type)

  abbrev on_x264 : SoftwareEncoder f × Result → Encoder f × Result
  on_x264 (e, r) = (x264 e, r)

  abbrev on_nvenc : EncoderState f × Result → Encoder f × Result
  on_nvenc (e, r) = (nvenc e, r)

  unfoldable pub initialize : Encoder f → EncoderConfig → Bool → Encoder f × Result
  unfolding Software.initialize Nvenc.initialize
  initialize (x264 e) config cb = on_x264 (Software.initialize f e config cb)
  initialize (nvenc e) config cb = on_nvenc (Nvenc.initialize f e config cb)

  unfoldable pub request_keyframe : Encoder f → Encoder f
  unfolding Software.request_keyframe Nvenc.request_keyframe
  request_keyframe (x264 e) = x264 (Software.request_keyframe f e)
  request_keyframe (nvenc e) = nvenc (Nvenc.request_keyframe f e)

  abbrev pub wrap_encoded :
      {E : Type 0} → (E → Encoder f) → Option (Encoded f E) → Option (Encoded f (Encoder f))
  wrap_encoded k none = none
  wrap_encoded k (some r) =
      some (record { encoder = k r.encoder; result = r.result; delivered = r.delivered })

  unfoldable pub encode_frame : Encoder f → AvFrame f.Image → Option (Encoded f (Encoder f))
  unfolding Software.encode_frame Nvenc.encode_frame
  encode_frame (x264 e) frame = wrap_encoded x264 (Software.encode_frame f e frame)
  encode_frame (nvenc e) frame = wrap_encoded nvenc (Nvenc.encode_frame f e frame)

  abbrev stopped_x264 :
      SoftwareEncoder f × List (Packet f.Payload) → Encoder f × List (Packet f.Payload)
  stopped_x264 (e, ps) = (x264 e, ps)

  abbrev stopped_nvenc :
      EncoderState f × List (Packet f.Payload) → Encoder f × List (Packet f.Payload)
  stopped_nvenc (e, ps) = (nvenc e, ps)

  unfoldable pub stop : Encoder f → Encoder f × List (Packet f.Payload)
  unfolding Software.stop Nvenc.stop
  stop (x264 e) = stopped_x264 (Software.stop f e)
  stop (nvenc e) = stopped_nvenc (Nvenc.stop f e)

  -- The virtual destructor.
  unfoldable pub destroy : Encoder f → Encoder f × List (Packet f.Payload)
  unfolding Software.destroy Nvenc.destroy
  destroy (x264 e) = stopped_x264 (Software.destroy f e)
  destroy (nvenc e) = stopped_nvenc (Nvenc.destroy f e)

  -- The type that the configuration asks for plays no part: NVENC is made exactly when FFmpeg has
  -- it, also for a configuration that asks for the software encoder.
  create_encoder_ignores_type :
      (config : EncoderConfig) (t : EncoderType)
      → (create_encoder (record config { type = t }) ≡ create_encoder config)
        × (create_encoder config ≡ (
            if f.find_encoder_by_name "h264_nvenc" then nvenc (fresh f) else x264 (Software.new f)))
  unfolding create_encoder
  create_encoder_ignores_type config t = (ground arith, ground arith)
