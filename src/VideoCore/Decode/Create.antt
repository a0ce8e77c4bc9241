-- ===== src/VideoCore/Decode/Create.antt =====
-- `createDecoder` of video-core/src/decode/decoder.cpp, and the virtual functions of `Decoder`
-- (video-core/include/decode/decoder.hpp).
use direct_link.Base.{◌&&◌, Bool, if◌then◌else◌, Option, none, some, List}
use direct_link.VideoCore.Types.{Result, Packet, Frame, AvFrame}
use direct_link.VideoCore.Decode.{Ffmpeg, DecoderState, fresh}
use direct_link.VideoCore.Decode.Nvdec.{NvdecDecoder}
use direct_link.VideoCore.Decode.Software
use direct_link.VideoCore.Decode.Nvdec

-- The classes that derive from `Decoder`.
pub data Decoder (f : Ffmpeg) : Type 0 where
  software : DecoderState f → Decoder f
  nvdec : NvdecDecoder f → Decoder f

module _ (f : Ffmpeg) where
  abbrev pub base_of : Decoder f → DecoderState f
  base_of (software d) = d
  base_of (nvdec d) = d.base

  -- The device that is opened for the test is returned.
  unfoldable pub create_decoder : Decoder f
  create_decoder = if f.has_cuvid && f.has_cuda then nvdec (Nvdec.new f) else software (fresh f)

  unfoldable pub initialize : Decoder f → Bool → Decoder f × Result
  unfolding Software.initialize Nvdec.initialize
  initialize (software d) cb = let (e, r) = Software.initialize f d cb in (software e, r)
  initialize (nvdec d) cb = let (e, r) = Nvdec.initialize f d cb in (nvdec e, r)

  abbrev pub wrap_decoded :
      {D : Type 0}
      → (D → Decoder f)
      → Option (D × List (Frame (Option (AvFrame f.Image))))
      → Option (Decoder f × List (Frame (Option (AvFrame f.Image))))
  wrap_decoded k none = none
  wrap_decoded k (some (d, fs)) = some (k d, fs)

  unfoldable pub decode_packet :
      Decoder f → Packet f.Payload → Option (Decoder f × List (Frame (Option (AvFrame f.Image))))
  unfolding Software.decode_packet Nvdec.decode_packet
  decode_packet (software d) packet = wrap_decoded software (Software.decode_packet f d packet)
  decode_packet (nvdec d) packet = wrap_decoded nvdec (Nvdec.decode_packet f d packet)

  unfoldable pub stop : Decoder f → Decoder f × List (AvFrame f.Image)
  unfolding Software.stop Nvdec.stop
  stop (software d) = let (e, fs) = Software.stop f d in (software e, fs)
  stop (nvdec d) = let (e, fs) = Nvdec.stop f d in (nvdec e, fs)

  -- The virtual destructor.
  unfoldable pub destroy : Decoder f → Decoder f
  unfolding Software.destroy Nvdec.destroy
  destroy (software d) = software (Software.destroy f d)
  destroy (nvdec d) = nvdec (Nvdec.destroy f d)
