-- ===== src/VideoCore/Decode/Software.antt =====
-- video-core/src/decode/software_decoder.cpp: the H.264 decoder of FFmpeg on the processor.
use direct_link.Base.{suc, Bool, true, false, not, if◌then◌else◌, Option, none, some, List, [], map}
use direct_link.VideoCore.Types.{Result, success, error_init_failed, Packet, Frame, AvFrame}
use direct_link.VideoCore.Decode.{
  Ffmpeg, DecoderState, base_initialize, base_stop, base_destroy, send, receive, deliver,
  wrap_frame,
}

module _ (f : Ffmpeg) where
  -- From av_frame_alloc on. The new frame, or the null pointer, replaces the old one.
  make_frame : DecoderState f → DecoderState f × Result
  make_frame d =
      if not f.alloc_frame then (record d { has_frame = false }, error_init_failed) else (
        record d { has_frame = true; live_frames = suc d.live_frames; initialized = true },
        success,
      )

  -- From avcodec_open2 on; the context is allocated.
  open_context : DecoderState f → Option f.State → DecoderState f × Result
  unfolding make_frame
  open_context d none = (record d { codec_ctx = some none }, error_init_failed)
  open_context d (some s) = make_frame (record d { codec_ctx = some (some s) })

  -- `Decoder::initialize` returns Success always, so its result is not tested further.
  unfoldable pub initialize : DecoderState f → Bool → DecoderState f × Result
  unfolding base_initialize open_context
  initialize d has_callback =
      let (b, _) = base_initialize f d has_callback in
      if not f.has_h264
      then (b, error_init_failed)
      else if not f.alloc_context
      then (record b { codec_ctx = none }, error_init_failed)
      else open_context (record b { live_contexts = suc b.live_contexts }) f.open_codec

  unfoldable pub decode_in :
      DecoderState f
      → Option f.State
      → f.Payload
      → DecoderState f × List (Frame (Option (AvFrame f.Image)))
  unfolding send receive
  decode_in d c payload =
      let (s, accepted) = send f c (some payload) in
      if not accepted
      then (record d { codec_ctx = some s }, [])
      else (let (t, fs) = receive f s in
          (record d { codec_ctx = some t }, deliver f d (map (λ x. wrap_frame f x x) fs)))

  -- `none` stands for the read through the null context of a decoder that is marked initialized.
  decode_with :
      DecoderState f
      → Option (Option f.State)
      → f.Payload
      → Option (DecoderState f × List (Frame (Option (AvFrame f.Image))))
  unfolding decode_in
  decode_with d none payload = none
  decode_with d (some c) payload = some (decode_in d c payload)

  -- `decodePacket`, with the frames that go to the callback, in order.
  unfoldable pub decode_packet :
      DecoderState f
      → Packet f.Payload
      → Option (DecoderState f × List (Frame (Option (AvFrame f.Image))))
  unfolding decode_with
  decode_packet d packet =
      if not d.initialized then some (d, []) else decode_with d d.codec_ctx packet.packet

  unfoldable pub stop : DecoderState f → DecoderState f × List (AvFrame f.Image)
  unfolding base_stop
  stop d = base_stop f d

  unfoldable pub destroy : DecoderState f → DecoderState f
  unfolding base_destroy
  destroy d = base_destroy f d
