-- ===== src/VideoCore/Decode/Nvdec.antt =====
-- video-core/src/decode/nvdec_decoder.cpp: the H.264 decoder on the graphics card, whose frames are
-- transferred to memory.
use direct_link.Base.{
  ℕ, suc, ◌-◌, Bool, true, false, not, ◌||◌, if◌then◌else◌, Option, none, some, List, [], ◌∷◌, ◌++◌,
}
use direct_link.VideoCore.Types.{
  Result, success, error_init_failed, error_device_not_found, Packet, Frame, AvFrame,
}
use direct_link.VideoCore.Decode.{
  Ffmpeg, DecoderState, fresh, base_initialize, base_stop, base_destroy, send, receive, deliver,
  wrap_frame,
}

-- `live_devices` counts the references to the device that `initialize` was given and that were not
-- returned; the one that the context holds goes with the context.
pub record NvdecDecoder (f : Ffmpeg) : Type 0 where
  pub base : DecoderState f
  pub has_cpu_frame : Bool
  pub has_device : Bool
  pub live_cpu_frames : ℕ
  pub live_devices : ℕ

module _ (f : Ffmpeg) where
  abbrev pub new : NvdecDecoder f
  new = record {
    base = fresh f;
    has_cpu_frame = false;
    has_device = false;
    live_cpu_frames = 0;
    live_devices = 0;
  }

  -- From the two calls of av_frame_alloc on.
  make_frames : NvdecDecoder f → DecoderState f → NvdecDecoder f × Result
  make_frames d b =
      let e = record d {
        base = record b {
          has_frame = f.alloc_frame;
          live_frames = if f.alloc_frame then suc b.live_frames else b.live_frames;
        };
        has_cpu_frame = f.alloc_cpu_frame;
        live_cpu_frames = if f.alloc_cpu_frame then suc d.live_cpu_frames else d.live_cpu_frames;
      } in
      if not f.alloc_frame || not f.alloc_cpu_frame
      then (e, error_init_failed)
      else (record e { base = record e.base { initialized = true } }, success)

  -- From avcodec_open2 on.
  open_context : NvdecDecoder f → DecoderState f → Option f.State → NvdecDecoder f × Result
  unfolding make_frames
  open_context d b none =
      (record d { base = record b { codec_ctx = some none } }, error_init_failed)
  open_context d b (some s) = make_frames d (record b { codec_ctx = some (some s) })

  -- From avcodec_find_decoder_by_name on; there is a device.
  make_context : NvdecDecoder f → NvdecDecoder f × Result
  unfolding open_context
  make_context d =
      if not f.has_cuvid
      then (d, error_device_not_found)
      else if not f.alloc_context
      then (record d { base = record d.base { codec_ctx = none } }, error_init_failed)
      else open_context d (record d.base { live_contexts = suc d.base.live_contexts }) f.open_codec

  -- A failed av_hwdevice_ctx_create writes the null pointer.
  unfoldable pub initialize : NvdecDecoder f → Bool → NvdecDecoder f × Result
  unfolding base_initialize make_context
  initialize d has_callback =
      let (b, _) = base_initialize f d.base has_callback in
      if not f.has_cuda
      then (record d { base = b; has_device = false }, error_device_not_found)
      else make_context
          (record d { base = b; has_device = true; live_devices = suc d.live_devices })

  -- A decoded frame that cannot be transferred is skipped.
  unfoldable pub transferred :
      AvFrame f.Image → Option (AvFrame f.Image) → List (Frame (Option (AvFrame f.Image)))
  transferred decoded none = []
  transferred decoded (some image) = wrap_frame f decoded image ∷ []

  unfoldable pub wrap_all : List (AvFrame f.Image) → List (Frame (Option (AvFrame f.Image)))
  unfolding transferred
  wrap_all [] = []
  wrap_all (x ∷ xs) = transferred x (f.transfer x) ++ wrap_all xs

  unfoldable pub decode_in :
      NvdecDecoder f
      → Option f.State
      → f.Payload
      → NvdecDecoder f × List (Frame (Option (AvFrame f.Image)))
  unfolding send receive wrap_all
  decode_in d c payload =
      let (s, accepted) = send f c (some payload) in
      if not accepted
      then (record d { base = record d.base { codec_ctx = some s } }, [])
      else (let (t, fs) = receive f s in
          (
            record d { base = record d.base { codec_ctx = some t } },
            deliver f d.base (wrap_all fs),
          ))

  -- `none` stands for the read through a null context.
  decode_with :
      NvdecDecoder f
      → Option (Option f.State)
      → f.Payload
      → Option (NvdecDecoder f × List (Frame (Option (AvFrame f.Image))))
  unfolding decode_in
  decode_with d none payload = none
  decode_with d (some c) payload = some (decode_in d c payload)

  unfoldable pub decode_packet :
      NvdecDecoder f
      → Packet f.Payload
      → Option (NvdecDecoder f × List (Frame (Option (AvFrame f.Image))))
  unfolding decode_with
  decode_packet d packet =
      if not d.base.initialized then some (d, []) else decode_with d d.base.codec_ctx packet.packet

  unfoldable pub stop : NvdecDecoder f → NvdecDecoder f × List (AvFrame f.Image)
  unfolding base_stop
  stop d = let (b, fs) = base_stop f d.base in (record d { base = b }, fs)

  unfoldable pub destroy : NvdecDecoder f → NvdecDecoder f
  unfolding base_destroy
  destroy d = record d {
    base = base_destroy f d.base;
    has_cpu_frame = false;
    has_device = false;
    live_cpu_frames = if d.has_cpu_frame then d.live_cpu_frames - 1 else d.live_cpu_frames;
    live_devices = if d.has_device then d.live_devices - 1 else d.live_devices;
  }
