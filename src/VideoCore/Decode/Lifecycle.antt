-- ===== src/VideoCore/Decode/Lifecycle.antt =====
-- What the decoders (video-core/src/decode) own, over the calls of `Decoder`.
use direct_link.Base.{
  ◌≡◌, refl, ap, Bool, true, false, if◌then◌else◌, Option, none, some, is_some, List, [], arith,
  inl, inr, Bool-cases,
}
use direct_link.VideoCore.Types.{success, Packet, Frame, AvFrame}
use direct_link.VideoCore.Decode.{Ffmpeg, DecoderState, base_stop, send}
use direct_link.VideoCore.Decode.Nvdec.{NvdecDecoder}
use direct_link.VideoCore.Decode.Create.{
  Decoder, software, nvdec, base_of, initialize, decode_packet, stop, destroy, wrap_decoded,
}
use direct_link.VideoCore.Decode.Software
use direct_link.VideoCore.Decode.Nvdec

module _ (f : Ffmpeg) where
  abbrev pub is_open : Option (Option f.State) → Bool
  is_open none = false
  is_open (some c) = is_some c

  -- The decoder owns the one context and the one frame that it holds, and is initialized only
  -- with an open context.
  pub record OwnsBase (d : DecoderState f) : Type 0 where
    pub contexts : d.live_contexts ≡ (if is_some d.codec_ctx then 1 else 0)
    pub frames : d.live_frames ≡ (if d.has_frame then 1 else 0)
    pub open_if_initialized : d.initialized ≡ true → is_open d.codec_ctx ≡ true

  pub record OwnsDevice (d : NvdecDecoder f) : Type 0 where
    pub base : OwnsBase d.base
    pub cpu_frames : d.live_cpu_frames ≡ (if d.has_cpu_frame then 1 else 0)
    pub devices : d.live_devices ≡ (if d.has_device then 1 else 0)

  abbrev pub OwnsAll : Decoder f → Type 0
  OwnsAll (software d) = OwnsBase d
  OwnsAll (nvdec d) = OwnsDevice d

  -- A decoder that holds nothing, as a new one does.
  abbrev pub HoldsNothing : Decoder f → Type 0
  HoldsNothing (software d) = (d.codec_ctx ≡ none) × (d.has_frame ≡ false) × (d.initialized ≡ false)
  HoldsNothing (nvdec d) =
      (d.base.codec_ctx ≡ none)
      × (d.base.has_frame ≡ false)
      × (d.base.initialized ≡ false)
      × (d.has_cpu_frame ≡ false)
      × (d.has_device ≡ false)

  software-initialize-Owns :
      (d : DecoderState f) (cb : Bool)
      → d.codec_ctx ≡ none
      → d.has_frame ≡ false
      → d.initialized ≡ false
      → OwnsBase d
      → OwnsBase (Software.initialize f d cb).0
  unfolding Software.initialize
  software-initialize-Owns d cb a b i v = ground arith

  nvdec-initialize-Owns :
      (d : NvdecDecoder f) (cb : Bool)
      → HoldsNothing (nvdec d)
      → OwnsDevice d
      → OwnsDevice (Nvdec.initialize f d cb).0
  unfolding Nvdec.initialize
  nvdec-initialize-Owns d cb h v = ground arith

  base_stop-Owns : (d : DecoderState f) → OwnsBase d → OwnsBase (base_stop f d).0
  unfolding base_stop
  base_stop-Owns d v = ground arith

  software-open-total :
      (d : DecoderState f) (packet : Packet f.Payload) (o : Option (Option f.State))
      → d.codec_ctx ≡ o
      → d.initialized ≡ true
      → OwnsBase d
      → (r : DecoderState f × List (Frame (Option (AvFrame f.Image)))) × (Software.decode_packet f d
            packet
          ≡ some r)
  unfolding Software.decode_packet
  software-open-total d packet none e i v = absurd (ground (arith, v.open_if_initialized i))
  software-open-total d packet (some c) e i v =
      (Software.decode_in f d c packet.packet, ground arith)

  software-decode_packet-total :
      (d : DecoderState f) (packet : Packet f.Payload)
      → OwnsBase d
      → (r : DecoderState f × List (Frame (Option (AvFrame f.Image)))) × (Software.decode_packet f d
            packet
          ≡ some r)
  unfolding Software.decode_packet
  software-decode_packet-total d packet v = elim (Bool-cases d.initialized) [
    | inr idle ↦ ((d, []), ground arith)
    | inl busy ↦ software-open-total d packet d.codec_ctx refl busy v
  ]

  software-decode_packet-Owns :
      (d : DecoderState f) (packet : Packet f.Payload)
      (r : DecoderState f × List (Frame (Option (AvFrame f.Image))))
      → Software.decode_packet f d packet ≡ some r
      → OwnsBase d
      → OwnsBase r.0
  unfolding Software.decode_packet Software.decode_in send
  software-decode_packet-Owns d packet r h v = ground arith

  nvdec-open-total :
      (d : NvdecDecoder f) (packet : Packet f.Payload) (o : Option (Option f.State))
      → d.base.codec_ctx ≡ o
      → d.base.initialized ≡ true
      → OwnsDevice d
      → (r : NvdecDecoder f × List (Frame (Option (AvFrame f.Image)))) × (Nvdec.decode_packet f d
            packet
          ≡ some r)
  unfolding Nvdec.decode_packet
  nvdec-open-total d packet none e i v = absurd (ground (arith, v.base.open_if_initialized i))
  nvdec-open-total d packet (some c) e i v = (Nvdec.decode_in f d c packet.packet, ground arith)

  nvdec-decode_packet-total :
      (d : NvdecDecoder f) (packet : Packet f.Payload)
      → OwnsDevice d
      → (r : NvdecDecoder f × List (Frame (Option (AvFrame f.Image)))) × (Nvdec.decode_packet f d
            packet
          ≡ some r)
  unfolding Nvdec.decode_packet
  nvdec-decode_packet-total d packet v = elim (Bool-cases d.base.initialized) [
    | inr idle ↦ ((d, []), ground arith)
    | inl busy ↦ nvdec-open-total d packet d.base.codec_ctx refl busy v
  ]

  nvdec-decode_packet-Owns :
      (d : NvdecDecoder f) (packet : Packet f.Payload)
      (r : NvdecDecoder f × List (Frame (Option (AvFrame f.Image))))
      → Nvdec.decode_packet f d packet ≡ some r
      → OwnsDevice d
      → OwnsDevice r.0
  unfolding Nvdec.decode_packet Nvdec.decode_in send
  nvdec-decode_packet-Owns d packet r h v = ground arith

  pub data Call : Type 0 where
    initializes : Bool → Call
    decodes : Packet f.Payload → Call
    stops : Call

  decoder_after : Option (Decoder f × List (Frame (Option (AvFrame f.Image)))) → Option (Decoder f)
  decoder_after none = none
  decoder_after (some (d, fs)) = some d

  -- `none` stands for a fault.
  pub perform : Call → Decoder f → Option (Decoder f)
  unfolding decoder_after
  perform (initializes cb) d = some (initialize f d cb).0
  perform (decodes packet) d = decoder_after (decode_packet f d packet)
  perform stops d = some (stop f d).0

  -- Only a decoder that holds nothing is initialized.
  abbrev pub Allowed : Call → Decoder f → Type 0
  Allowed (initializes cb) d = HoldsNothing d
  Allowed call d = Unit

  -- Every call on a decoder that owns what it holds ends without a fault and leaves one that does, as long
  -- as `initialize` is called only on a decoder that holds nothing, like a new one: the decoder holds
  -- every context and frame that is alive, and every device, one of each at most, and is
  -- initialized only with an open context.
  pub perform-OwnsAll :
      (call : Call) (d : Decoder f)
      → Allowed call d
      → OwnsAll d
      → (d' : Decoder f) × (perform call d ≡ some d') × OwnsAll d'
  unfolding perform initialize decode_packet stop
  perform-OwnsAll (initializes cb) (software d) (a, b, i) v =
      (_, refl, software-initialize-Owns d cb a b i v)
  perform-OwnsAll (initializes cb) (nvdec d) a v = (_, refl, nvdec-initialize-Owns d cb a v)
  perform-OwnsAll (decodes packet) (software d) a v =
      let (r, h) = software-decode_packet-total d packet v in
      (
        software r.0,
        ap (λ o. decoder_after (wrap_decoded f software o)) h,
        software-decode_packet-Owns d packet r h v,
      )
  perform-OwnsAll (decodes packet) (nvdec d) a v =
      let (r, h) = nvdec-decode_packet-total d packet v in
      (
        nvdec r.0,
        ap (λ o. decoder_after (wrap_decoded f nvdec o)) h,
        nvdec-decode_packet-Owns d packet r h v,
      )
  perform-OwnsAll stops (software d) a v = (_, refl, base_stop-Owns d v)
  perform-OwnsAll stops (nvdec d) a v = (
    _,
    refl,
    record { base = base_stop-Owns d.base v.base; cpu_frames = v.cpu_frames; devices = v.devices },
  )

  -- The destructor of a decoder that owns what it holds, in whatever state it is, frees it all.
  destroy_frees :
      (d : Decoder f)
      → OwnsAll d
      → HoldsNothing (destroy f d)
        × OwnsAll (destroy f d)
        × ((base_of f (destroy f d)).live_contexts ≡ 0)
        × ((base_of f (destroy f d)).live_frames ≡ 0)
  unfolding destroy
  destroy_frees (software d) v = ground arith
  destroy_frees (nvdec d) v = ground arith

  -- A decoder that was stopped and is initialized again with success loses its frame: two
  -- frames are alive, of which it holds one; on the graphics card the same goes for the frame in memory and
  -- the device.
  restart_leaks :
      (d : Decoder f) (cb : Bool)
      → OwnsAll d
      → (base_of f d).initialized ≡ true
      → (base_of f d).has_frame ≡ true
      → let r = initialize f (stop f d).0 cb in
        r.1 ≡ success → ((base_of f r.0).live_frames ≡ 2) × ((base_of f r.0).live_contexts ≡ 1)
  unfolding initialize stop
  restart_leaks (software d) cb v i h e = ground arith
  restart_leaks (nvdec d) cb v i h e = ground arith
