-- ===== src/VideoCore/Encode/Contract.antt =====
-- The contract of `Encoder` (video-core/include/encode/encoder.hpp), for whichever encoder
-- `createEncoder` made: its virtual functions as calls that a client may make.
use direct_link.Base.{
  ◌≡◌, refl, ap, Bool, if◌then◌else◌, true, false, Option, none, some, [], String, arith,
}
use direct_link.VideoCore.Types.{AvFrame}
use direct_link.VideoCore.Ffmpeg.{Ffmpeg}
use direct_link.VideoCore.Encode.{EncoderConfig, Context, Encoded}
use direct_link.VideoCore.Encode.Owned.{Owns}
use direct_link.VideoCore.Encode.Create.{
  Encoder, x264, nvenc, state, initialize, request_keyframe, encode_frame, stop, destroy,
  wrap_encoded,
}
use direct_link.VideoCore.Encode.Software.Ownership
use direct_link.VideoCore.Encode.Nvenc.Delivery
use direct_link.VideoCore.Encode.Software
use direct_link.VideoCore.Encode.Nvenc

module _ (f : Ffmpeg) where
  pub data Call : Type 0 where
    initializes : EncoderConfig → Bool → Call
    requests_keyframe stops : Call
    encodes : AvFrame f.Image → Call

  encoder_after : Option (Encoded f (Encoder f)) → Option (Encoder f)
  encoder_after none = none
  encoder_after (some r) = some r.encoder

  -- `none` stands for a fault.
  pub perform : Call → Encoder f → Option (Encoder f)
  unfolding encoder_after
  perform (initializes config cb) e = some (initialize f e config cb).0
  perform requests_keyframe e = some (request_keyframe f e)
  perform stops e = some (stop f e).0
  perform (encodes frame) e = encoder_after (encode_frame f e frame)

  -- An encoder is initialized again only after `stop`.
  abbrev pub Allowed : Call → Encoder f → Type 0
  Allowed (initializes config cb) e = (state f e).codec_ctx ≡ none
  Allowed call e = Unit {0}

  -- `encodeFrame` of an encoder that owns its context reads no null pointer.
  pub encode_frame-Owns :
      (e : Encoder f) (frame : AvFrame f.Image)
      → Owns f (state f e)
      → (r : Encoded f (Encoder f)) × (encode_frame f e frame ≡ some r) × Owns f (state f r.encoder)
  unfolding encode_frame
  encode_frame-Owns (x264 e) frame v =
      let (r, h) = Ownership.encode_frame-total f e frame v in
      (_, ap (λ o. wrap_encoded f x264 o) h, Ownership.encode_frame-Owns f e frame r h v)
  encode_frame-Owns (nvenc e) frame v =
      let (r, h) = Delivery.encode_frame-total f e frame v in
      (_, ap (λ o. wrap_encoded f nvenc o) h, Delivery.encode_frame-Owns f e frame r h v)

  -- Every call on an encoder that owns its context ends without a fault and leaves one that owns
  -- its context, as long as the encoder is initialized again only when it has no context: the
  -- encoder holds every context that is alive, one at most, and runs only with an open one.
  pub perform-Owns :
      (call : Call) (e : Encoder f)
      → Allowed call e
      → Owns f (state f e)
      → (e' : Encoder f) × (perform call e ≡ some e') × Owns f (state f e')
  unfolding perform initialize encode_frame stop request_keyframe
  perform-Owns (initializes config cb) (x264 e) a v =
      (_, refl, Ownership.initialize-Owns f e config cb a v)
  perform-Owns (initializes config cb) (nvenc e) a v =
      (_, refl, Delivery.initialize-Owns f e config cb a v)
  perform-Owns requests_keyframe (x264 e) a v = (_, refl, ground arith)
  perform-Owns requests_keyframe (nvenc e) a v = (_, refl, v)
  perform-Owns stops (x264 e) a v = (_, refl, (Ownership.stop-Owns f e v).0)
  perform-Owns stops (nvenc e) a v = (_, refl, (Delivery.stop-Owns f e v).0)
  perform-Owns (encodes frame) e a v =
      let (r, h, w) = encode_frame-Owns e frame v in (r.encoder, ap (λ o. encoder_after o) h, w)

  -- The codec that `initialize` of this encoder looks for.
  abbrev pub codec_of : Encoder f → String
  codec_of (x264 e) = Software.codec_name
  codec_of (nvenc e) = Nvenc.codec_name

  -- `stop` of an encoder that owns its context leaves it idle, with no context and none live; a
  -- second `stop` changes nothing and delivers nothing.
  pub stop_releases :
      (e : Encoder f)
      → Owns f (state f e)
      → let s = (stop f e).0 in
        ((state f s).running ≡ false)
        × ((state f s).codec_ctx ≡ none)
        × ((state f s).live_contexts ≡ 0)
        × (stop f s ≡ (s, []))
  unfolding stop
  stop_releases (x264 e) v = let w = Ownership.stop-Owns f e v in ground arith
  stop_releases (nvenc e) v = let w = Delivery.stop-Owns f e v in ground arith

  -- The destructor of an encoder that owns its context leaves no context alive, whether it runs or
  -- not; one that runs delivers first what `stop` delivers, and one that does not delivers
  -- nothing.
  destroy_releases :
      (e : Encoder f)
      → Owns f (state f e)
      → ((state f (destroy f e).0).codec_ctx ≡ none)
        × ((state f (destroy f e).0).live_contexts ≡ 0)
        × ((destroy f e).1 ≡ (if (state f e).running then (stop f e).1 else []))
  unfolding destroy stop
  destroy_releases (x264 e) v = (ground arith, ground arith, ground arith)
  destroy_releases (nvenc e) v = (ground arith, ground arith, ground arith)

  -- An encoder that owns a context and is initialized again without `stop` loses it: once FFmpeg
  -- has allocated the new context, two are live, of which the encoder holds one at most.
  pub initialize_leaks :
      (e : Encoder f) (c : Context f) (config : EncoderConfig) (cb : Bool)
      → Owns f (state f e)
      → (state f e).codec_ctx ≡ some c
      → f.find_encoder_by_name (codec_of e) ≡ true
      → f.alloc_context (codec_of e) ≡ true
      → (state f (initialize f e config cb).0).live_contexts ≡ 2
  unfolding initialize
  initialize_leaks (x264 e) c config cb v h found made =
      Ownership.initialize_leaks_lem f e c config cb v h found made
  initialize_leaks (nvenc e) c config cb v h found made =
      Delivery.initialize_leaks_lem f e c config cb v h found made
