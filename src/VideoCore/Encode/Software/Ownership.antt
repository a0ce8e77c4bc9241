-- ===== src/VideoCore/Encode/Software/Ownership.antt =====
-- Who owns the codec context of the x264 encoder (video-core/src/encode/software_encoder.cpp).
use direct_link.Base.{
  ◌≡◌, refl, Bool, true, false, Option, none, some, [], inl, inr, Bool-cases, arith,
}
use direct_link.VideoCore.Types.{error_encode_failed, AvFrame}
use direct_link.VideoCore.Ffmpeg.{Ffmpeg}
use direct_link.VideoCore.Encode.{EncoderConfig, Context, Encoded}
use direct_link.VideoCore.Encode.Software.{
  SoftwareEncoder, encode_in, codec_name, initialize, encode_frame, stop,
}
use direct_link.VideoCore.Encode.Owned.{Owns}

module _ (f : Ffmpeg) where
  pub initialize-Owns :
      (e : SoftwareEncoder f) (config : EncoderConfig) (cb : Bool)
      → e.codec_ctx ≡ none
      → Owns f e.base
      → Owns f (initialize f e config cb).0.base
  unfolding initialize
  initialize-Owns e config cb a v = ground arith

  running_total :
      (e : SoftwareEncoder f) (frame : AvFrame f.Image) (o : Option (Context f))
      → e.codec_ctx ≡ o
      → e.running ≡ true
      → Owns f e.base
      → (r : Encoded f (SoftwareEncoder f)) × (encode_frame f e frame ≡ some r)
  unfolding encode_frame
  running_total e frame none h b v = absurd (ground (arith, v.open_if_running b))
  running_total e frame (some c) h b v = (encode_in f e c frame, ground arith)

  pub encode_frame-total :
      (e : SoftwareEncoder f) (frame : AvFrame f.Image)
      → Owns f e.base
      → (r : Encoded f (SoftwareEncoder f)) × (encode_frame f e frame ≡ some r)
  unfolding encode_frame
  encode_frame-total e frame v = elim (Bool-cases e.running) [
    | inr idle ↦
        (record { encoder = e; result = error_encode_failed; delivered = [] }, ground arith)
    | inl busy ↦ running_total e frame e.codec_ctx refl busy v
  ]

  pub encode_frame-Owns :
      (e : SoftwareEncoder f) (frame : AvFrame f.Image) (r : Encoded f (SoftwareEncoder f))
      → encode_frame f e frame ≡ some r
      → Owns f e.base
      → Owns f r.encoder.base
  unfolding encode_frame
  encode_frame-Owns e frame r h v = ground arith

  pub stop-Owns :
      (e : SoftwareEncoder f)
      → Owns f e.base
      → Owns f (stop f e).0.base
        × ((stop f e).0.running ≡ false)
        × ((stop f e).0.codec_ctx ≡ none)
        × (stop f (stop f e).0 ≡ ((stop f e).0, []))
  unfolding stop
  stop-Owns e v = (ground arith, ground arith, ground arith, ground arith)

  pub initialize_leaks_lem :
      (e : SoftwareEncoder f) (c : Context f) (config : EncoderConfig) (cb : Bool)
      → Owns f e.base
      → e.codec_ctx ≡ some c
      → f.find_encoder_by_name codec_name ≡ true
      → f.alloc_context codec_name ≡ true
      → (initialize f e config cb).0.live_contexts ≡ 2
  unfolding initialize
  initialize_leaks_lem e c config cb v h found made = ground arith
