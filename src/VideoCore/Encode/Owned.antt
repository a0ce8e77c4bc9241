-- ===== src/VideoCore/Encode/Owned.antt =====
-- Who owns the codec context of an encoder (video-core/include/encode/encoder.hpp).
use direct_link.Base.{◌≡◌, Bool, true, false, if◌then◌else◌, Option, none, some, is_some}
use direct_link.VideoCore.Ffmpeg.{Ffmpeg}
use direct_link.VideoCore.Encode.{Context, EncoderState}

module _ (f : Ffmpeg) where
  abbrev pub is_open : Option (Context f) → Bool
  is_open none = false
  is_open (some c) = is_some c.opened

  -- The encoder owns the one context that it holds, and runs only with an open one.
  pub record Owns (e : EncoderState f) : Type 0 where
    pub owned : e.live_contexts ≡ (if is_some e.codec_ctx then 1 else 0)
    pub open_if_running : e.running ≡ true → is_open e.codec_ctx ≡ true
