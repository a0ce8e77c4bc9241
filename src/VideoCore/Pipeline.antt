-- ===== src/VideoCore/Pipeline.antt =====
-- video-core/src/pipeline/video_pipeline.cpp and include/pipeline/video_pipeline.hpp: the calls of
-- `VideoPipeline`. What its threads do meanwhile is in the child `Threads`; `stop` is modelled
-- here as the call that returns.
use direct_link.Base.{
  ℕ, ◌+◌, ◌*◌, ◌%◌, Bool, true, false, not, ◌&&◌, if◌then◌else◌, String, Option, none, some, List,
  [], ◌∷◌, ℤ, pos, to_u32, to_i32, two_32,
}
use direct_link.VideoCore.Types.{Result, success, error_init_failed, Packet}
use direct_link.VideoCore.Ffmpeg.{Ffmpeg}
use direct_link.VideoCore.Encode.{EncoderConfig}
use direct_link.VideoCore.Encode
use direct_link.VideoCore.Encode.Create.{Encoder, create_encoder}
use direct_link.VideoCore.Encode.Create
use direct_link.VideoCore.Capture.{Capture, CaptureConfig, Probe, Playing}
use direct_link.VideoCore.Capture
pub mod Threads
pub mod Calls
pub mod EncodeThread
pub mod Encoding
pub mod Statistics
mod Tests

pub record VideoPipeline (f : Ffmpeg) : Type 0 where
  pub encoder_config : EncoderConfig
  pub capture_device : Option Capture
  pub encoder : Option (Encoder f)
  pub has_packet_callback : Bool
  pub has_preview_callback : Bool
  pub encode_thread : Bool  -- joinable
  pub frames_encoded : ℕ  -- std::atomic<int>, its 32 bits
  pub bitrate : ℕ  -- std::atomic<int>, its 32 bits: the bytes of all packets

abbrev pub is_success : Result → Bool
is_success success = true
is_success r = false

module _ (f : Ffmpeg) where
  abbrev pub new : VideoPipeline f
  new = record {
    encoder_config = Encode.default_config;
    capture_device = none;
    encoder = none;
    has_packet_callback = false;
    has_preview_callback = false;
    encode_thread = false;
    frames_encoded = 0;
    bitrate = 0;
  }

  -- The callback that `start` gives to the encoder; the packet is handed on if there is a callback.
  unfoldable pub on_packet :
      VideoPipeline f → Packet f.Payload → VideoPipeline f × Option (Packet f.Payload)
  on_packet p packet = (
    record p {
      bitrate = (p.bitrate + to_u32 packet.size) % two_32;
      frames_encoded = (p.frames_encoded + 1) % two_32;
    },
    if p.has_packet_callback then some packet else none,
  )

  abbrev cons_packet : Option (Packet f.Payload) → List (Packet f.Payload) → List (Packet f.Payload)
  cons_packet none ps = ps
  cons_packet (some p) ps = p ∷ ps

  unfoldable pub on_packets :
      VideoPipeline f → List (Packet f.Payload) → VideoPipeline f × List (Packet f.Payload)
  unfolding on_packet
  on_packets p [] = (p, [])
  on_packets p (packet ∷ rest) =
      let (q, forwarded) = on_packet p packet in
      let (r, others) = on_packets q rest in (r, cons_packet forwarded others)

  -- The assignment to `encoder_` destroys the encoder that it held.
  pub drop_encoder :
      VideoPipeline f → Option (Encoder f) → VideoPipeline f × List (Packet f.Payload)
  unfolding on_packets
  drop_encoder p none = (p, [])
  drop_encoder p (some e) = on_packets p (Create.destroy f e).1

  -- `createEncoder` never gives a null pointer.
  pub initialize_encoder :
      VideoPipeline f → Capture × Result → VideoPipeline f × Result × List (Packet f.Payload)
  unfolding drop_encoder
  initialize_encoder p (c, r) =
      let q = record p { capture_device = some c } in
      if not (is_success r)
      then (q, r, [])
      else (let (d, flushed) = drop_encoder q q.encoder in
          (record d { encoder = some (create_encoder f p.encoder_config) }, success, flushed))

  -- The packets are those that an encoder of an earlier call flushes. The capture device of an
  -- earlier call is destroyed, and a new one made.
  unfoldable pub initialize :
      VideoPipeline f
      → CaptureConfig
      → EncoderConfig
      → Bool
      → (String → Probe)
      → VideoPipeline f × Result × List (Packet f.Payload)
  unfolding initialize_encoder
  initialize p capture_config encoder_config has_pipewire probe =
      initialize_encoder (record p { encoder_config = encoder_config })
        (Capture.initialize Capture.new capture_config has_pipewire probe)

  start_capture : VideoPipeline f → Capture × Result → VideoPipeline f × Result
  start_capture p (c, r) =
      let q = record p { capture_device = some c } in
      if not (is_success r) then (q, r) else (record q { encode_thread = true }, success)

  start_encoder :
      VideoPipeline f → Capture → Playing → Encoder f × Result → VideoPipeline f × Result
  unfolding start_capture
  start_encoder p c g (e, r) =
      let q = record p { encoder = some e } in
      if not (is_success r)
      then (q, error_init_failed)
      else start_capture q (Capture.start c true g)

  start_devices :
      VideoPipeline f
      → Option Capture
      → Option (Encoder f)
      → Bool
      → Playing
      → VideoPipeline f × Result
  unfolding start_encoder
  start_devices p none e cb g = (p, error_init_failed)
  start_devices p (some c) none cb g = (p, error_init_failed)
  start_devices p (some c) (some e) cb g =
      if p.encode_thread
      then (p, error_init_failed)
      else start_encoder (record p { has_packet_callback = cb }) c g
          (Create.initialize f e p.encoder_config true)

  unfoldable pub start : VideoPipeline f → Bool → Playing → VideoPipeline f × Result
  unfolding start_devices
  start p cb g = start_devices p p.capture_device p.encoder cb g

  abbrev map_encoder : (Encoder f → Encoder f) → Option (Encoder f) → Option (Encoder f)
  map_encoder g none = none
  map_encoder g (some e) = some (g e)

  unfoldable pub request_keyframe : VideoPipeline f → VideoPipeline f
  request_keyframe p = record p { encoder = map_encoder (Create.request_keyframe f) p.encoder }

  unfoldable pub set_preview_callback : VideoPipeline f → Bool → VideoPipeline f
  set_preview_callback p cb = record p { has_preview_callback = cb }

  pub stop_capture : Option Capture → Option Capture
  stop_capture none = none
  stop_capture (some c) = some (if c.running then (Capture.stop c).0 else c)

  stop_encoder : VideoPipeline f → Option (Encoder f) → VideoPipeline f × List (Packet f.Payload)
  unfolding on_packets
  stop_encoder p none = (p, [])
  stop_encoder p (some e) =
      let (e', flushed) = Create.stop f e in on_packets (record p { encoder = some e' }) flushed

  -- `stop` returns Success always. The packets are those that the encoder flushes.
  unfoldable pub stop : VideoPipeline f → VideoPipeline f × List (Packet f.Payload)
  unfolding stop_capture stop_encoder
  stop p =
      stop_encoder
        (record p { capture_device = stop_capture p.capture_device; encode_thread = false })
        p.encoder

  -- `getBitrate`: `divide` is the division by the elapsed seconds and the cast to `int`, which are
  -- floating-point; `elapsed` is whether these are more than 0. The product is of two `int`, whose
  -- overflow C++ leaves undefined: here it wraps, as the machine's product does.
  unfoldable pub get_bitrate : VideoPipeline f → Bool → (ℤ → ℤ) → ℤ
  get_bitrate p elapsed divide =
      if not p.encode_thread
      then pos 0
      else if elapsed
      then divide (to_i32 (p.bitrate * 8 % two_32))
      else pos 0
