-- ===== src/Client/CameraSession/Tests.antt =====
-- A camera session with a codec in the place of FFmpeg and GStreamer's answers written out.
use direct_link.Base.{ℕ, arith, ◌≡◌, refl, Bool, true, false, some, List, [], ◌∷◌, map, pos}
use direct_link.VideoCore.Types.{Packet, AvFrame}
use direct_link.VideoCore.Ffmpeg.{AvPacket}
use direct_link.VideoCore.Encode.{receive_packets, wrap_packet}
use direct_link.VideoCore.Encode.Sample.{counting, camera_frame}
use direct_link.VideoCore.Encode.Drain.{Yields}
use direct_link.VideoCore.Encode.Software.{SoftwareEncoder, prepare}
use direct_link.VideoCore.Encode.Software.Frames.{advance}
use direct_link.VideoCore.Encode.Create.{Encoder, x264, nvenc, state}
use direct_link.VideoCore.Encode.Create
use direct_link.Networking.Publisher.{Buffer}
use direct_link.Networking.Publisher.Timing.{relative}
use direct_link.Client.CameraSession.{Session, new, start, stop, on_upstream}
use direct_link.Client.CameraSession.Sample.{
  answers, busy, open_nvenc, context, empty_context, live_state, with_encoder, live_state-Owns,
}
use direct_link.Client.CameraSession.Encoding.{encode_frame, encode_frames, encode_all}
use direct_link.Client.CameraSession.Sending.{encode_frames-relative}
use direct_link.Client.CameraSession.Keyframes.{forced, on_upstream_forces}
use direct_link.Client.CameraSession.Running.{new-Inv, Inv, start-Inv}
use direct_link.Client.CameraSession.Stopping.{stop-Inv}

start-Inv_example :
    let r = start counting (new counting) "http://localhost/whip" "key" answers in
    Inv counting r.0 × (r.1 ≡ r.0.is_running)
start-Inv_example =
    start-Inv counting (new counting) "http://localhost/whip" "key" answers (new-Inv counting) refl

busy-Inv : Inv counting busy
busy-Inv = record { published_if_running = refl; complete = λ h. (refl, refl); threaded = refl }

stop-Inv_example :
    let q = (stop counting busy true).0 in
    Inv counting q
    × (q.is_running ≡ false)
    × (q.publisher.pipeline ≡ false)
    × (q.pipeline.encode_thread ≡ false)
    × ((ps : List (AvPacket ℕ)) × (t : ℕ) × Yields counting 2 t ps
        × (map (λ b. b.payload) (stop counting busy true).1 ≡ map (λ p. p.payload) ps))
stop-Inv_example =
    stop-Inv counting busy open_nvenc 2 true busy-Inv refl refl refl
      record { running = refl; has_callback = refl; context = context; held = refl; opened = refl }

abbrev two_frames : List (AvFrame ℕ × Bool)
two_frames = (camera_frame, true) ∷ (camera_frame, false) ∷ []

abbrev packet : Packet ℕ
packet = record { packet = 0; pts = pos 0; dts = pos 0; size = pos 100; is_keyframe = true }

two_packets :
    encode_all counting (nvenc live_state) two_frames
    ≡ some (nvenc live_state, (packet, true) ∷ (packet, false) ∷ [])
unfolding encode_all Create.encode_frame receive_packets wrap_packet
two_packets = refl

encode_frames-relative_example :
    (t : Session counting) × (encode_frames counting (with_encoder (nvenc live_state)) two_frames
      ≡ some (t, map (relative 0 (pos 60)) ((packet, true) ∷ (packet, false) ∷ [])))
encode_frames-relative_example =
    encode_frames-relative counting (with_encoder (nvenc live_state)) (nvenc live_state)
      (nvenc live_state) two_frames packet true ((packet, false) ∷ []) 0 refl refl live_state-Owns
      refl refl refl two_packets refl (omega arith)

abbrev live_x264 : SoftwareEncoder counting
live_x264 = record { base = live_state; force_keyframe = false }

abbrev reachable : Session counting
reachable = record (with_encoder (x264 live_x264)) {
  publisher = record busy.publisher { has_keyframe_callback = true };
}

on_upstream_forces_example :
    (ps : List (AvPacket ℕ)) × (t : ℕ) × (q : Session counting) × (bs : List (Buffer ℕ)) × Yields
      counting
      (forced counting empty_context 0 camera_frame).0
      t
      ps
    × (encode_frame counting (on_upstream counting reachable true) (camera_frame, true)
        ≡ some (q, bs))
    × (map (λ b. b.payload) bs ≡ map (λ p. p.payload) ps)
    × (q.pipeline.encoder ≡ some (x264 (advance counting live_x264 empty_context t)))
    × ((prepare counting empty_context.settings true camera_frame).intra ≡ true)
on_upstream_forces_example =
    on_upstream_forces counting reachable live_x264 empty_context 0 camera_frame true refl refl refl
      refl refl (record { running = refl; context = refl; state = refl }) refl refl
