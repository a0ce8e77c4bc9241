-- ===== src/Client/CameraSession/Destruction/EncodeStep.antt =====
-- The step with which the encode thread leaves `encodeFrame`
-- (video-core/src/pipeline/video_pipeline.cpp) while a camera session is destroyed.
use direct_link.Base.{◌≡◌, refl, Bool, true, false, some, List, if◌then◌else◌}
use direct_link.VideoCore.Types.{Packet}
use direct_link.VideoCore.Ffmpeg.{Ffmpeg}
use direct_link.VideoCore.Encode.Owned.{Owns}
use direct_link.VideoCore.Encode.Create.{Encoder, state}
use direct_link.VideoCore.Encode.Contract.{encode_frame-Owns}
use direct_link.VideoCore.Pipeline.{VideoPipeline, on_packets}
use direct_link.VideoCore.Pipeline.Encoding.{encode_taken}
use direct_link.VideoCore.Pipeline.Threads.{
  Threads, increment, push_frame, wake, capture_push, capture_notify, capture_count, encode_step,
  spurious_wakeup, EncodePc, loop_head, at_lock, waiting, encoding, exited, CapturePc, ready,
  pushed, notified, joined,
}
use direct_link.VideoCore.Pipeline.Threads
use direct_link.Client.Task.{moves, faults}
use direct_link.Networking.Publisher.{Buffer}
use direct_link.Client.CameraSession.{Session, push_packets}
use direct_link.Client.CameraSession.Encoding.{encode_frame}
use direct_link.Client.CameraSession.Live.{Shot, Live, encoded}
use direct_link.Client.CameraSession.Live
use direct_link.Client.CameraSession.Destruction.{Dying, thread, uses_gone, checked, fire}

module _ (f : Ffmpeg) where
  -- Whatever frame comes, `encodeFrame` reads no null pointer.
  abbrev pub CanEncode : VideoPipeline f → Type 0
  CanEncode p =
      (shot : Shot f)
      → (q : VideoPipeline f) × (ps : List (Packet f.Payload)) × (encode_taken f p shot.0
          ≡ some (q, ps))

  pub Owns-CanEncode :
      (p : VideoPipeline f) (e : Encoder f) → p.encoder ≡ some e → Owns f (state f e) → CanEncode p
  unfolding encode_taken
  Owns-CanEncode p e h w (frame, ok) =
      let (r, k, _) = encode_frame-Owns f e frame w in
      let o = on_packets f (record p { encoder = some r.encoder }) r.delivered in
      (o.0, o.1, rw (h, k) refl)

  pub encode_frame_moves :
      (s : Session f) (shot : Shot f) (q : VideoPipeline f) (ps : List (Packet f.Payload))
      → encode_taken f s.pipeline shot.0 ≡ some (q, ps)
      → (t : Session f) × (bs : List (Buffer f.Payload)) × (encode_frame f s shot ≡ some (t, bs))
  unfolding encode_frame
  encode_frame_moves s (frame, ok) q ps h =
      let (w, bs) = push_packets f s.publisher ps ok in
      (record s { pipeline = q; publisher = w }, bs, rw h refl)

  pub encode_step_lem :
      (d : Dying f) (t : Live f)
      → Live.fire f encode_step d.live ≡ moves t
      → (b : Bool) → uses_gone f encode_step d.live.threads.encode_pc d ≡ b
      → fire f (thread encode_step) d ≡ (if b then faults else moves (record d { live = t }))
  unfolding fire checked
  encode_step_lem d t h true u = rw (h, u) refl
  encode_step_lem d t h false u = rw (h, u) refl

  pub encode_fires :
      (shot : Shot f) (t : Live f)
      → t.threads.encode_pc ≡ encoding shot
      → Live.fire f encode_step t
        ≡ encoded f shot
            (record t { threads = record t.threads { encode_pc = loop_head } })
            (encode_frame f t.session shot)
  unfolding Live.fire Threads.fire
  encode_fires shot t p = rw p refl
