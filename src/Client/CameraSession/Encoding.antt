-- ===== src/Client/CameraSession/Encoding.antt =====
-- From the camera to the network: the frames that the encode thread of a session takes, with the
-- callback that client/src/session/camera_session.cpp gives to `VideoPipeline::start`.
use mathlib.Core.List.{append_assoc, append-nil}
use direct_link.Base.{◌≡◌, refl, sym, ap, ◌∙◌, Bool, Option, none, some, List, [], ◌∷◌, ◌++◌, map}
use direct_link.VideoCore.Types.{Packet, AvFrame}
use direct_link.VideoCore.Ffmpeg.{Ffmpeg}
use direct_link.VideoCore.Encode.{Encoded}
use direct_link.VideoCore.Encode.Create.{Encoder, state}
use direct_link.VideoCore.Encode.Create
use direct_link.VideoCore.Pipeline.{VideoPipeline}
use direct_link.VideoCore.Pipeline.Encoding.{encode_taken}
use direct_link.Networking.Publisher.{Publisher, Buffer, push_packet}
use direct_link.Networking.Publisher.Timing.{push_all}
use direct_link.Client.CameraSession.{Session, push_packets}

module _ (f : Ffmpeg) where
  -- `none` stands for a fault.
  abbrev pub Wired : Type 0
  Wired = Option (Session f × List (Buffer f.Payload))

  encoded : Session f → Option (VideoPipeline f × List (Packet f.Payload)) → Bool → Wired
  unfolding push_packets
  encoded s none flow_ok = none
  encoded s (some (p, ps)) flow_ok =
      let (w, bs) = push_packets f s.publisher ps flow_ok in
      some (record s { pipeline = p; publisher = w }, bs)

  -- The encode thread with one frame, and the buffers that reach the source of the publisher;
  -- `flow_ok` is what the source answers to them.
  unfoldable pub encode_frame : Session f → AvFrame f.Image × Bool → Wired
  unfolding encoded encode_taken
  encode_frame s (frame, flow_ok) = encoded s (encode_taken f s.pipeline frame) flow_ok

  abbrev pub after_buffers : List (Buffer f.Payload) → Wired → Wired
  after_buffers bs none = none
  after_buffers bs (some (t, cs)) = some (t, bs ++ cs)

  abbrev pub after_frame : (Session f → Wired) → Wired → Wired
  after_frame k none = none
  after_frame k (some (s, bs)) = after_buffers bs (k s)

  -- The rounds of `encodeLoop`, with these frames in the order in which they leave the queue.
  unfoldable pub encode_frames : Session f → List (AvFrame f.Image × Bool) → Wired
  unfolding encode_frame
  encode_frames s [] = some (s, [])
  encode_frames s (frame ∷ rest) = after_frame (λ t. encode_frames t rest) (encode_frame s frame)

  abbrev pub Sent : Type 0
  Sent = Option (Encoder f × List (Packet f.Payload × Bool))

  abbrev pub paired : Bool → List (Packet f.Payload) → List (Packet f.Payload × Bool)
  paired ok ps = map (λ p. (p, ok)) ps

  abbrev pub after_packets : List (Packet f.Payload × Bool) → Sent → Sent
  after_packets qs none = none
  after_packets qs (some (e, rs)) = some (e, qs ++ rs)

  abbrev pub after_encoded : Bool → (Encoder f → Sent) → Option (Encoded f (Encoder f)) → Sent
  after_encoded ok k none = none
  after_encoded ok k (some r) = after_packets (paired ok r.delivered) (k r.encoder)

  -- The encoder by itself: what it delivers for these frames, with the answers of the source.
  unfoldable pub encode_all : Encoder f → List (AvFrame f.Image × Bool) → Sent
  encode_all e [] = some (e, [])
  encode_all e ((frame, ok) ∷ rest) =
      after_encoded ok (λ d. encode_all d rest) (Create.encode_frame f e frame)

  pub push_packets-push_all :
      (w : Publisher) (ps : List (Packet f.Payload)) (ok : Bool)
      → push_packets f w ps ok ≡ push_all w (paired ok ps)
  unfolding push_packets push_all
  push_packets-push_all w [] ok = refl
  push_packets-push_all w (packet ∷ rest) ok =
      let r = push_packet w packet ok in rw (push_packets-push_all r.publisher rest ok)

  after_buffers-nil : (o : Wired) → after_buffers [] o ≡ o
  after_buffers-nil none = refl
  after_buffers-nil (some (t, cs)) = refl

  after_buffers-append :
      (bs cs : List (Buffer f.Payload)) (o : Wired)
      → after_buffers bs (after_buffers cs o) ≡ after_buffers (bs ++ cs) o
  after_buffers-append bs cs none = refl
  after_buffers-append bs cs (some (t, ds)) = ap (λ es. some (t, es)) (sym (append_assoc bs cs ds))

  after_frame-after_buffers :
      (k : Session f → Wired) (bs : List (Buffer f.Payload)) (o : Wired)
      → after_buffers bs (after_frame k o) ≡ after_frame k (after_buffers bs o)
  after_frame-after_buffers k bs none = refl
  after_frame-after_buffers k bs (some (t, cs)) = after_buffers-append bs cs (k t)

  after_frame_assoc :
      (j k m : Session f → Wired)
      → ((t : Session f) → m t ≡ after_frame k (j t))
      → (o : Wired) → after_frame m o ≡ after_frame k (after_frame j o)
  after_frame_assoc j k m h none = refl
  after_frame_assoc j k m h (some (t, bs)) =
      ap (after_buffers bs) (h t) ∙ after_frame-after_buffers k bs (j t)

  encode_frames-append :
      (s : Session f) (xs ys : List (AvFrame f.Image × Bool))
      → encode_frames s (xs ++ ys) ≡ after_frame (λ t. encode_frames t ys) (encode_frames s xs)
  unfolding encode_frames
  encode_frames-append s [] ys = sym (after_buffers-nil (encode_frames s ys))
  encode_frames-append s (x ∷ xs) ys =
      after_frame_assoc (λ t. encode_frames t xs) (λ t. encode_frames t ys)
        (λ t. encode_frames t (xs ++ ys)) (λ t. encode_frames-append t xs ys) (encode_frame s x)

  -- One more frame after the others.
  pub encode_frames-snoc :
      (s t u : Session f) (xs : List (AvFrame f.Image × Bool)) (x : AvFrame f.Image × Bool)
      (bs cs : List (Buffer f.Payload))
      → encode_frames s xs ≡ some (t, bs)
      → encode_frame t x ≡ some (u, cs)
      → encode_frames s (xs ++ x ∷ []) ≡ some (u, bs ++ cs)
  unfolding encode_frames
  encode_frames-snoc s t u xs x bs cs h e =
      encode_frames-append s xs (x ∷ [])
      ∙ ap (after_frame (λ q. encode_frames q (x ∷ []))) h
      ∙ ap (λ o. after_buffers bs (after_frame (λ q. some (q, [])) o)) e
      ∙ ap (λ ds. some (u, bs ++ ds)) (append-nil cs)
