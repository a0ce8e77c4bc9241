-- ===== src/Client/CameraSession/Sending.antt =====
-- What reaches the network from the frames of a camera session
-- (client/src/session/camera_session.cpp): the encoder, the pipeline and the publisher together.
use direct_link.Base.{
  ◌≡◌, refl, sym, ap, ◌∙◌, Bool, true, none, some, List, [], ◌∷◌, ◌++◌, map, All, pos, is_neg, ℕ,
}
use direct_link.VideoCore.Types.{Packet, AvFrame}
use direct_link.VideoCore.Ffmpeg.{Ffmpeg}
use direct_link.VideoCore.Encode.{Encoded}
use direct_link.VideoCore.Encode.Owned.{Owns}
use direct_link.VideoCore.Encode.Create.{Encoder, state}
use direct_link.VideoCore.Encode.Create
use direct_link.VideoCore.Encode.Contract.{encode_frame-Owns}
use direct_link.VideoCore.Pipeline.Encoding.{counted, on_packets_all, encode_taken_forwards}
use direct_link.Networking.Publisher.Timing.{
  push_all, push_all-append, relative, InStream, push_all-relative,
}
use direct_link.Client.CameraSession.{Session}
use direct_link.Client.CameraSession.Encoding.{
  encode_frame, encode_frames, encode_all, Sent, paired, after_frame, after_buffers,
  push_packets-push_all,
}

module _ (f : Ffmpeg) where
  pub encode_frame_wires :
      (s : Session f) (e : Encoder f) (frame : AvFrame f.Image) (ok : Bool)
      (r : Encoded f (Encoder f))
      → s.pipeline.encoder ≡ some e
      → s.pipeline.has_packet_callback ≡ true
      → Create.encode_frame f e frame ≡ some r
      → let w = push_all s.publisher (paired f ok r.delivered) in
        encode_frame f s (frame, ok)
        ≡ some (
          record s { pipeline = counted f s.pipeline r.encoder r.delivered; publisher = w.0 },
          w.1,
        )
  unfolding encode_frame
  encode_frame_wires s e frame ok r h cb k = rw (
    encode_taken_forwards f s.pipeline e frame r h cb k,
    push_packets-push_all f s.publisher r.delivered ok,
  )

  -- What a session is after some frames: the encoder has gone on by itself, and the publisher has
  -- been given what it delivered.
  pub record Sends (s : Session f) (frames : List (AvFrame f.Image × Bool)) (d : Encoder f)
      (qs : List (Packet f.Payload × Bool)) (t : Session f) : Type 0 where
    pub wired : encode_frames f s frames ≡ some (t, (push_all s.publisher qs).1)
    pub publisher : t.publisher ≡ (push_all s.publisher qs).0
    pub encoder : t.pipeline.encoder ≡ some d
    pub has_packet_callback : t.pipeline.has_packet_callback ≡ true
    pub is_running : t.is_running ≡ s.is_running

  -- A session whose encoder owns its context and whose pipeline has the callback that `start`
  -- gives: whatever frames the encode thread takes, it reads no null pointer, and the buffers that
  -- reach the source are those that the publisher makes of the packets which the encoder, by
  -- itself, delivers for these frames, in order; the encoder owns its context again.
  pub encode_frames-Sends :
      (s : Session f) (e : Encoder f) (frames : List (AvFrame f.Image × Bool))
      → s.pipeline.encoder ≡ some e
      → s.pipeline.has_packet_callback ≡ true
      → Owns f (state f e)
      → (d : Encoder f) × (qs : List (Packet f.Payload × Bool)) × (t : Session f) × (encode_all f e
            frames
          ≡ some (d, qs))
        × Owns f (state f d)
        × Sends s frames d qs t
  unfolding encode_frames encode_all push_all
  encode_frames-Sends s e [] h cb v = (
    e,
    [],
    s,
    refl,
    v,
    record {
      wired = refl;
      publisher = refl;
      encoder = h;
      has_packet_callback = cb;
      is_running = refl;
    },
  )
  encode_frames-Sends s e ((frame, ok) ∷ rest) h cb v =
      let (r, k, w) = encode_frame-Owns f e frame v in
      let ps = paired f ok r.delivered in
      let s' : Session f = record s {
        pipeline = counted f s.pipeline r.encoder r.delivered;
        publisher = (push_all s.publisher ps).0;
      } in
      let c = on_packets_all f (record s.pipeline { encoder = some r.encoder }) r.delivered cb in
      let (d, qs, t, all, u, n) = encode_frames-Sends s' r.encoder rest c.2 c.1 w in
      let pushed = push_all-append s.publisher ps qs in
      (
        d,
        ps ++ qs,
        t,
        rw (k, all),
        u,
        record {
          wired =
              ap (after_frame f (λ q. encode_frames f q rest))
                (encode_frame_wires s e frame ok r h cb k)
              ∙ ap (after_buffers f (push_all s.publisher ps).1) n.wired
              ∙ ap (λ q. some (t, q.1)) (sym pushed);
          publisher = n.publisher ∙ ap (λ q. q.0) (sym pushed);
          encoder = n.encoder;
          has_packet_callback = n.has_packet_callback;
          is_running = n.is_running;
        },
      )

  abbrev packets_of : Sent f → List (Packet f.Payload × Bool)
  packets_of none = []
  packets_of (some (d, qs)) = qs

  -- The session's pipeline has an encoder that owns what its state says, and the packet callback;
  -- the publisher runs with a source and its stream has not started. If the encoder by itself
  -- delivers for the frames at least one packet, the first with a stamp that is not negative and
  -- each of them in the first one's stream, then the session encodes all the frames, and exactly
  -- these packets reach the source, in order, stamped relative to the first.
  pub encode_frames-relative :
      (s : Session f) (e d : Encoder f) (frames : List (AvFrame f.Image × Bool))
      (first : Packet f.Payload) (ok : Bool) (rest : List (Packet f.Payload × Bool)) (a : ℕ)
      → s.pipeline.encoder ≡ some e
      → s.pipeline.has_packet_callback ≡ true
      → Owns f (state f e)
      → s.publisher.running ≡ true
      → s.publisher.appsrc ≡ true
      → is_neg s.publisher.stream_start_pts ≡ true
      → encode_all f e frames ≡ some (d, (first, ok) ∷ rest)
      → first.pts ≡ pos a
      → All (InStream a) ((first, ok) ∷ rest)
      → (t : Session f) × (encode_frames f s frames
          ≡ some (t, map (relative a s.publisher.framerate) ((first, ok) ∷ rest)))
  encode_frames-relative s e d frames first ok rest a h cb v r src new all z in_stream =
      let (d', qs, t, all', u, n) = encode_frames-Sends s e frames h cb v in
      let same : qs ≡ (first, ok) ∷ rest = ap packets_of (sym all' ∙ all) in
      (
        t,
        n.wired
            ∙ ap (λ xs. some (t, (push_all s.publisher xs).1)) same
            ∙ ap (λ bs. some (t, bs))
                (push_all-relative s.publisher first ok rest a r src new z in_stream),
      )
