-- ===== src/Client/CameraSession/Live/Network.antt =====
-- What the threads of a running session (client/src/session/camera_session.cpp) bring from the camera
-- to the network, in every interleaving.
use mathlib.Core.Path.{subst}
use direct_link.Base.{
  ◌≡◌, refl, sym, ap, ◌∙◌, Bool, true, false, Option, none, some, List, [], ◌++◌,
}
use direct_link.VideoCore.Types.{Packet}
use direct_link.VideoCore.Ffmpeg.{Ffmpeg}
use direct_link.VideoCore.Encode.Owned.{Owns}
use direct_link.VideoCore.Encode.Create.{Encoder, state}
use direct_link.VideoCore.Encode.Contract.{encode_frame-Owns}
use direct_link.VideoCore.Pipeline.Encoding.{counted}
use direct_link.VideoCore.Pipeline.Threads.{
  Threads, Label, encode_step, EncodePc, loop_head, at_lock, waiting, encoding, exited, started,
  Steps,
}
use direct_link.VideoCore.Pipeline.Threads
use direct_link.VideoCore.Pipeline.Threads.Order.{IsFifo, Steps-IsFifo}
use direct_link.VideoCore.Pipeline.Threads.Taken.{
  in_hand, is_encoded, HasDone, fire-HasDone, encoded-HasDone,
}
use direct_link.Networking.Publisher.{Buffer}
use direct_link.Networking.Publisher.Timing.{push_all}
use direct_link.Client.Task.{moves, Ensures, map-Ensures}
use direct_link.Client.CameraSession.{Session}
use direct_link.Client.CameraSession.Encoding.{
  Wired, encode_frame, encode_frames, encode_frames-snoc, encode_all, paired,
}
use direct_link.Client.CameraSession.Sending.{encode_frame_wires, encode_frames-Sends}
use direct_link.Client.CameraSession.Live.{
  Shot, Live, begins, encoded, work, thread_moved, fire, Reached, here, next,
}

module _ (f : Ffmpeg) where
  -- The session in which the threads begin.
  pub record CanSend (s : Session f) (e : Encoder f) : Type 0 where
    pub encoder : s.pipeline.encoder ≡ some e
    pub has_packet_callback : s.pipeline.has_packet_callback ≡ true
    pub owned : Owns f (state f e)

  record Follows (s : Session f) (t : Live f) : Type 0 where
    reached : Steps started t.threads
    has_done : HasDone t.done t.threads
    wired : encode_frames f s t.done ≡ some (t.session, t.sent)

  session_of : Session f → Wired f → Session f
  session_of s none = s
  session_of s (some (t, bs)) = t

  buffers_of : Wired f → List (Buffer f.Payload)
  buffers_of none = []
  buffers_of (some (t, bs)) = bs

  -- The session can encode one more frame.
  encodes_next :
      (s : Session f) (e : Encoder f) (t : Live f) (shot : Shot f)
      → CanSend s e
      → encode_frames f s t.done ≡ some (t.session, t.sent)
      → (u : Session f) × (bs : List (Buffer f.Payload)) × (encode_frame f t.session shot
          ≡ some (u, bs))
  unfolding session_of
  encodes_next s e t (frame, ok) c w =
      let (d, qs, t', all, own, n) =
        encode_frames-Sends f s e t.done c.encoder c.has_packet_callback c.owned in
      let same : t' ≡ t.session = ap (session_of s) (sym n.wired ∙ w) in
      let (r, h, _) = encode_frame-Owns f d frame own in
      let sent = push_all t.session.publisher (paired f ok r.delivered) in
      (
        record t.session {
          pipeline = counted f t.session.pipeline r.encoder r.delivered;
          publisher = sent.0;
        },
        sent.1,
        encode_frame_wires f t.session d frame ok r
            (ap (λ q. q.pipeline.encoder) (sym same) ∙ n.encoder)
            (ap (λ q. q.pipeline.has_packet_callback) (sym same) ∙ n.has_packet_callback) h,
      )

  work_idle :
      (l : Label (Shot f)) (pc : EncodePc (Shot f)) (u : Live f)
      → is_encoded l pc ≡ false
      → work f l pc u ≡ moves u
  unfolding work
  work_idle encode_step (encoding shot) u n = cc
  work_idle _ _ u n = refl

  work_idle-Follows :
      (s : Session f) (l : Label (Shot f)) (t : Live f) (th : Threads (Shot f))
      → is_encoded l t.threads.encode_pc ≡ false
      → Threads.fire l t.threads ≡ some th
      → Follows s t
      → Follows s (record t { threads = th })
  work_idle-Follows s l t th n h v = record {
    reached = Threads.next v.reached l h;
    has_done = fire-HasDone t.done l t.threads th h n v.has_done;
    wired = v.wired;
  }

  work-Follows :
      (s : Session f) (e : Encoder f) (l : Label (Shot f)) (pc : EncodePc (Shot f)) (t : Live f)
      (th : Threads (Shot f))
      → CanSend s e
      → t.threads.encode_pc ≡ pc
      → Threads.fire l t.threads ≡ some th
      → Follows s t
      → Ensures (λ u. Follows s u) (work f l pc (record t { threads = th }))
  unfolding work
  work-Follows s e encode_step (encoding shot) t th c p h v =
      let (u, bs, k) = encodes_next s e t shot c v.wired in
      subst (λ o. Ensures (λ q. Follows s q) (encoded f shot (record t { threads = th }) o)) (sym k)
        record {
          reached = Threads.next v.reached encode_step h;
          has_done = encoded-HasDone t.done shot t.threads th p h v.has_done;
          wired = encode_frames-snoc f s t.session u t.done shot t.sent bs v.wired k;
        }
  work-Follows s e l pc t th c p h v = work_idle-Follows s l t th (ap (is_encoded l) p) h v

  thread_moved-Follows :
      (s : Session f) (e : Encoder f) (l : Label (Shot f)) (t : Live f)
      (o : Option (Threads (Shot f)))
      → CanSend s e
      → Threads.fire l t.threads ≡ o
      → Follows s t
      → Ensures (λ u. Follows s u) (thread_moved f l t o)
  unfolding thread_moved
  thread_moved-Follows s e l t none c h v = tt
  thread_moved-Follows s e l t (some th) c h v =
      work-Follows s e l t.threads.encode_pc t th c refl h v

  fire-Follows :
      (s : Session f) (e : Encoder f) (l : Label (Shot f)) (t : Live f)
      → CanSend s e
      → Follows s t
      → Ensures (λ u. Follows s u) (fire f l t)
  unfolding fire
  fire-Follows s e l t c v = thread_moved-Follows s e l t (Threads.fire l t.threads) c refl v

  Reached-Follows :
      {s : Session f} {t : Live f} (e : Encoder f) → CanSend s e → Reached f s t → Follows s t
  unfolding begins encode_frames started
  Reached-Follows e c here = record { reached = Threads.here; has_done = refl; wired = refl }
  Reached-Follows {s} e c (next {t = t} r l h) =
      subst (λ o. Ensures (λ u. Follows s u) o) h (fire-Follows s e l t c (Reached-Follows e c r))

  -- A session whose encoder owns its context and whose pipeline has the callback that `start` gives. In every
  -- state that its three threads reach, in whatever interleaving: the buffers that have
  -- reached the source are those that the publisher makes of the packets which the encoder, by
  -- itself, delivers for the frames that are finished, in order; these and the one in hand are the frames
  -- that were taken from the queue; the frames captured are, in order, those that left the queue,
  -- a merge of the lost and the taken, and those in it; and no step of a thread reads a null pointer.
  pub camera_to_network :
      {s : Session f} {t : Live f} (e : Encoder f)
      → CanSend s e
      → Reached f s t
      → (d : Encoder f) × (qs : List (Packet f.Payload × Bool)) × (encode_all f e t.done
          ≡ some (d, qs))
        × (t.sent ≡ (push_all s.publisher qs).1)
        × (t.threads.taken ≡ t.done ++ in_hand t.threads.encode_pc)
        × IsFifo t.threads
        × ((l : Label (Shot f)) → Ensures (λ u. Unit {0}) (fire f l t))
  unfolding buffers_of
  camera_to_network {s} {t} e c r =
      let v = Reached-Follows e c r in
      let (d, qs, t', all, own, n) =
        encode_frames-Sends f s e t.done c.encoder c.has_packet_callback c.owned in
      (
        d,
        qs,
        all,
        ap buffers_of (sym v.wired ∙ n.wired),
        v.has_done,
        Steps-IsFifo t.threads v.reached,
        λ l.
            map-Ensures (λ u. Follows s u) (λ u. Unit {0}) (fire f l t) (fire-Follows s e l t c v)
              (λ u h. tt),
      )
