-- ===== src/Client/CameraSession/Destruction/Unstopped.antt =====
-- A camera session (client/src/session/camera_session.hpp) that is destroyed while its threads run.
use direct_link.Base.{
  ◌≡◌, refl, ap, Bool, true, false, some, List, [], ◌∷◌, ◌++◌, ◌∙◌, inl, inr, Bool-cases,
}
use direct_link.VideoCore.Ffmpeg.{Ffmpeg}
use direct_link.VideoCore.Encode.Owned.{Owns}
use direct_link.VideoCore.Encode.Create.{Encoder, state}
use direct_link.VideoCore.Pipeline.Threads.{
  Threads, increment, push_frame, wake, capture_push, capture_notify, capture_count, encode_step,
  spurious_wakeup, EncodePc, loop_head, at_lock, waiting, encoding, exited, CapturePc, ready,
  pushed, notified, joined,
}
use direct_link.VideoCore.Pipeline.Threads
use direct_link.Client.Task.{moves, faults}
use direct_link.Client.CameraSession.Live.{Shot, Live, encoded}
use direct_link.Client.CameraSession.Live
use direct_link.Client.CameraSession.Destruction.EncodeStep.{
  CanEncode, Owns-CanEncode, encode_frame_moves, encode_step_lem, encode_fires,
}
use direct_link.Client.CameraSession.Destruction.{
  Stage, Dying, Label, destroys, thread, whole, joining, uses_gone, unthreaded, unqueued, fire, run,
}

module _ (f : Ffmpeg) where
  -- A thread can make a step that uses a member which is destroyed.
  pub record UsesGone (d : Dying f) : Type 0 where
    pub label : Threads.Label (Shot f)
    pub result : Live f
    pub moves_on : Live.fire f label d.live ≡ moves result
    pub uses : uses_gone f label d.live.threads.encode_pc d ≡ true
    pub faults_then : fire f (thread label) d ≡ faults

  abbrev pub CanFault : Dying f → Type 0
  CanFault d = (ls : List (Label f)) × (e : Dying f) × (run f ls d ≡ moves e) × UsesGone e

  abbrev with_threads : Dying f → Threads (Shot f) → Dying f
  with_threads d t = record d { live = record d.live { threads = t } }

  by_step : (l : Label f) (d e : Dying f) → fire f l d ≡ moves e → CanFault e → CanFault d
  unfolding run
  by_step l d e h (ls, u, k, v) = (l ∷ ls, u, rw h k, v)

  now : (d : Dying f) → UsesGone d → CanFault d
  unfolding run
  now d v = ([], d, refl, v)

  -- With the queue destroyed, the next frame of the camera uses it.
  next_frame-CanFault :
      (shot : Shot f) (d : Dying f)
      → d.stage ≡ unqueued
      → d.live.threads.capture_pc ≡ ready
      → CanFault d
  unfolding fire Live.fire Threads.fire
  next_frame-CanFault shot d s p = now d record {
    label = capture_push shot;
    result = record d.live { threads = push_frame shot d.live.threads };
    moves_on = rw p refl;
    uses = rw s refl;
    faults_then = rw (p, s) refl;
  }

  unqueued-CanFault :
      (pc : CapturePc) (shot : Shot f) (d : Dying f)
      → d.stage ≡ unqueued
      → d.live.threads.capture_pc ≡ pc
      → (pc ≡ joined → ⊥)
      → CanFault d
  unfolding fire Live.fire Threads.fire
  unqueued-CanFault ready shot d s p n = next_frame-CanFault shot d s p
  unqueued-CanFault pushed shot d s p n = now d record {
    label = capture_notify;
    result = record d.live {
      threads = record d.live.threads {
        encode_pc = wake d.live.threads.encode_pc;
        capture_pc = notified;
      };
    };
    moves_on = rw p refl;
    uses = rw s refl;
    faults_then = rw (p, s) refl;
  }
  unqueued-CanFault notified shot d s p n =
      by_step (thread capture_count) d
        (with_threads d (record d.live.threads {
          frame_count = increment d.live.threads.frame_count;
          capture_pc = ready;
        }))
        (rw (p, s) refl) (next_frame-CanFault shot _ s refl)
  unqueued-CanFault joined shot d s p n = absurd (n refl)

  -- The encode thread is in the way only until it has ended.
  record WaitsAt (s : Stage) (requested : Bool) (pc : CapturePc) : Type 0 where
    at_join : s ≡ joining
    is_requested : requested ≡ true
    alive : pc ≡ joined → ⊥

  abbrev Waits : Dying f → Type 0
  Waits d = WaitsAt d.stage d.live.threads.stop_requested d.live.threads.capture_pc

  exited-CanFault :
      (shot : Shot f) (d : Dying f) → Waits d → d.live.threads.encode_pc ≡ exited → CanFault d
  unfolding fire
  exited-CanFault shot d w p =
      by_step destroys d (record d { stage = unthreaded }) (rw (w.at_join, p) refl)
        (by_step destroys (record d { stage = unthreaded })
          (record (with_threads d (record d.live.threads { frame_queue = [] })) {
            stage = unqueued;
          })
          refl (unqueued-CanFault d.live.threads.capture_pc shot _ refl refl w.alive))

  loop_head-CanFault :
      (shot : Shot f) (d : Dying f) → Waits d → d.live.threads.encode_pc ≡ loop_head → CanFault d
  unfolding fire Live.fire Threads.fire
  loop_head-CanFault shot d w p =
      by_step (thread encode_step) d (with_threads d (record d.live.threads { encode_pc = exited }))
        (rw (p, w.is_requested) refl) (exited-CanFault shot _ w refl)

  encoding-CanFault :
      (shot next : Shot f) (d : Dying f)
      → Waits d
      → CanEncode f d.live.session.pipeline
      → d.live.threads.encode_pc ≡ encoding shot
      → CanFault d
  unfolding encoded
  encoding-CanFault shot next d w able p =
      let (q, ps, k) = able shot in
      let (s, bs, h) = encode_frame_moves f d.live.session shot q ps k in
      let u : Live f = record d.live {
        threads = record d.live.threads { encode_pc = loop_head };
      } in
      let m : Live.fire f encode_step d.live
          ≡ moves (record u { session = s; sent = u.sent ++ bs; done = u.done ++ shot ∷ [] }) =
        encode_fires f shot d.live p ∙ ap (λ o. encoded f shot u o) h in
      elim (Bool-cases (uses_gone f encode_step d.live.threads.encode_pc d)) [
        | inl v ↦ now d record {
          label = encode_step;
          result = _;
          moves_on = m;
          uses = v;
          faults_then = encode_step_lem f d _ m true v;
        }
        | inr v ↦
            by_step (thread encode_step) d _ (encode_step_lem f d _ m false v)
              (loop_head-CanFault next _ w refl)
      ]

  at_lock-CanFault :
      (q : List (Shot f)) (next : Shot f) (d : Dying f)
      → Waits d
      → CanEncode f d.live.session.pipeline
      → d.live.threads.frame_queue ≡ q
      → d.live.threads.encode_pc ≡ at_lock
      → CanFault d
  unfolding fire Live.fire Threads.fire
  at_lock-CanFault [] next d w able h p =
      by_step (thread encode_step) d (with_threads d (record d.live.threads { encode_pc = exited }))
        (rw (p, h, w.is_requested) refl) (exited-CanFault next _ w refl)
  at_lock-CanFault (shot ∷ rest) next d w able h p =
      by_step (thread encode_step) d
        (with_threads d (record d.live.threads {
          frame_queue = rest;
          encode_pc = encoding shot;
          taken = d.live.threads.taken ++ shot ∷ [];
        }))
        (rw (p, h) refl) (encoding-CanFault shot next _ w able refl)

  Waits-CanFault :
      (pc : EncodePc (Shot f)) (next : Shot f) (d : Dying f)
      → Waits d
      → CanEncode f d.live.session.pipeline
      → d.live.threads.encode_pc ≡ pc
      → CanFault d
  unfolding fire Live.fire Threads.fire
  Waits-CanFault loop_head next d w able p = loop_head-CanFault next d w p
  Waits-CanFault at_lock next d w able p =
      at_lock-CanFault d.live.threads.frame_queue next d w able refl p
  Waits-CanFault waiting next d w able p =
      by_step (thread spurious_wakeup) d
        (with_threads d (record d.live.threads { encode_pc = at_lock })) (rw p refl)
        (at_lock-CanFault d.live.threads.frame_queue next _ w able refl refl)
  Waits-CanFault (encoding shot) next d w able p = encoding-CanFault shot next d w able p
  Waits-CanFault exited next d w able p = exited-CanFault next d w p

  abbrev pub dying : Live f → Dying f
  dying t = record { live = t; stage = whole }

  -- Wherever the threads of a session stand, as long as its capture thread is not joined and its
  -- encoder owns its context, and whatever frame the camera delivers next: when the session is
  -- destroyed, its members go and its threads move on, in some order, to a state in which a thread
  -- can make a step that uses a member which is destroyed.
  pub destroyed_unstopped :
      (t : Live f) (e : Encoder f) (next : Shot f)
      → (t.threads.capture_pc ≡ joined → ⊥)
      → t.session.pipeline.encoder ≡ some e
      → Owns f (state f e)
      → CanFault (dying t)
  unfolding fire
  destroyed_unstopped t e next n h w = by_step destroys (dying t) _ refl (
      by_step destroys _ _ refl (
        Waits-CanFault t.threads.encode_pc next _
          record { at_join = refl; is_requested = refl; alive = n }
          (Owns-CanEncode f t.session.pipeline e h w) refl))
