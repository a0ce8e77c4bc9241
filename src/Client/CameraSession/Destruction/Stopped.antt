-- ===== src/Client/CameraSession/Destruction/Stopped.antt =====
-- A camera session (client/src/session/camera_session.hpp) that is stopped and then destroyed.
use mathlib.Core.Path.{subst}
use direct_link.Base.{◌≡◌, refl, sym, Bool, true, false, Option, none, some, List, [], ◌∷◌, arith}
use direct_link.VideoCore.Ffmpeg.{Ffmpeg}
use direct_link.VideoCore.Encode.Owned.{Owns}
use direct_link.VideoCore.Encode.Contract.{stop_releases}
use direct_link.VideoCore.Encode.Create.{Encoder, x264, nvenc, state}
use direct_link.VideoCore.Encode.Create
use direct_link.VideoCore.Pipeline.{VideoPipeline, stop_capture}
use direct_link.VideoCore.Pipeline
use direct_link.VideoCore.Pipeline.Calls.{on_packets-rest}
use direct_link.VideoCore.Pipeline.Threads.{
  Threads, capture_push, capture_notify, capture_count, encode_step, owner_step, spurious_wakeup,
  exited, joined, stopped, started, Steps,
}
use direct_link.VideoCore.Pipeline.Threads
use direct_link.VideoCore.Pipeline.Threads.Invariant.{Steps-Inv}
use direct_link.Networking.Publisher
use direct_link.Client.Task.{moves, Ensures, bind-Ensures, map-Ensures}
use direct_link.Client.CameraSession.{Session, stop}
use direct_link.Client.CameraSession.Live.{Shot, Live}
use direct_link.Client.CameraSession.Live
use direct_link.Client.CameraSession.Destruction.{
  Dying, Label, destroys, thread, whole, unpublished, joining, unthreaded, unqueued, unencoded,
  gone, Stage, destroy_encoder, destroy_next, fire, run,
}
use direct_link.Client.CameraSession.Destruction.Unstopped.{dying}

module _ (f : Ffmpeg) where
  -- The destructor of the encoder has nothing to flush.
  abbrev IsUnused : Option (Encoder f) → Type 0
  IsUnused none = Unit
  IsUnused (some e) = (state f e).running ≡ false

  destroy_unused : (e : Encoder f) → (state f e).running ≡ false → (Create.destroy f e).1 ≡ []
  unfolding Create.destroy
  destroy_unused (x264 e) h = ground arith
  destroy_unused (nvenc e) h = ground arith

  stop-encoder :
      (p : VideoPipeline f) (e : Encoder f)
      → p.encoder ≡ some e
      → (Pipeline.stop f p).0.encoder ≡ some (Create.stop f e).0
  unfolding Pipeline.stop
  stop-encoder p e h =
      rw h
        (on_packets-rest f
          (record p {
            capture_device = stop_capture f p.capture_device;
            encode_thread = false;
            encoder = some (Create.stop f e).0;
          })
          (Create.stop f e).1).1

  session_stop-encoder :
      (s : Session f) (e : Encoder f) (ok : Bool)
      → s.is_running ≡ true
      → s.pipeline.encoder ≡ some e
      → (stop f s ok).0.pipeline.encoder ≡ some (Create.stop f e).0
  unfolding stop
  session_stop-encoder s e ok b h = rw b (stop-encoder s.pipeline e h)

  record IsQuiet (d : Dying f) : Type 0 where
    encoder : IsUnused d.live.session.pipeline.encoder
    ended : d.live.threads.encode_pc ≡ exited
    silent : d.live.threads.capture_pc ≡ joined

  thread-IsQuiet :
      (l : Threads.Label (Shot f)) (d : Dying f)
      → IsQuiet d
      → Ensures (λ u. IsQuiet u) (fire f (thread l) d)
  unfolding fire Live.fire Threads.fire
  thread-IsQuiet (capture_push shot) d v = rw v.silent tt
  thread-IsQuiet capture_notify d v = rw v.silent tt
  thread-IsQuiet capture_count d v = rw v.silent tt
  thread-IsQuiet encode_step d v = rw v.ended tt
  thread-IsQuiet spurious_wakeup d v = rw v.ended tt
  thread-IsQuiet owner_step d v = tt

  destroy_encoder-IsQuiet :
      (o : Option (Encoder f)) (d : Dying f)
      → IsUnused o
      → IsQuiet d
      → Ensures (λ u. IsQuiet u) (destroy_encoder f o d)
  unfolding destroy_encoder
  destroy_encoder-IsQuiet none d h v = record {
    encoder = v.encoder;
    ended = v.ended;
    silent = v.silent;
  }
  destroy_encoder-IsQuiet (some e) d h v =
      rw (destroy_unused e h) record { encoder = tt; ended = v.ended; silent = v.silent }

  destroys-IsQuiet :
      (s : Stage) (d : Dying f) → IsQuiet d → Ensures (λ u. IsQuiet u) (destroy_next f s d)
  unfolding destroy_next
  destroys-IsQuiet whole d v = record { encoder = v.encoder; ended = v.ended; silent = v.silent }
  destroys-IsQuiet unpublished d v = record {
    encoder = v.encoder;
    ended = v.ended;
    silent = v.silent;
  }
  destroys-IsQuiet joining d v =
      rw v.ended record { encoder = v.encoder; ended = refl; silent = v.silent }
  destroys-IsQuiet unthreaded d v = record {
    encoder = v.encoder;
    ended = v.ended;
    silent = v.silent;
  }
  destroys-IsQuiet unqueued d v =
      destroy_encoder-IsQuiet d.live.session.pipeline.encoder d v.encoder v
  destroys-IsQuiet unencoded d v =
      rw v.silent record { encoder = v.encoder; ended = v.ended; silent = refl }
  destroys-IsQuiet gone d v = tt

  fire-IsQuiet : (l : Label f) (d : Dying f) → IsQuiet d → Ensures (λ u. IsQuiet u) (fire f l d)
  unfolding fire
  fire-IsQuiet destroys d v = destroys-IsQuiet d.stage d v
  fire-IsQuiet (thread l) d v = thread-IsQuiet l d v

  run-IsQuiet :
      (ls : List (Label f)) (d : Dying f) → IsQuiet d → Ensures (λ u. IsQuiet u) (run f ls d)
  unfolding run
  run-IsQuiet [] d v = v
  run-IsQuiet (l ∷ ls) d v =
      bind-Ensures (λ u. IsQuiet u) (λ u. IsQuiet u) (fire f l d) (λ u. run f ls u)
        (fire-IsQuiet l d v) (λ u w. run-IsQuiet ls u w)

  -- The session without its members.
  abbrev pub emptied : Live f → Live f
  emptied t = record t {
    threads = record t.threads { stop_requested = true; frame_queue = [] };
    session = record t.session {
      publisher = Publisher.destroy t.session.publisher;
      pipeline = record t.session.pipeline { encoder = none; capture_device = none };
    };
  }

  abbrev pub all_members : List (Label f)
  all_members = destroys ∷ destroys ∷ destroys ∷ destroys ∷ destroys ∷ destroys ∷ []

  run-all_members :
      (t : Live f) (e : Encoder f)
      → t.session.pipeline.encoder ≡ some e
      → (state f e).running ≡ false
      → t.threads.encode_pc ≡ exited
      → t.threads.capture_pc ≡ joined
      → run f all_members (dying f t) ≡ moves (record { live = emptied t; stage = gone })
  unfolding run fire destroy_next destroy_encoder
  run-all_members t e h u p c = rw (p, h, destroy_unused e u, c) refl

  -- A session whose encoder owns its context runs, and is stopped: its threads have been joined, in a
  -- state that they reach from the first `start`, and the rest of `stop` is done. Then it can be
  -- destroyed: no step, in whatever order, uses a member that is destroyed or reads a null pointer,
  -- and nothing blocks: the members are destroyed one after the other.
  pub destroyed_stopped :
      (t : Live f) (e : Encoder f) (ok : Bool)
      → Steps started t.threads
      → t.threads.owner_pc ≡ stopped
      → t.session.is_running ≡ true
      → t.session.pipeline.encoder ≡ some e
      → Owns f (state f e)
      → let u : Live f = record t { session = (stop f t.session ok).0 } in
        ((ls : List (Label f)) → Ensures (λ q. Unit {0}) (run f ls (dying f u)))
        × (run f all_members (dying f u) ≡ moves (record { live = emptied u; stage = gone }))
  destroyed_stopped t e ok r o b h w =
      let u : Live f = record t { session = (stop f t.session ok).0 } in
      let i = Steps-Inv t.threads r in
      let idle : (state f (Create.stop f e).0).running ≡ false = (stop_releases f e w).0 in
      let enc : u.session.pipeline.encoder ≡ some (Create.stop f e).0 =
        session_stop-encoder t.session e ok b h in
      let silent : t.threads.capture_pc ≡ joined = ground (arith, i.silent, o) in
      let q : IsQuiet (dying f u) = record {
        encoder = subst (λ x. IsUnused x) (sym enc) idle;
        ended = i.ended o;
        silent = silent;
      } in
      (
        λ ls.
            map-Ensures (λ d. IsQuiet d) (λ d. Unit {0}) (run f ls (dying f u))
              (run-IsQuiet ls (dying f u) q) (λ d k. tt),
        run-all_members u (Create.stop f e).0 enc idle (i.ended o) silent,
      )
