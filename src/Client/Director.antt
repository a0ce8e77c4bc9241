-- ===== src/Client/Director.antt =====
-- A director's client put together: the connection to the room (client/src/directortransport.cpp), the
-- session's tracks (client/src/directorsession.cpp) and the video tracks with their readers
-- (client/src/videotrack.cpp, client/src/framereader.cpp).
use mathlib.Core.Path.{subst}
use direct_link.Base.{ℕ, ◌≡◌, refl, sym, ap, ◌∙◌, true, false, Option, none, some, List, [], ◌∷◌}
use direct_link.Client.Task.{Outcome, moves, Ensures, bind-Ensures, map-Ensures, ◌>>=◌}
use direct_link.Client.FrameReader.{Mapped, Shown}
use direct_link.Client.VideoTrack.{Track, Event, Signal, set_track, set_video_sink, read_all}
use direct_link.Client.VideoTrack.Reading.{Reads, read_all-Reads, set_track-set_video_sink}
use direct_link.Client.DirectorSession.{Sid, Tracks, attach_track}
use direct_link.Client.DirectorSession.TrackMap.{IsSorted, attaches, perform}
use direct_link.Client.DirectorSession.Lookup.{lookup, lookup-perform, eq_sid_refl}
use direct_link.Client.DirectorTransport.{Transport, track_subscribed, posts, run_one, on_session}
use direct_link.Client.DirectorTransport.Steps.{
  room_calls, runs_posted, run, fire, run_posted, room_call,
}
mod Tests

keep_track :
    (P : Track → Type 0) (o : Outcome (Track × Shown × List Signal))
    → Ensures P (o >>= λ q. moves q.0)
    → Ensures (λ q. P q.0) o
keep_track P (moves q) h = h
keep_track P Outcome.disabled h = h
keep_track P Outcome.blocks h = h
keep_track P Outcome.faults h = h

-- A new video track, with a stream that the SDK has made of the room's, and then with a sink of the view.
sink-Reads :
    (v : Track) (s : ℕ) (mapped : Mapped) (es : List Event)
    → v.reader.sink ≡ none
    → v.stream ≡ none
    → v.loop ≡ none
    → Ensures
        (λ q.
          (q.0.reader.sink ≡ some s) × Ensures (λ r. Reads es q.0 r.0 r.1 r.2) (read_all es q.0))
        (set_video_sink (set_track true v).0 (some s) mapped)
sink-Reads v s mapped es n m l =
    let (e, h) = set_track-set_video_sink v s true mapped n m l in
    map-Ensures (λ q. (q.0.loop ≡ some false) × (q.0.reader.sink ≡ some s))
      (λ q. (q.0.reader.sink ≡ some s) × Ensures (λ r. Reads es q.0 r.0 r.1 r.2) (read_all es q.0))
      (set_video_sink (set_track true v).0 (some s) mapped)
      (keep_track (λ u. (u.loop ≡ some false) × (u.reader.sink ≡ some s))
        (set_video_sink (set_track true v).0 (some s) mapped)
        (subst (λ o. Ensures (λ u. (u.loop ≡ some false) × (u.reader.sink ≡ some s)) o) e h))
      (λ q k. (k.1, read_all-Reads es q.0 k.0))

lookup-attach :
    (m : Tracks Track) (u : Track) (sid : Sid)
    → IsSorted m
    → lookup sid m ≡ none
    → lookup sid (attach_track m (some u) sid).0 ≡ some u
lookup-attach m u sid v e =
    unfold perform in lookup-perform (attaches (some u) sid) m sid v ∙ rw (e, eq_sid_refl sid) refl

-- The room announces a video under an identifier that the session has not, the main thread takes what that
-- posts, the view gives the new track its sink, and its stream gives these frames: the session then has under the
-- identifier the track of this video; nothing blocks or faults; every picture goes to the view's sink, one
-- for each frame at most, and the ratio of the first frame with a height is announced, once.
pub run-Reads :
    (t : Transport Track) (r : ℕ) (m : Tracks Track) (sid : Sid) (v : Track) (s : ℕ)
    (mapped : Mapped) (es : List Event)
    → t.room ≡ some r
    → t.posted ≡ []
    → t.session ≡ some m
    → IsSorted m
    → lookup sid m ≡ none
    → v.reader.sink ≡ none
    → v.stream ≡ none
    → v.loop ≡ none
    → Ensures
        (λ q.
          (n : Tracks Track) × (u : Track) × (q.0.session ≡ some n)
          × (lookup sid n ≡ some u)
          × Ensures
              (λ p.
                (p.0.reader.sink ≡ some s)
                × Ensures (λ w. Reads es p.0 w.0 w.1 w.2) (read_all es p.0))
              (set_video_sink u (some s) mapped))
        (run
          (room_calls (track_subscribed (some (true, some (set_track true v).0)) (some sid))
            ∷ runs_posted
            ∷ [])
          t)
unfolding run fire run_posted room_call posts run_one on_session
run-Reads t r m sid v s mapped es a p e i n x y z =
    let u = (set_track true v).0 in
    rw (a, p, e)
      (
        (attach_track m (some u) sid).0,
        u,
        refl,
        lookup-attach m u sid i n,
        sink-Reads v s mapped es x y z,
      )
