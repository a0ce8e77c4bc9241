-- ===== src/Client/Director/Tests.antt =====
-- A director in room 0, whose view has the sink of number 5.
use direct_link.Base.{◌≡◌, refl, true, some, none, [], ◌∷◌}
use direct_link.Client.Task.{Ensures}
use direct_link.Client.VideoTrack.{Track, set_track, set_video_sink, read_all}
use direct_link.Client.VideoTrack.Reading.{Reads}
use direct_link.Client.VideoTrack.Sample.{fresh, mapped, tall}
use direct_link.Client.DirectorSession.{Sid, Tracks}
use direct_link.Client.DirectorSession.TrackMap.{IsSorted}
use direct_link.Client.DirectorSession.Lookup.{lookup}
use direct_link.Client.DirectorTransport.{Transport, Status, new, track_subscribed}
use direct_link.Client.DirectorTransport.Steps.{room_calls, runs_posted, run}
use direct_link.Client.Director.{run-Reads}

abbrev sid_a : Sid
sid_a = 84 ∷ 82 ∷ 95 ∷ 97 ∷ []

abbrev watching : Transport Track
watching = record new {
  room = some 0;
  rooms_made = 1;
  status = Status.connected;
  session = some [];
}

nothing-IsSorted : IsSorted {T = Track} []
unfolding IsSorted
nothing-IsSorted = tt

nothing_there : lookup {T = Track} sid_a [] ≡ none
unfolding lookup
nothing_there = refl

run-Reads_example :
    Ensures
      (λ q.
        (n : Tracks Track) × (u : Track) × (q.0.session ≡ some n)
        × (lookup sid_a n ≡ some u)
        × Ensures
            (λ p.
              (p.0.reader.sink ≡ some 5)
              × Ensures (λ w. Reads (tall ∷ []) p.0 w.0 w.1 w.2) (read_all (tall ∷ []) p.0))
            (set_video_sink u (some 5) mapped))
      (run
        (room_calls (track_subscribed (some (true, some (set_track true fresh).0)) (some sid_a))
          ∷ runs_posted
          ∷ [])
        watching)
run-Reads_example =
    run-Reads watching 0 [] sid_a fresh 5 mapped (tall ∷ []) refl refl refl nothing-IsSorted
      nothing_there refl refl refl
