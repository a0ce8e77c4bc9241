-- ===== src/Client/VideoTrack/Tests.antt =====
-- A track whose frames go to the sink of number 5.
use direct_link.Base.{false, ◌≡◌, refl, true, none, some, [], ◌∷◌}
use direct_link.Client.Task.{moves, Ensures, ◌>>=◌}
use direct_link.Client.VideoTrack.{Track, set_track, set_video_sink, read_all}
use direct_link.Client.VideoTrack.Sample.{mapped, fresh, tall}
use direct_link.Client.VideoTrack.Reading.{Reads, read_all-Reads, set_track-set_video_sink}

abbrev reading : Track
reading = record fresh {
  reader = record { sink = some 5; placeholder = none };
  stream = some 0;
  loop = some false;
}

set_track-set_video_sink_example :
    let after_sink = set_video_sink fresh (some 5) mapped >>= λ q. moves (set_track true q.0).0 in
    (after_sink ≡ (set_video_sink (set_track true fresh).0 (some 5) mapped >>= λ q. moves q.0))
    × Ensures (λ u. (u.loop ≡ some false) × (u.reader.sink ≡ some 5)) after_sink
set_track-set_video_sink_example = set_track-set_video_sink fresh 5 true mapped refl refl refl

read_all-Reads_example :
    Ensures
      (λ q. Reads (tall ∷ tall ∷ []) reading q.0 q.1 q.2)
      (read_all (tall ∷ tall ∷ []) reading)
read_all-Reads_example = read_all-Reads (tall ∷ tall ∷ []) reading refl
