-- ===== src/Client/DirectorSession/Tests.antt =====
-- The director session on tracks that are numbers.
use direct_link.Base.{◌≡◌, refl, ℕ, false, some, [], ◌∷◌}
use direct_link.Client.DirectorSession.{
  Sid, less, Tracks, track_added, track_removed, tracks_changed, found, index_of, tracks,
  attach_track, detach_track,
}
use direct_link.Client.DirectorSession.TrackMap.{attaches, perform, detach-attach}
use direct_link.Client.DirectorSession.Signals.{follow, follow-perform}

-- TR_a, TR_b and TR_c
abbrev sid_a : Sid
sid_a = 84 ∷ 82 ∷ 95 ∷ 97 ∷ []

abbrev sid_b : Sid
sid_b = 84 ∷ 82 ∷ 95 ∷ 98 ∷ []

abbrev sid_c : Sid
sid_c = 84 ∷ 82 ∷ 95 ∷ 99 ∷ []

abbrev two_tracks : Tracks ℕ
two_tracks = (sid_a, 1) ∷ (sid_c, 3) ∷ []

absent : found sid_b two_tracks ≡ false
unfolding found less
absent = refl

detach-attach_example :
    let q = attach_track two_tracks (some 2) sid_b in
    (q.1 ≡ track_added (index_of sid_b two_tracks) ∷ tracks_changed ∷ [])
    × (attach_track q.0 (some 5) sid_b ≡ (q.0, []))
    × (detach_track q.0 sid_b
        ≡ (two_tracks, track_removed (index_of sid_b two_tracks) ∷ tracks_changed ∷ []))
detach-attach_example = detach-attach two_tracks 2 sid_b (some 5) absent

follow-perform_example :
    follow
      (perform (attaches (some 2) sid_b) two_tracks).1
      (tracks (perform (attaches (some 2) sid_b) two_tracks).0)
      (tracks two_tracks)
    ≡ tracks (perform (attaches (some 2) sid_b) two_tracks).0
follow-perform_example = follow-perform (attaches (some 2) sid_b) two_tracks tt
