-- ===== src/Client/DirectorSession.antt =====
-- client/src/directorsession.cpp and include/directorsession.hpp: the tracks that a director watches,
-- in a `std::map` from track identifiers, and the signals that tell of them.
use direct_link.Base.{
  ℕ, zero, suc, Bool, true, false, not, if◌then◌else◌, Option, none, some, List, [], ◌∷◌, map, ltb,
  ◌==◌,
}
pub mod TrackMap
pub mod Signals
pub mod Lookup
pub mod Determined
mod Tests

-- `std::string`: its bytes.
abbrev pub Sid : Type 0
Sid = List ℕ

-- `operator<` on `std::string`, by which the map orders its keys.
unfoldable pub less : Sid → Sid → Bool
less [] [] = false
less [] (b ∷ bs) = true
less (a ∷ as') [] = false
less (a ∷ as') (b ∷ bs) =
    let rest = less as' bs in if ltb a b then true else if a == b then rest else false

pub data Signal : Type 0 where
  tracks_changed : Signal
  track_added track_removed : ℕ → Signal

-- `std::map`, in its order.
abbrev pub Tracks : Type 0 → Type 0
Tracks T = List (Sid × T)

module _ {T : Type 0} where
  -- `find(sid) != end()`: the first key that is not less is not greater either.
  unfoldable pub found : Sid → Tracks T → Bool
  found sid [] = false
  found sid ((k, t) ∷ m) = let rest = found sid m in if less k sid then rest else not (less sid k)

  -- `std::distance(begin(), …)` of the place of a key.
  unfoldable pub index_of : Sid → Tracks T → ℕ
  index_of sid [] = 0
  index_of sid ((k, t) ∷ m) = let rest = index_of sid m in if less k sid then suc rest else 0

  -- `m_trackMap[sid] = track` for a key that is not there.
  unfoldable pub insert : Sid → T → Tracks T → Tracks T
  insert sid t [] = (sid, t) ∷ []
  insert sid t ((k, u) ∷ m) =
      let rest = insert sid t m in if less k sid then (k, u) ∷ rest else (sid, t) ∷ (k, u) ∷ m

  -- `erase` at the place of a key that is there.
  unfoldable pub erase : Sid → Tracks T → Tracks T
  erase sid [] = []
  erase sid ((k, u) ∷ m) = let rest = erase sid m in if less k sid then (k, u) ∷ rest else m

  unfoldable pub tracks : Tracks T → List T
  tracks m = map (λ e. e.1) m

  attach_made : Tracks T → Option T → Sid → Tracks T × List Signal
  unfolding insert index_of
  attach_made m none sid = (m, [])
  attach_made m (some t) sid =
      (insert sid t m, track_added (index_of sid (insert sid t m)) ∷ tracks_changed ∷ [])

  -- `made` is the new VideoTrack, if its `setTrack` accepts the track.
  unfoldable pub attach_track : Tracks T → Option T → Sid → Tracks T × List Signal
  unfolding found attach_made
  attach_track m made sid = if found sid m then (m, []) else attach_made m made sid

  unfoldable pub detach_track : Tracks T → Sid → Tracks T × List Signal
  unfolding found erase index_of
  detach_track m sid =
      if not (found sid m)
      then (m, [])
      else (erase sid m, track_removed (index_of sid m) ∷ tracks_changed ∷ [])

  unfoldable pub detach_all_tracks : Tracks T → Tracks T × List Signal
  detach_all_tracks m = ([], tracks_changed ∷ [])
