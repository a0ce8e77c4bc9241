-- ===== src/Client/DirectorSession/TrackMap.antt =====
-- The track map of client/src/directorsession.cpp: its order, and what comes back after a detach.
use direct_link.Base.{
  ◌≡◌, refl, inl, inr, true, false, Option, none, some, List, [], ◌∷◌, Bool-cases, arith,
}
use direct_link.Client.DirectorSession.{
  Sid, less, Tracks, Signal, track_added, track_removed, tracks_changed, found, index_of, insert,
  erase, attach_track, detach_track, detach_all_tracks,
}

pub less_irrefl : (a : Sid) → less a a ≡ false
unfolding less
less_irrefl [] = refl
less_irrefl (a ∷ rest) = ground (arith, less_irrefl rest)

pub less_trans : (a b c : Sid) → less a b ≡ true → less b c ≡ true → less a c ≡ true
unfolding less
less_trans [] [] c h k = ground arith
less_trans [] (b ∷ bs) [] h k = ground arith
less_trans [] (b ∷ bs) (c ∷ cs) h k = refl
less_trans (a ∷ as') [] c h k = ground arith
less_trans (a ∷ as') (b ∷ bs) [] h k = ground arith
less_trans (a ∷ as') (b ∷ bs) (c ∷ cs) h k = ground (arith, less_trans as' bs cs)

pub data Call (T : Type 0) : Type 0 where
  attaches : Option T → Sid → Call T
  detaches : Sid → Call T
  detaches_all : Call T

module _ {T : Type 0} where
  -- The key is less than the first key of the map, if there is one.
  abbrev pub IsBelow : Sid → Tracks T → Type 0
  IsBelow k [] = Unit
  IsBelow k ((l, t) ∷ m) = less k l ≡ true

  -- The keys ascend, so that each is there once.
  unfoldable pub IsSorted : Tracks T → Type 0
  IsSorted [] = Unit
  IsSorted ((k, t) ∷ m) = IsBelow k m × IsSorted m

  insert-IsBelow :
      (k sid : Sid) (t : T) (m : Tracks T)
      → less k sid ≡ true
      → IsBelow k m
      → IsBelow k (insert sid t m)
  unfolding insert
  insert-IsBelow k sid t [] h b = h
  insert-IsBelow k sid t ((l, u) ∷ m) h b = elim (Bool-cases (less l sid)) [
    | inl e ↦ rw e b
    | inr e ↦ rw e h
  ]

  insert-IsSorted :
      (sid : Sid) (t : T) (m : Tracks T)
      → found sid m ≡ false
      → IsSorted m
      → IsSorted (insert sid t m)
  unfolding insert found IsSorted
  insert-IsSorted sid t [] n s = (tt, tt)
  insert-IsSorted sid t ((k, u) ∷ m) n (b, s) = elim (Bool-cases (less k sid)) [
    | inl e ↦ rw e (insert-IsBelow k sid t m e b, insert-IsSorted sid t m (ground arith) s)
    | inr e ↦ rw e (ground arith, (b, s))
  ]

  erase-IsBelow : (k sid : Sid) (m : Tracks T) → IsBelow k m → IsSorted m → IsBelow k (erase sid m)
  unfolding erase IsSorted
  erase-IsBelow k sid [] b s = tt
  erase-IsBelow k sid ((l, u) ∷ []) b s = elim (Bool-cases (less l sid)) [
    | inl e ↦ rw e b
    | inr e ↦ rw e tt
  ]
  erase-IsBelow k sid ((l, u) ∷ (l', u') ∷ m) b (c, s) = elim (Bool-cases (less l sid)) [
    | inl e ↦ rw e b
    | inr e ↦ rw e (less_trans k l l' b c)
  ]

  erase-IsSorted : (sid : Sid) (m : Tracks T) → IsSorted m → IsSorted (erase sid m)
  unfolding erase IsSorted
  erase-IsSorted sid [] s = tt
  erase-IsSorted sid ((k, u) ∷ m) (b, s) = elim (Bool-cases (less k sid)) [
    | inl e ↦ rw e (erase-IsBelow k sid m b s, erase-IsSorted sid m s)
    | inr e ↦ rw e s
  ]

  unfoldable pub perform : Call T → Tracks T → Tracks T × List Signal
  perform (attaches made sid) m = attach_track m made sid
  perform (detaches sid) m = detach_track m sid
  perform detaches_all m = detach_all_tracks m

  -- Every call of `attachTrack`, `detachTrack` and `detachAllTracks` keeps the keys of the map in
  -- ascending order, each there once.
  pub perform-IsSorted : (call : Call T) (m : Tracks T) → IsSorted m → IsSorted (perform call m).0
  unfolding perform attach_track detach_track detach_all_tracks
  perform-IsSorted (attaches none sid) m s = ground arith
  perform-IsSorted (attaches (some t) sid) m s = elim (Bool-cases (found sid m)) [
    | inl e ↦ rw e s
    | inr e ↦ rw e (insert-IsSorted sid t m e s)
  ]
  perform-IsSorted (detaches sid) m s = elim (Bool-cases (found sid m)) [
    | inl e ↦ rw e (erase-IsSorted sid m s)
    | inr e ↦ rw e s
  ]
  perform-IsSorted detaches_all m s = unfold IsSorted in tt

  pub inserted_lem :
      (sid : Sid) (t : T) (m : Tracks T)
      → (found sid (insert sid t m) ≡ true)
        × (erase sid (insert sid t m) ≡ m)
        × (index_of sid (insert sid t m) ≡ index_of sid m)
  unfolding found insert erase index_of
  inserted_lem sid t [] = rw (less_irrefl sid) (refl, refl, refl)
  inserted_lem sid t ((k, u) ∷ m) = elim (Bool-cases (less k sid)) [
    | inl e ↦
        let (a, b, c) = inserted_lem sid t m in
        (ground (arith, a), ground (arith, b), ground (arith, c))
    | inr e ↦ rw (e, less_irrefl sid) (refl, refl, refl)
  ]

  -- A track that is attached under a new identifier and then detached leaves the map as it was,
  -- and the row that the removal announces is the row that the addition announced; another attach
  -- under the same identifier in between changes nothing and announces nothing.
  pub detach-attach :
      (m : Tracks T) (t : T) (sid : Sid) (made : Option T)
      → found sid m ≡ false
      → let q = attach_track m (some t) sid in
        (q.1 ≡ track_added (index_of sid m) ∷ tracks_changed ∷ [])
        × (attach_track q.0 made sid ≡ (q.0, []))
        × (detach_track q.0 sid ≡ (m, track_removed (index_of sid m) ∷ tracks_changed ∷ []))
  unfolding attach_track detach_track
  detach-attach m t sid made n =
      let (a, b, c) = inserted_lem sid t m in rw (n, a, b, c) (refl, refl, refl)
