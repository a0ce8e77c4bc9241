-- ===== src/Client/DirectorSession/Signals.antt =====
-- The rows that the signals of client/src/directorsession.cpp announce.
use direct_link.Base.{
  get_elem?, sym, Bool-cases, inl, inr, none, Option, ℕ, zero, suc, ◌≡◌, refl, some, List, [], ◌∷◌,
  arith,
}
use direct_link.Client.DirectorSession.TrackMap.{
  inserted_lem, Call, attaches, detaches, detaches_all, perform,
}
use direct_link.Client.DirectorSession.{
  Signal, less, track_added, track_removed, tracks_changed, Sid, Tracks, found, index_of, insert,
  erase, tracks, attach_track, detach_track,
}

module _ {T : Type 0} where
  -- The list with a row more, before the row of this number.
  pub insert_row : ℕ → T → List T → List T
  insert_row zero t ts = t ∷ ts
  insert_row (suc n) t [] = t ∷ []
  insert_row (suc n) t (u ∷ ts) = u ∷ insert_row n t ts

  pub remove_row : ℕ → List T → List T
  remove_row n [] = []
  remove_row zero (t ∷ ts) = ts
  remove_row (suc n) (t ∷ ts) = t ∷ remove_row n ts

  tracks-insert :
      (sid : Sid) (t : T) (m : Tracks T)
      → tracks (insert sid t m) ≡ insert_row (index_of sid m) t (tracks m)
  unfolding tracks insert index_of insert_row
  tracks-insert sid t [] = refl
  tracks-insert sid t ((k, u) ∷ m) = ground (arith, tracks-insert sid t m)

  tracks-erase :
      (sid : Sid) (m : Tracks T) → tracks (erase sid m) ≡ remove_row (index_of sid m) (tracks m)
  unfolding tracks erase index_of remove_row
  tracks-erase sid [] = refl
  tracks-erase sid ((k, u) ∷ m) = ground (arith, tracks-erase sid m)

  get_elem?-insert :
      (sid : Sid) (t : T) (m : Tracks T)
      → get_elem? (tracks (insert sid t m)) (index_of sid m) ≡ some t
  unfolding tracks insert index_of
  get_elem?-insert sid t [] = refl
  get_elem?-insert sid t ((k, u) ∷ m) = elim (Bool-cases (less k sid)) [
    | inl e ↦ rw e (get_elem?-insert sid t m)
    | inr e ↦ rw e refl
  ]

  insert_found : ℕ → Option T → List T → List T
  insert_found n none ts = ts
  insert_found n (some t) ts = insert_row n t ts

  -- A list that shows the tracks and follows the signals: it puts in the row that is announced,
  -- with the track that `tracks` has there now, and takes out the row whose removal is
  -- announced. At `tracksChanged` it does nothing.
  unfoldable pub follow : List Signal → List T → List T → List T
  unfolding insert_found
  follow [] now shown = shown
  follow (track_added n ∷ ss) now shown = follow ss now (insert_found n (get_elem? now n) shown)
  follow (track_removed n ∷ ss) now shown = follow ss now (remove_row n shown)
  follow (tracks_changed ∷ ss) now shown = follow ss now shown

  follow-attach_track :
      (m : Tracks T) (made : Option T) (sid : Sid)
      → let q = attach_track m made sid in follow q.1 (tracks q.0) (tracks m) ≡ tracks q.0
  unfolding attach_track follow
  follow-attach_track m none sid = elim (Bool-cases (found sid m)) [
    | inl e ↦ rw e refl
    | inr e ↦ rw e refl
  ]
  follow-attach_track m (some t) sid = elim (Bool-cases (found sid m)) [
    | inl e ↦ rw e refl
    | inr e ↦
        let (a, b, c) = inserted_lem sid t m in
        rw (e, c, get_elem?-insert sid t m) (sym (tracks-insert sid t m))
  ]

  follow-detach_track :
      (m : Tracks T) (sid : Sid)
      → let q = detach_track m sid in follow q.1 (tracks q.0) (tracks m) ≡ tracks q.0
  unfolding detach_track follow
  follow-detach_track m sid = elim (Bool-cases (found sid m)) [
    | inl e ↦ rw e (sym (tracks-erase sid m))
    | inr e ↦ rw e refl
  ]

  abbrev pub ChangesOne : Call T → Type 0
  ChangesOne (attaches made sid) = Unit
  ChangesOne (detaches sid) = Unit
  ChangesOne detaches_all = ⊥

  -- After every call of `attachTrack` and `detachTrack`, whether it changes the tracks or not, a list
  -- that showed the tracks and follows the signals of the call, taking each new row from `tracks`,
  -- shows the tracks again.
  pub follow-perform :
      (call : Call T) (m : Tracks T)
      → ChangesOne call
      → follow (perform call m).1 (tracks (perform call m).0) (tracks m) ≡ tracks (perform call m).0
  unfolding perform
  follow-perform (attaches made sid) m c = follow-attach_track m made sid
  follow-perform (detaches sid) m c = follow-detach_track m sid
  follow-perform detaches_all m c = absurd c
