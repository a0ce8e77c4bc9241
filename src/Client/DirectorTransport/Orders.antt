-- ===== src/Client/DirectorTransport/Orders.antt =====
-- The events of a room (client/src/directortransport.cpp) in two orders, which differ only between
-- identifiers, and the tracks of the session (client/src/directorsession.cpp) that come of each.
use direct_link.Base.{
  ◌≡◌, refl, sym, ap, ◌∙◌, Option, none, some, List, [], ◌∷◌, All, inl, inr, Bool-cases,
}
use direct_link.Client.Task.{Ensures, map-Ensures}
use direct_link.Client.DirectorSession.{Sid, Tracks}
use direct_link.Client.DirectorSession.TrackMap.{IsSorted, Call, perform, perform-IsSorted}
use direct_link.Client.DirectorSession.Lookup.{lookup, view_after, views_after}
use direct_link.Client.DirectorSession.Determined.{
  lookup_ext, is_about, calls_about, seen_after, view_after_lem,
}
use direct_link.Client.DirectorTransport.{Transport}
use direct_link.Client.DirectorTransport.Invariant.{finishes, SessionIsSorted}
use direct_link.Client.DirectorTransport.Steps.{Label, run}
use direct_link.Client.DirectorTransport.Watching.{
  tracks_after, calls_in, calls_by_all, after_calls, eventual, Watches, run-eventual,
}
use direct_link.Client.DirectorTransport.Subscriptions.{lookup-tracks_after}

module _ {T : Type 0} where
  unfoldable seen_after_all : List (Call T) → Option T → Option T
  seen_after_all [] o = o
  seen_after_all (c ∷ cs) o = seen_after_all cs (seen_after c o)

  -- What stands under an identifier depends on the calls about it only.
  views_after_lem :
      (k : Sid) (cs : List (Call T)) (g : Sid → Option T)
      → views_after cs g k ≡ seen_after_all (calls_about k cs) (g k)
  unfolding views_after seen_after_all calls_about
  views_after_lem k [] g = refl
  views_after_lem k (c ∷ cs) g = elim (Bool-cases (is_about k c)) [
    | inl e ↦ rw (e, views_after_lem k cs (view_after c g), view_after_lem k c g, e) refl
    | inr e ↦ rw (e, views_after_lem k cs (view_after c g), view_after_lem k c g, e) refl
  ]

  tracks_after-IsSorted :
      (cs : List (Call T)) (m : Tracks T) → IsSorted m → IsSorted (tracks_after cs m)
  unfolding tracks_after
  tracks_after-IsSorted [] m v = v
  tracks_after-IsSorted (c ∷ cs) m v =
      tracks_after-IsSorted cs (perform c m).0 (perform-IsSorted c m v)

  abbrev pub SameAbout : List (Call T) → List (Call T) → Type 0
  SameAbout cs ds = (k : Sid) → calls_about k cs ≡ calls_about k ds

  tracks_after-order :
      (cs ds : List (Call T)) (m : Tracks T)
      → SameAbout cs ds
      → IsSorted m
      → tracks_after cs m ≡ tracks_after ds m
  tracks_after-order cs ds m same v =
      lookup_ext (tracks_after cs m) (tracks_after ds m) (tracks_after-IsSorted cs m v)
        (tracks_after-IsSorted ds m v)
        (λ k.
          lookup-tracks_after cs m k v
          ∙ views_after_lem k cs (λ l. lookup l m)
          ∙ ap (λ xs. seen_after_all xs (lookup k m)) (same k)
          ∙ sym (views_after_lem k ds (λ l. lookup l m))
          ∙ sym (lookup-tracks_after ds m k v))

  after_calls-order :
      (cs ds ps : List (Call T)) (s : Option (Tracks T))
      → SameAbout cs ds
      → SessionIsSorted s
      → after_calls cs (after_calls ps s) ≡ after_calls ds (after_calls ps s)
  after_calls-order cs ds ps none same v = refl
  after_calls-order cs ds ps (some m) same v =
      ap (λ n. some n)
        (tracks_after-order cs ds (tracks_after ps m) same (tracks_after-IsSorted ps m v))

  -- From one state, in which the tracks of the session are in order and no `finished` of Connect is
  -- posted, the events of a room come in two orders, each with turns of the main thread's queue
  -- among them. If for every identifier the events that concern its track come in the same order in
  -- both, then no step blocks or faults in either, and where both can be made, the session has in
  -- both, once the queue is empty, the same tracks in the same rows, or there is none in both.
  pub run-order :
      (ls rs : List (Label T)) (t : Transport T)
      → All (λ l. Watches l) ls
      → All (λ l. Watches l) rs
      → finishes t.posted ≡ 0
      → SessionIsSorted t.session
      → SameAbout (calls_by_all ls) (calls_by_all rs)
      → Ensures (λ q. Ensures (λ r. eventual q.0 ≡ eventual r.0) (run rs t)) (run ls t)
  run-order ls rs t w x n v same =
      map-Ensures (λ q. eventual q.0 ≡ after_calls (calls_by_all ls) (eventual t))
        (λ q. Ensures (λ r. eventual q.0 ≡ eventual r.0) (run rs t)) (run ls t)
        (run-eventual ls t w n)
        (λ q e.
          map-Ensures (λ r. eventual r.0 ≡ after_calls (calls_by_all rs) (eventual t))
            (λ r. eventual q.0 ≡ eventual r.0) (run rs t) (run-eventual rs t x n)
            (λ r d.
              e
              ∙ after_calls-order (calls_by_all ls) (calls_by_all rs) (calls_in t.posted) t.session
                  same v
              ∙ sym d))
