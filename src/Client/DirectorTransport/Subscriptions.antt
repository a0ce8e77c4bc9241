-- ===== src/Client/DirectorTransport/Subscriptions.antt =====
-- The tracks of a session (client/src/directorsession.cpp) as the events of the room
-- (client/src/directortransport.cpp) determine them.
use mathlib.Core.Path.{fun_ext}
use direct_link.Base.{◌≡◌, refl, sym, ap, ◌∙◌, some, List, [], ◌∷◌, ◌++◌, All}
use direct_link.Client.Task.{Ensures, map-Ensures}
use direct_link.Client.DirectorSession.{Sid, Tracks}
use direct_link.Client.DirectorSession.TrackMap.{IsSorted, Call, perform, perform-IsSorted}
use direct_link.Client.DirectorSession.Lookup.{lookup, lookup-perform, views_after}
use direct_link.Client.DirectorTransport.{Transport}
use direct_link.Client.DirectorTransport.Invariant.{finishes}
use direct_link.Client.DirectorTransport.Steps.{Label, run}
use direct_link.Client.DirectorTransport.Watching.{
  tracks_after, tracks_after-append, calls_in, calls_by_all, after_calls, eventual, Watches,
  run-eventual,
}

module _ {T : Type 0} where
  pub lookup-tracks_after :
      (cs : List (Call T)) (m : Tracks T) (k : Sid)
      → IsSorted m
      → lookup k (tracks_after cs m) ≡ views_after cs (λ l. lookup l m) k
  unfolding tracks_after views_after
  lookup-tracks_after [] m k v = refl
  lookup-tracks_after (c ∷ cs) m k v =
      lookup-tracks_after cs (perform c m).0 k (perform-IsSorted c m v)
      ∙ ap (λ g. views_after cs g k) (fun_ext (λ l. lookup-perform c m l v))

  -- A session with tracks in order, when no `finished` of Connect is posted, and then events of the room and
  -- turns of the main thread's queue, in any order: no step blocks or faults, and once the queue is
  -- empty the session has under every identifier the track that the calls still in the queue and then the
  -- events, one after the other, leave there: a subscribed video is put under a new identifier and
  -- leaves a known one alone, and the end or the failure of a subscription takes its identifier away.
  pub run-lookup :
      (ls : List (Label T)) (t : Transport T) (m : Tracks T)
      → All (λ l. Watches l) ls
      → finishes t.posted ≡ 0
      → t.session ≡ some m
      → IsSorted m
      → Ensures
          (λ q.
            (n : Tracks T) × (eventual q.0 ≡ some n)
            × ((k : Sid)
                → lookup k n
                  ≡ views_after (calls_in t.posted ++ calls_by_all ls) (λ l. lookup l m) k))
          (run ls t)
  run-lookup ls t m w n s v =
      map-Ensures (λ q. eventual q.0 ≡ after_calls (calls_by_all ls) (eventual t))
        (λ q.
          (n : Tracks T) × (eventual q.0 ≡ some n)
          × ((k : Sid)
              → lookup k n
                ≡ views_after (calls_in t.posted ++ calls_by_all ls) (λ l. lookup l m) k))
        (run ls t) (run-eventual ls t w n)
        (λ q e. (
          tracks_after (calls_in t.posted ++ calls_by_all ls) m,
          e
              ∙ ap (λ o. after_calls (calls_by_all ls) (after_calls (calls_in t.posted) o)) s
              ∙ ap (λ r. some r)
                  (sym (tracks_after-append (calls_in t.posted) (calls_by_all ls) m)),
          λ k. lookup-tracks_after (calls_in t.posted ++ calls_by_all ls) m k v,
        ))
