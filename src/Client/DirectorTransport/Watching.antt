-- ===== src/Client/DirectorTransport/Watching.antt =====
-- The tracks that the events of a room bring into the session (client/src/directortransport.cpp),
-- whatever else the main thread takes in between.
use direct_link.Base.{
  ℕ, ◌≡◌, refl, sym, ap, ◌∙◌, true, false, Option, none, some, List, [], ◌∷◌, ◌++◌, arith, All, inl,
  inr, Bool-cases,
}
use direct_link.Client.Task.{Ensures, bind-Ensures, moves, ◌>>=◌}
use direct_link.Client.DirectorSession.{Sid, Tracks, attach_track, detach_track, detach_all_tracks}
use direct_link.Client.DirectorSession
use direct_link.Client.DirectorSession.TrackMap.{Call, attaches, detaches, perform}
use direct_link.Client.DirectorTransport.{
  Transport, Posted, RoomEvent, track_subscribed, track_subscription_failed, track_unsubscribed,
  posts, sid_of, run_one, on_session, set_state, status_of, same_status,
}
use direct_link.Client.DirectorTransport.Invariant.{finishes, finishes-append, finishes-posts}
use direct_link.Client.DirectorTransport.Steps.{
  Label, connects, disconnects, shuts_down, connect_returns, runs_posted, room_calls, fire, run,
  run_posted, room_call,
}

module _ {T : Type 0} where
  -- What is in the queue for the session.
  abbrev pub calls_in : List (Posted T) → List (Call T)
  calls_in [] = []
  calls_in (Posted.attaches made sid ∷ ps) = attaches made sid ∷ calls_in ps
  calls_in (Posted.detaches sid ∷ ps) = detaches sid ∷ calls_in ps
  calls_in (p ∷ ps) = calls_in ps

  -- A video that the room subscribes to is attached; a track whose subscription ends or
  -- fails is detached.
  abbrev pub calls_of : RoomEvent T → List (Call T)
  calls_of (track_subscribed (some (true, made)) sid) = attaches made (sid_of sid) ∷ []
  calls_of (track_subscription_failed sid) = detaches sid ∷ []
  calls_of (track_unsubscribed sid) = detaches (sid_of sid) ∷ []
  calls_of e = []

  calls_in-posts : (e : RoomEvent T) → calls_in (posts e) ≡ calls_of e
  unfolding posts
  calls_in-posts (track_subscribed none sid) = refl
  calls_in-posts (track_subscribed (some (true, made)) sid) = refl
  calls_in-posts (track_subscribed (some (false, made)) sid) = refl
  calls_in-posts (track_subscription_failed sid) = refl
  calls_in-posts (track_unsubscribed sid) = refl
  calls_in-posts (RoomEvent.state_changed s) = refl
  calls_in-posts RoomEvent.room_disconnected = refl
  calls_in-posts RoomEvent.participant_connected = refl

  unfoldable pub tracks_after : List (Call T) → Tracks T → Tracks T
  tracks_after [] m = m
  tracks_after (c ∷ cs) m = tracks_after cs (perform c m).0

  pub tracks_after-append :
      (cs ds : List (Call T)) (m : Tracks T)
      → tracks_after (cs ++ ds) m ≡ tracks_after ds (tracks_after cs m)
  unfolding tracks_after
  tracks_after-append [] ds m = refl
  tracks_after-append (c ∷ cs) ds m = tracks_after-append cs ds (perform c m).0

  calls_in-append : (ps qs : List (Posted T)) → calls_in (ps ++ qs) ≡ calls_in ps ++ calls_in qs
  calls_in-append [] qs = refl
  calls_in-append (Posted.attaches made sid ∷ ps) qs =
      ap (λ cs. attaches made sid ∷ cs) (calls_in-append ps qs)
  calls_in-append (Posted.detaches sid ∷ ps) qs =
      ap (λ cs. detaches sid ∷ cs) (calls_in-append ps qs)
  calls_in-append (Posted.sets_state s ∷ ps) qs = calls_in-append ps qs
  calls_in-append (Posted.tells_disconnected ∷ ps) qs = calls_in-append ps qs
  calls_in-append (Posted.finishes ∷ ps) qs = calls_in-append ps qs

  abbrev pub after_calls : List (Call T) → Option (Tracks T) → Option (Tracks T)
  after_calls cs none = none
  after_calls cs (some m) = some (tracks_after cs m)

  -- The session once the queue is empty, if nothing else comes.
  abbrev pub eventual : Transport T → Option (Tracks T)
  eventual t = after_calls (calls_in t.posted) t.session

  -- Events of the room, and turns of the main thread's queue.
  abbrev pub Watches : Label T → Type 0
  Watches (room_calls e) = Unit
  Watches runs_posted = Unit
  Watches l = ⊥

  abbrev pub calls_by : Label T → List (Call T)
  calls_by (room_calls e) = calls_of e
  calls_by l = []

  abbrev pub calls_by_all : List (Label T) → List (Call T)
  calls_by_all [] = []
  calls_by_all (l ∷ ls) = calls_by l ++ calls_by_all ls

  -- What a step does to the queue and the session, of `finishes` and of the eventual tracks.
  abbrev Follows : List (Call T) → Transport T → Transport T → Type 0
  Follows cs t u = (finishes u.posted ≡ 0) × (eventual u ≡ after_calls cs (eventual t))

  after_calls-append :
      (cs ds : List (Call T)) (s : Option (Tracks T))
      → after_calls (cs ++ ds) s ≡ after_calls ds (after_calls cs s)
  after_calls-append cs ds none = refl
  after_calls-append cs ds (some m) = ap (λ k. some k) (tracks_after-append cs ds m)

  after_no_calls : (s : Option (Tracks T)) → after_calls [] s ≡ s
  unfolding tracks_after
  after_no_calls none = refl
  after_no_calls (some m) = refl

  room_call-Follows :
      (r : Option ℕ) (event : RoomEvent T) (t : Transport T)
      → finishes t.posted ≡ 0
      → Ensures (λ q. Follows (calls_of event) t q.0) (room_call r event t)
  unfolding room_call
  room_call-Follows none event t n = tt
  room_call-Follows (some r) event t n = (
    rw (finishes-append t.posted (posts event), finishes-posts event, n) refl,
    rw (calls_in-append t.posted (posts event), calls_in-posts event)
        (after_calls-append (calls_in t.posted) (calls_of event) t.session),
  )

  -- The session takes the call at the head of the queue.
  on_session-performs :
      (c : Call T) (call : Tracks T → Tracks T × List direct_link.Client.DirectorSession.Signal)
      → ((m : Tracks T) → call m ≡ perform c m)
      → (s : Option (Tracks T)) (t : Transport T) (cs : List (Call T)) → t.session ≡ s
      → (after_calls cs (on_session call s t).0.session ≡ after_calls (c ∷ cs) s)
        × ((on_session call s t).0.posted ≡ t.posted)
  unfolding on_session tracks_after
  on_session-performs c call h none t cs e = (rw e refl, refl)
  on_session-performs c call h (some m) t cs e = (rw (h m) refl, refl)

  run_session-Follows :
      (c : Call T) (call : Tracks T → Tracks T × List direct_link.Client.DirectorSession.Signal)
      → ((m : Tracks T) → call m ≡ perform c m)
      → (p : Posted T) (ps : List (Posted T)) (t : Transport T) → t.posted ≡ p ∷ ps
      → calls_in (p ∷ ps) ≡ c ∷ calls_in ps
      → finishes ps ≡ 0
      → Follows [] t (on_session call t.session (record t { posted = ps })).0
  run_session-Follows c call h p ps t e k n =
      let (a, b) =
        on_session-performs c call h t.session (record t { posted = ps }) (calls_in ps) refl in
      (
        rw b n,
        rw (b, e)
            (a
              ∙ ap (λ cs. after_calls cs t.session) (sym k)
              ∙ sym (after_no_calls (after_calls (calls_in (p ∷ ps)) t.session))),
      )

  quiet-Follows :
      (p : Posted T) (ps : List (Posted T)) (t : Transport T)
      → t.posted ≡ p ∷ ps
      → calls_in (p ∷ ps) ≡ calls_in ps
      → finishes ps ≡ 0
      → Follows [] t (record t { posted = ps })
  quiet-Follows p ps t e k n = (
    n,
    rw e (
        ap (λ cs. after_calls cs t.session) (sym k)
        ∙ sym (after_no_calls (after_calls (calls_in (p ∷ ps)) t.session))),
  )

  run_posted-Follows :
      (ps : List (Posted T)) (t : Transport T)
      → t.posted ≡ ps
      → finishes ps ≡ 0
      → Ensures (λ q. Follows [] t q.0) (run_posted ps t)
  unfolding run_posted run_one set_state
  run_posted-Follows [] t e n = tt
  run_posted-Follows (Posted.attaches made sid ∷ ps) t e n =
      run_session-Follows (attaches made sid) (λ m. attach_track m made sid)
        (λ m. unfold perform in refl) (Posted.attaches made sid) ps t e refl n
  run_posted-Follows (Posted.detaches sid ∷ ps) t e n =
      run_session-Follows (detaches sid) (λ m. detach_track m sid) (λ m. unfold perform in refl)
        (Posted.detaches sid) ps t e refl n
  run_posted-Follows (Posted.sets_state s ∷ ps) t e n =
      elim (Bool-cases (same_status t.status (status_of s))) [
        | inl k ↦ rw k (quiet-Follows (Posted.sets_state s) ps t e refl n)
        | inr k ↦ rw k (quiet-Follows (Posted.sets_state s) ps t e refl n)
      ]
  run_posted-Follows (Posted.tells_disconnected ∷ ps) t e n =
      quiet-Follows Posted.tells_disconnected ps t e refl n
  run_posted-Follows (Posted.finishes ∷ ps) t e n = ground arith

  fire-Follows :
      (l : Label T) (t : Transport T)
      → Watches l
      → finishes t.posted ≡ 0
      → Ensures (λ q. Follows (calls_by l) t q.0) (fire l t)
  unfolding fire
  fire-Follows (room_calls event) t w n = room_call-Follows t.room event t n
  fire-Follows runs_posted t w n = run_posted-Follows t.posted t refl n
  fire-Follows (connects token url) t w n = absurd w
  fire-Follows disconnects t w n = absurd w
  fire-Follows shuts_down t w n = absurd w
  fire-Follows (connect_returns success) t w n = absurd w

  -- When no `finished` of Connect is posted, the events of a room and the turns of the main thread's
  -- queue, in any order, neither block nor fault, and the tracks that the session has once the queue
  -- is empty are those it would have had before, with the videos that the room subscribed to
  -- attached and the tracks whose subscription ended or failed detached, in the order of the
  -- events; with no session there is none then either.
  pub run-eventual :
      (ls : List (Label T)) (t : Transport T)
      → All (λ l. Watches l) ls
      → finishes t.posted ≡ 0
      → Ensures (λ q. eventual q.0 ≡ after_calls (calls_by_all ls) (eventual t)) (run ls t)
  unfolding run
  run-eventual [] t w n = sym (after_no_calls (eventual t))
  run-eventual (l ∷ ls) t (v, w) n =
      bind-Ensures (λ q. Follows (calls_by l) t q.0)
        (λ q. eventual q.0 ≡ after_calls (calls_by_all (l ∷ ls)) (eventual t)) (fire l t)
        (λ q. run ls q.0 >>= λ r. moves (r.0, q.1 ++ r.1)) (fire-Follows l t v n)
        (λ q f.
          bind-Ensures (λ r. eventual r.0 ≡ after_calls (calls_by_all ls) (eventual q.0))
            (λ r. eventual r.0 ≡ after_calls (calls_by_all (l ∷ ls)) (eventual t)) (run ls q.0)
            (λ r. moves (r.0, q.1 ++ r.1)) (run-eventual ls q.0 w f.0)
            (λ r g.
              g
              ∙ ap (λ s. after_calls (calls_by_all ls) s) f.1
              ∙ sym (after_calls-append (calls_by l) (calls_by_all ls) (eventual t))))
