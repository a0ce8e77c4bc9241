-- ===== src/Client/DirectorTransport/Invariant.antt =====
-- What holds of DirectorTransport (client/src/directortransport.cpp) at every moment.
use direct_link.Base.{
  both_branches, ℕ, suc, ◌==◌, ◌+◌, ◌≡◌, refl, Bool, true, false, if◌then◌else◌, String, Option,
  none, some, List, [], ◌∷◌, ◌++◌, sym, ap, ◌∙◌, ◌||◌, arith,
}
use direct_link.Client.Task.{
  Task, absent, running, returned, is_running, is_returned, moves, Ensures, take_result, ◌>>=◌,
}
use direct_link.Client.DirectorSession.{Sid, Tracks, attach_track, detach_track}
use direct_link.Client.DirectorSession
use direct_link.Client.DirectorSession.TrackMap.{IsSorted, attaches, detaches, perform-IsSorted}
use direct_link.Client.DirectorSession.TrackMap
use direct_link.Client.DirectorTransport.{
  Signal, Transport, Posted, RoomEvent, posts, shutdown, connect_to_room, disconnect_from_room,
  run_one, on_session, set_state, finish_connect, status_of, Status, same_status, is_empty,
}
use direct_link.Client.DirectorTransport.Steps.{
  Label, connects, disconnects, shuts_down, runs_posted, room_calls, connect_returns, run_posted,
  room_call, connect_return, fire,
}

pub ==_refl : (n : ℕ) → (n == n) ≡ true
==_refl n = ground arith

module _ {T : Type 0} where
  abbrev pub finishes : List (Posted T) → ℕ
  finishes [] = 0
  finishes (Posted.finishes ∷ ps) = suc (finishes ps)
  finishes (p ∷ ps) = finishes ps

  pub finishes-append : (ps qs : List (Posted T)) → finishes (ps ++ qs) ≡ finishes ps + finishes qs
  finishes-append [] qs = omega arith
  finishes-append (Posted.attaches made sid ∷ ps) qs = finishes-append ps qs
  finishes-append (Posted.detaches sid ∷ ps) qs = finishes-append ps qs
  finishes-append (Posted.sets_state s ∷ ps) qs = finishes-append ps qs
  finishes-append (Posted.tells_disconnected ∷ ps) qs = finishes-append ps qs
  finishes-append (Posted.finishes ∷ ps) qs = omega (arith, finishes-append ps qs)

  pub finishes-posts : (e : RoomEvent T) → finishes (posts e) ≡ 0
  unfolding posts
  finishes-posts e = ground arith

  abbrev pub SessionIsSorted : Option (Tracks T) → Type 0
  SessionIsSorted none = Unit
  SessionIsSorted (some m) = IsSorted m

  -- The tracks are in order, and exactly a connect task that has returned has its `finished` posted.
  pub record Inv (t : Transport T) : Type 0 where
    pub sorted : SessionIsSorted t.session
    pub pending : finishes t.posted ≡ (if is_returned t.connect_task then 1 else 0)

  -- `connectToRoom` is not called between the return of Connect and the delivery of `finished`.
  abbrev pub Allowed : Label T → Transport T → Type 0
  Allowed (connects token url) t = is_returned t.connect_task ≡ false
  Allowed l t = Unit

  attach-IsSorted :
      (made : Option T) (sid : Sid) (m : Tracks T)
      → IsSorted m
      → IsSorted (DirectorSession.attach_track m made sid).0
  attach-IsSorted made sid m v = unfold TrackMap.perform in perform-IsSorted (attaches made sid) m v

  detach-IsSorted :
      (sid : Sid) (m : Tracks T) → IsSorted m → IsSorted (DirectorSession.detach_track m sid).0
  detach-IsSorted sid m v = unfold TrackMap.perform in perform-IsSorted (detaches sid) m v

  on_session-Inv :
      (call : Tracks T → Tracks T × List DirectorSession.Signal)
      → ((m : Tracks T) → IsSorted m → IsSorted (call m).0)
      → (s : Option (Tracks T)) (t : Transport T) → SessionIsSorted s
      → Inv t
      → Inv (on_session call s t).0
  unfolding on_session
  on_session-Inv call keeps none t w v = v
  on_session-Inv call keeps (some m) t w v = record { sorted = keeps m w; pending = v.pending }

  popped-Inv :
      (p : Posted T) (ps : List (Posted T)) (t : Transport T)
      → t.posted ≡ p ∷ ps
      → finishes (p ∷ ps) ≡ finishes ps
      → Inv t
      → Inv (record t { posted = ps })
  popped-Inv p ps t e k v = record {
    sorted = v.sorted;
    pending = sym k ∙ sym (ap (λ qs. finishes qs) e) ∙ v.pending;
  }

  set_state-Inv : (s : Status) (t : Transport T) → Inv t → Inv (set_state s t).0
  unfolding set_state
  set_state-Inv s t v =
      both_branches (λ (q : Transport T × List Signal). Inv q.0) (same_status t.status s) v
        record { sorted = v.sorted; pending = v.pending }

  finish_connect-Inv :
      (success : Bool) (t : Transport T)
      → SessionIsSorted t.session
      → finishes t.posted ≡ 0
      → Inv (finish_connect success t).0
  unfolding finish_connect IsSorted
  finish_connect-Inv success t w n =
      both_branches (λ (q : Transport T × List Signal). Inv q.0)
        (same_status t.status Status.disconnected) record { sorted = w; pending = n }
        (both_branches (λ (q : Transport T × List Signal). Inv q.0) success
          record { sorted = tt; pending = n } record { sorted = w; pending = n })

  task_finish-Inv :
      (task : Task Bool) (t : Transport T)
      → SessionIsSorted t.session
      → suc (finishes t.posted) ≡ (if is_returned task then 1 else 0)
      → Ensures (λ r. Inv r.0) (take_result task >>= λ success. moves (finish_connect success t))
  task_finish-Inv absent t w n = ground arith
  task_finish-Inv running t w n = ground arith
  task_finish-Inv (returned success) t w n = finish_connect-Inv success t w (omega (arith, n))

  run_posted-Inv :
      (ps : List (Posted T)) (t : Transport T)
      → t.posted ≡ ps
      → Inv t
      → Ensures (λ r. Inv r.0) (run_posted ps t)
  unfolding run_posted run_one
  run_posted-Inv [] t e v = tt
  run_posted-Inv (Posted.attaches made sid ∷ ps) t e v =
      on_session-Inv (λ m. attach_track m made sid) (attach-IsSorted made sid) t.session
        (record t { posted = ps }) v.sorted (popped-Inv (Posted.attaches made sid) ps t e refl v)
  run_posted-Inv (Posted.detaches sid ∷ ps) t e v =
      on_session-Inv (λ m. detach_track m sid) (detach-IsSorted sid) t.session
        (record t { posted = ps }) v.sorted (popped-Inv (Posted.detaches sid) ps t e refl v)
  run_posted-Inv (Posted.sets_state s ∷ ps) t e v =
      set_state-Inv (status_of s) (record t { posted = ps })
        (popped-Inv (Posted.sets_state s) ps t e refl v)
  run_posted-Inv (Posted.tells_disconnected ∷ ps) t e v =
      popped-Inv Posted.tells_disconnected ps t e refl v
  run_posted-Inv (Posted.finishes ∷ ps) t e v =
      task_finish-Inv t.connect_task (record t { posted = ps }) v.sorted
        (sym (ap (λ qs. finishes qs) e) ∙ v.pending)

  connect_return-Inv :
      (task : Task Bool) (success : Bool) (t : Transport T)
      → t.connect_task ≡ task
      → (is_running t.connect_task ≡ true → t.room ≡ some t.connect_room)
      → Inv t
      → Ensures (λ r. Inv r.0) (connect_return task success t)
  unfolding connect_return
  connect_return-Inv absent success t e h v = tt
  connect_return-Inv (returned b) success t e h v = tt
  connect_return-Inv running success t e h v =
      rw (h (rw e refl), ==_refl t.connect_room)
        record {
          sorted = v.sorted;
          pending = rw (finishes-append t.posted (Posted.finishes ∷ []), v.pending, e) refl;
        }

  room_call-Inv :
      (r : Option ℕ) (event : RoomEvent T) (t : Transport T)
      → Inv t
      → Ensures (λ q. Inv q.0) (room_call r event t)
  unfolding room_call
  room_call-Inv none event t v = tt
  room_call-Inv (some r) event t v = record {
    sorted = v.sorted;
    pending =
        rw (finishes-append t.posted (posts event), finishes-posts event) omega (arith, v.pending);
  }

  connect_to_room-Inv :
      (token url : String) (t : Transport T)
      → is_returned t.connect_task ≡ false
      → Inv t
      → Inv (connect_to_room t token url).0
  unfolding connect_to_room
  connect_to_room-Inv token url t h v =
      both_branches (λ (q : Transport T × List Signal). Inv q.0) (is_running t.connect_task) v
        (both_branches (λ (q : Transport T × List Signal). Inv q.0) (is_empty token || is_empty url)
          v record { sorted = v.sorted; pending = v.pending ∙ ap (λ b. if b then 1 else 0) h })

  disconnect-Inv : (t : Transport T) → Inv t → Inv (disconnect_from_room t).0
  unfolding disconnect_from_room
  disconnect-Inv t v =
      both_branches (λ (q : Transport T × List Signal). Inv q.0)
        (same_status t.status Status.disconnected) v record { sorted = tt; pending = v.pending }

  -- A step from a state in which the tracks are in order and a `finished` is posted exactly when
  -- Connect has returned neither blocks nor faults, and comes to such a state, so long as
  -- `connectToRoom` is not called between the return of Connect and the delivery of its `finished`,
  -- and a running Connect has its room.
  pub fire-Inv :
      (l : Label T) (t : Transport T)
      → Allowed l t
      → (is_running t.connect_task ≡ true → t.room ≡ some t.connect_room)
      → Inv t
      → Ensures (λ r. Inv r.0) (fire l t)
  unfolding fire
  fire-Inv (connects token url) t h held v = connect_to_room-Inv token url t h v
  fire-Inv disconnects t h held v = disconnect-Inv t v
  fire-Inv shuts_down t h held v = unfold shutdown in record { sorted = tt; pending = v.pending }
  fire-Inv runs_posted t h held v = run_posted-Inv t.posted t refl v
  fire-Inv (room_calls event) t h held v = room_call-Inv t.room event t v
  fire-Inv (connect_returns success) t h held v =
      connect_return-Inv t.connect_task success t refl held v
