-- ===== src/Client/DirectorTransport/Rooms.antt =====
-- The room of DirectorTransport (client/src/directortransport.cpp) while Connect runs on it.
use direct_link.Base.{
  both_branches, ℕ, ◌≡◌, refl, Bool, true, false, ◌||◌, Option, none, some, List, [], ◌∷◌, arith,
  String, inl, inr, Bool-cases,
}
use direct_link.Client.Task.{
  Task, absent, running, returned, is_running, take_result, OnMove, moves, ◌>>=◌,
}
use direct_link.Client.DirectorSession.{Sid, Tracks, attach_track, detach_track, detach_all_tracks}
use direct_link.Client.DirectorSession
use direct_link.Client.DirectorTransport.{
  Signal, Transport, Status, Posted, RoomEvent, run_one, on_session, set_state, status_of,
  same_status, is_empty, connect_to_room, disconnect_from_room, shutdown, finish_connect,
}
use direct_link.Client.DirectorTransport.Steps.{
  Label, connects, disconnects, shuts_down, connect_returns, runs_posted, room_calls, fire,
  run_posted, room_call, connect_return, has_room,
}

module _ {T : Type 0} where
  -- While Connect runs, the room that it was called on is there.
  unfoldable pub IsHeld : Transport T → Type 0
  IsHeld t = is_running t.connect_task ≡ true → t.room ≡ some t.connect_room

  -- `disconnectFromRoom` and `shutdown` are not called while Connect runs.
  abbrev pub Waits : Label T → Transport T → Type 0
  Waits disconnects t = is_running t.connect_task ≡ false
  Waits shuts_down t = is_running t.connect_task ≡ false
  Waits l t = Unit

  connect_to_room-IsHeld :
      (t : Transport T) (token url : String) → IsHeld t → IsHeld (connect_to_room t token url).0
  unfolding connect_to_room IsHeld
  connect_to_room-IsHeld t token url h =
      both_branches (λ (q : Transport T × List Signal). IsHeld q.0) (is_running t.connect_task) h
        (both_branches (λ (q : Transport T × List Signal). IsHeld q.0)
          (is_empty token || is_empty url) h (λ _. refl))

  on_session-IsHeld :
      (call : Tracks T → Tracks T × List direct_link.Client.DirectorSession.Signal)
      (s : Option (Tracks T)) (t : Transport T)
      → IsHeld t
      → IsHeld (on_session call s t).0
  unfolding on_session IsHeld
  on_session-IsHeld call none t h = h
  on_session-IsHeld call (some m) t h = h

  finish_connect-IsHeld : (success : Bool) (t : Transport T) → IsHeld (finish_connect success t).0
  unfolding finish_connect IsHeld
  finish_connect-IsHeld success t =
      both_branches (λ (q : Transport T × List Signal). IsHeld q.0)
        (same_status t.status Status.disconnected) (λ k. ground arith)
        (both_branches (λ (q : Transport T × List Signal). IsHeld q.0) success (λ k. ground arith)
          (λ k. ground arith))

  set_state-IsHeld : (s : Status) (t : Transport T) → IsHeld t → IsHeld (set_state s t).0
  unfolding set_state IsHeld
  set_state-IsHeld s t h =
      both_branches (λ (q : Transport T × List Signal). IsHeld q.0) (same_status t.status s) h h

  task_finish-IsHeld :
      (task : Task Bool) (t : Transport T)
      → OnMove (λ r. IsHeld r.0) (take_result task >>= λ success. moves (finish_connect success t))
  task_finish-IsHeld absent t = tt
  task_finish-IsHeld running t = tt
  task_finish-IsHeld (returned success) t = finish_connect-IsHeld success t

  run_posted-IsHeld :
      (ps : List (Posted T)) (t : Transport T)
      → IsHeld t
      → OnMove (λ r. IsHeld r.0) (run_posted ps t)
  unfolding run_posted run_one
  run_posted-IsHeld [] t h = tt
  run_posted-IsHeld (Posted.attaches made sid ∷ ps) t h =
      on_session-IsHeld (λ m. attach_track m made sid) t.session (record t { posted = ps })
        (unfold IsHeld in h)
  run_posted-IsHeld (Posted.detaches sid ∷ ps) t h =
      on_session-IsHeld (λ m. detach_track m sid) t.session (record t { posted = ps })
        (unfold IsHeld in h)
  run_posted-IsHeld (Posted.sets_state s ∷ ps) t h =
      set_state-IsHeld (status_of s) (record t { posted = ps }) (unfold IsHeld in h)
  run_posted-IsHeld (Posted.tells_disconnected ∷ ps) t h = unfold IsHeld in h
  run_posted-IsHeld (Posted.finishes ∷ ps) t h =
      task_finish-IsHeld t.connect_task (record t { posted = ps })

  room_call-IsHeld :
      (r : Option ℕ) (event : RoomEvent T) (t : Transport T)
      → IsHeld t
      → OnMove (λ q. IsHeld q.0) (room_call r event t)
  unfolding room_call IsHeld
  room_call-IsHeld none event t h = tt
  room_call-IsHeld (some r) event t h = h

  connect_return-IsHeld :
      (task : Task Bool) (success : Bool) (t : Transport T)
      → OnMove (λ q. IsHeld q.0) (connect_return task success t)
  unfolding connect_return IsHeld
  connect_return-IsHeld absent success t = tt
  connect_return-IsHeld (returned b) success t = tt
  connect_return-IsHeld running success t = elim (Bool-cases (has_room t.room t.connect_room)) [
    | inl e ↦ rw e (λ k. ground arith)
    | inr e ↦ rw e tt
  ]

  shutdown-IsHeld : (t : Transport T) → is_running t.connect_task ≡ false → IsHeld (shutdown t).0
  unfolding shutdown IsHeld
  shutdown-IsHeld t n = λ k. ground arith

  disconnect-IsHeld :
      (t : Transport T)
      → is_running t.connect_task ≡ false
      → IsHeld t
      → IsHeld (disconnect_from_room t).0
  unfolding disconnect_from_room IsHeld shutdown
  disconnect-IsHeld t n h =
      both_branches (λ (q : Transport T × List Signal). IsHeld q.0)
        (same_status t.status Status.disconnected) h (λ k. ground arith)

  -- So long as `disconnectFromRoom` and `shutdown` are not called while Connect runs, no step takes away
  -- the room that a running Connect was called on, and none moves it to another.
  pub fire-IsHeld :
      (l : Label T) (t : Transport T) → Waits l t → IsHeld t → OnMove (λ q. IsHeld q.0) (fire l t)
  unfolding fire
  fire-IsHeld (connects token url) t w h = connect_to_room-IsHeld t token url h
  fire-IsHeld disconnects t w h = disconnect-IsHeld t w h
  fire-IsHeld shuts_down t w h = shutdown-IsHeld t w
  fire-IsHeld runs_posted t w h = run_posted-IsHeld t.posted t h
  fire-IsHeld (room_calls event) t w h = room_call-IsHeld t.room event t h
  fire-IsHeld (connect_returns success) t w h = connect_return-IsHeld t.connect_task success t
