-- ===== src/Client/DirectorTransport/Steps.antt =====
-- The threads of DirectorTransport (client/src/directortransport.cpp): the main thread, with its calls
-- and its queue, the thread of the room, and the pool thread in Connect. What holds at every moment.
use direct_link.Base.{
  ℕ, ◌==◌, Bool, false, if◌then◌else◌, String, Option, none, some, List, [], ◌∷◌, ◌++◌,
}
use direct_link.Client.Task.{Task, running, returned, Outcome, moves, disabled, faults, ◌>>=◌}
use direct_link.Client.DirectorTransport.{
  Transport, Signal, Posted, RoomEvent, posts, shutdown, connect_to_room, disconnect_from_room,
  run_one,
}

pub data Label (T : Type 0) : Type 0 where
  connects : String → String → Label T
  disconnects shuts_down runs_posted : Label T
  room_calls : RoomEvent T → Label T
  connect_returns : Bool → Label T

-- The room on which Connect was called is still there.
abbrev pub has_room : Option ℕ → ℕ → Bool
has_room none connect_room = false
has_room (some r) connect_room = r == connect_room

module _ {T : Type 0} where
  -- The main thread takes the function that waits longest.
  unfoldable pub run_posted : List (Posted T) → Transport T → Outcome (Transport T × List Signal)
  run_posted [] t = disabled
  run_posted (p ∷ ps) t = run_one p (record t { posted = ps })

  -- A room calls its delegate as long as it is there.
  unfoldable pub room_call :
      Option ℕ → RoomEvent T → Transport T → Outcome (Transport T × List Signal)
  room_call none e t = disabled
  room_call (some r) e t = moves (record t { posted = t.posted ++ posts e }, [])

  -- Connect returns in the pool, and the `finished` of its watcher is posted. The pool reads `m_room`
  -- and is in its room until then: with the room gone it reads a null pointer, or one that is freed.
  unfoldable pub connect_return :
      Task Bool → Bool → Transport T → Outcome (Transport T × List Signal)
  connect_return running success t =
      if has_room t.room t.connect_room
      then moves (
        record t { connect_task = returned success; posted = t.posted ++ Posted.finishes ∷ [] },
        [],
      )
      else faults
  connect_return task success t = disabled

  unfoldable pub fire : Label T → Transport T → Outcome (Transport T × List Signal)
  unfolding run_posted room_call connect_return
  fire (connects token url) t = moves (connect_to_room t token url)
  fire disconnects t = moves (disconnect_from_room t)
  fire shuts_down t = moves (shutdown t)
  fire runs_posted t = run_posted t.posted t
  fire (room_calls e) t = room_call t.room e t
  fire (connect_returns success) t = connect_return t.connect_task success t

  -- Steps in this order, with the signals of all.
  unfoldable pub run : List (Label T) → Transport T → Outcome (Transport T × List Signal)
  unfolding fire
  run [] t = moves (t, [])
  run (l ∷ ls) t = fire l t >>= λ (q : Transport T × List Signal).
      run ls q.0 >>= λ (r : Transport T × List Signal). moves (r.0, q.1 ++ r.1)
