-- ===== src/Client/DirectorTransport/Connecting.antt =====
-- Connecting and disconnecting in DirectorTransport (client/src/directortransport.cpp).
use direct_link.Base.{
  ◌≡◌, refl, ap, Bool, true, false, if◌then◌else◌, ◌||◌, String, none, some, [], ◌∷◌, ◌++◌, arith,
  inl, inr, Bool-cases,
}
use mathlib.Core.List.{append-nil}
use direct_link.Client.Task.{absent, running, returned, moves, faults}
use direct_link.Client.DirectorTransport.{
  Transport, Signal, Status, RoomState, sets_state, finishes, connect_to_room, disconnect_from_room,
  session_changed, is_empty, shutdown, run_one, room_of, made_with, finish_connect, release_session,
  status_of, same_status, set_state, state_changed,
}
use direct_link.Client.DirectorTransport.Invariant.{==_refl}
use direct_link.Client.DirectorTransport.Steps.{
  connects, disconnects, connect_returns, runs_posted, fire, run, run_posted, connect_return,
}

module _ {T : Type 0} where
  -- The transport while Connect runs on its room.
  abbrev pub under_way : Transport T → Transport T
  under_way t = record t {
    room = some (room_of t.room t.rooms_made);
    rooms_made = made_with t.room t.rooms_made;
    status = Status.connecting;
    connect_task = running;
    connect_room = room_of t.room t.rooms_made;
  }

  -- `connectToRoom` with a token and an address, when no Connect is under way and nothing is
  -- posted; then Connect returns, and its `finished` is delivered. A success replaces the session by
  -- an empty one and emits `sessionChanged` and `connected`, with the status left at connecting. A
  -- failure emits nothing after the change of status to connecting, and the status stays there too.
  connect_outcome :
      (t : Transport T) (token url : String) (success : Bool)
      → t.connect_task ≡ absent
      → is_empty token || is_empty url ≡ false
      → t.posted ≡ []
      → run (connects token url ∷ connect_returns success ∷ runs_posted ∷ []) t
        ≡ moves (
            if success
            then (
              record (under_way t) { session = some []; connect_task = absent; posted = [] },
              state_changed Status.connecting
                  ∷ ((release_session t.session ++ (session_changed ∷ Signal.connected ∷ []))
                      ++ []),
            )
            else (
              record (under_way t) { connect_task = absent; posted = [] },
              state_changed Status.connecting ∷ [],
            ))
  unfolding run fire run_posted connect_return run_one finish_connect connect_to_room
  connect_outcome t token url success e h p = elim (Bool-cases success) [
    | inl k ↦ rw (e, h, p, k, ==_refl (room_of t.room t.rooms_made)) refl
    | inr k ↦ rw (e, h, p, k, ==_refl (room_of t.room t.rooms_made)) refl
  ]

  -- `connectToRoom` is called when Connect has returned and its `finished` is not yet delivered, a second
  -- Connect starts, and returns: the first `finished` clears the member that the second one reads,
  -- which is then a null pointer.
  pub overlapping_connects_fault :
      (t : Transport T) (token url : String) (first second : Bool)
      → t.connect_task ≡ returned first
      → t.posted ≡ finishes ∷ []
      → is_empty token || is_empty url ≡ false
      → run (connects token url ∷ connect_returns second ∷ runs_posted ∷ runs_posted ∷ []) t
        ≡ faults
  unfolding run fire run_posted connect_return run_one finish_connect connect_to_room
  overlapping_connects_fault t token url first second e p h = elim (Bool-cases second) [
    | inl k ↦ rw (e, h, p, k, ==_refl (room_of t.room t.rooms_made)) refl
    | inr k ↦ rw (e, h, p, k, ==_refl (room_of t.room t.rooms_made)) refl
  ]

  -- `disconnectFromRoom` while Connect runs, of a transport that is not disconnected: the room is
  -- destroyed, and the pool, about to call Connect or in it, uses it.
  pub disconnect_under_connect_faults :
      (t : Transport T) (success : Bool)
      → t.connect_task ≡ running
      → same_status t.status Status.disconnected ≡ false
      → run (disconnects ∷ connect_returns success ∷ []) t ≡ faults
  unfolding run fire connect_return disconnect_from_room shutdown
  disconnect_under_connect_faults t success e h = rw (h, e) refl

  -- `disconnectFromRoom` after Connect has returned, with only its `finished` in the queue, ends
  -- with no room, no session and the status disconnected once the `finished` is delivered, and emits no
  -- `connected`.
  disconnect_cancels :
      (t : Transport T) (success : Bool)
      → same_status t.status Status.disconnected ≡ false
      → t.connect_task ≡ returned success
      → t.posted ≡ finishes ∷ []
      → run (disconnects ∷ runs_posted ∷ []) t
        ≡ moves (
          record t {
            room = none;
            session = none;
            status = Status.disconnected;
            connect_task = absent;
            posted = [];
          },
          release_session t.session
              ++ (state_changed Status.disconnected ∷ session_changed ∷ Signal.disconnected ∷ []),
        )
  unfolding run fire run_posted run_one finish_connect set_state disconnect_from_room shutdown
  disconnect_cancels t success h e p =
      rw (h, e, p)
        (ap
          (λ ss. moves (
            record t {
              room = none;
              session = none;
              status = Status.disconnected;
              connect_task = absent;
              posted = [];
            },
            ss,
          ))
          (append-nil (
            release_session t.session
            ++ (state_changed Status.disconnected ∷ session_changed ∷ Signal.disconnected ∷ []))))

  -- Connect has returned with success, and an event of the room whose state maps to a status other
  -- than disconnected waits in the queue before its `finished`; the status is not disconnected.
  -- Then `disconnectFromRoom` followed by the two queued calls ends with a session, with no room
  -- and with the status of the event, and `connected` is emitted last.
  late_state_reconnects :
      (t : Transport T) (s : RoomState)
      → same_status t.status Status.disconnected ≡ false
      → same_status Status.disconnected (status_of s) ≡ false
      → t.connect_task ≡ returned true
      → t.posted ≡ sets_state s ∷ finishes ∷ []
      → run (disconnects ∷ runs_posted ∷ runs_posted ∷ []) t
        ≡ moves (
          record t {
            room = none;
            session = some [];
            status = status_of s;
            connect_task = absent;
            posted = [];
          },
          (release_session t.session
                ++ (state_changed Status.disconnected ∷ session_changed ∷ Signal.disconnected ∷ []))
              ++ (state_changed (status_of s) ∷ session_changed ∷ Signal.connected ∷ []),
        )
  unfolding run fire run_posted run_one finish_connect set_state disconnect_from_room shutdown
  late_state_reconnects t RoomState.connected h k e p = rw (h, e, p) refl
  late_state_reconnects t RoomState.reconnecting h k e p = rw (h, e, p) refl
  late_state_reconnects t RoomState.other h k e p = rw (h, e, p) refl
  late_state_reconnects t RoomState.disconnected h k e p = ground arith
