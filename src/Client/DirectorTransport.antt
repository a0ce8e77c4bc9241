-- ===== src/Client/DirectorTransport.antt =====
-- client/src/directortransport.cpp and include/directortransport.hpp: the connection of a director to
-- a LiveKit room. The room's thread calls the delegate, which posts to the main thread; Connect runs
-- in the pool. Log lines are left out.
use Prim.Native.String.{String}
use direct_link.Base.{
  ℕ, suc, Bool, true, false, ◌||◌, if◌then◌else◌, Option, none, some, List, [], ◌∷◌, ◌++◌, map,
}
use direct_link.Client.Task.{Task, absent, running, is_running, Outcome, moves, take_result, ◌>>=◌}
use direct_link.Client.DirectorSession.{Sid, Tracks, attach_track, detach_track, detach_all_tracks}
use direct_link.Client.DirectorSession
pub mod Steps
pub mod Invariant
pub mod Connecting
pub mod Rooms
pub mod Reached
pub mod Watching
pub mod Subscriptions
pub mod Orders
mod Tests

-- The texts that `m_connection_state` takes; `empty` is the empty one.
pub data Status : Type 0 where
  connected connecting disconnected empty : Status

-- livekit::ConnectionState
pub data RoomState : Type 0 where
  connected reconnecting disconnected other : RoomState

-- What waits in the queue of the main thread: the functions that the delegate posts, and the
-- `finished` of a watcher. Of a track it matters what VideoTrack::setTrack will make of it.
pub data Posted (T : Type 0) : Type 0 where
  attaches : Option T → Sid → Posted T
  detaches : Sid → Posted T
  sets_state : RoomState → Posted T
  tells_disconnected finishes : Posted T

pub data Signal : Type 0 where
  connected disconnected session_changed : Signal
  state_changed : Status → Signal
  of_session : DirectorSession.Signal → Signal

-- Rooms are numbered as they are made. `connect_room` is the one on which Connect was called last.
pub record Transport (T : Type 0) : Type 0 where
  pub room : Option ℕ
  pub rooms_made : ℕ
  pub status : Status
  pub session : Option (Tracks T)
  pub connect_task : Task Bool
  pub connect_room : ℕ
  pub posted : List (Posted T)

-- "<unknown>"
abbrev unknown_sid : Sid
unknown_sid = b'<' ∷ b'u' ∷ b'n' ∷ b'k' ∷ b'n' ∷ b'o' ∷ b'w' ∷ b'n' ∷ b'>' ∷ []

abbrev sid_of : Option Sid → Sid
sid_of none = unknown_sid
sid_of (some sid) = sid

-- The events of the delegate. A track has its kind, video or not; a publication its identifier.
pub data RoomEvent (T : Type 0) : Type 0 where
  track_subscribed : Option (Bool × Option T) → Option Sid → RoomEvent T
  track_subscription_failed : Sid → RoomEvent T
  track_unsubscribed : Option Sid → RoomEvent T
  state_changed : RoomState → RoomEvent T
  room_disconnected participant_connected : RoomEvent T

abbrev pub is_empty : String → Bool
is_empty String.[] = true
is_empty s = false

abbrev pub same_status : Status → Status → Bool
same_status Status.connected Status.connected = true
same_status Status.connecting Status.connecting = true
same_status Status.disconnected Status.disconnected = true
same_status Status.empty Status.empty = true
same_status s t = false

-- The `switch` of `onConnectionStateChanged`.
abbrev pub status_of : RoomState → Status
status_of RoomState.connected = Status.connected
status_of RoomState.reconnecting = Status.connecting
status_of RoomState.disconnected = Status.disconnected
status_of RoomState.other = Status.empty

-- `if (!m_room) { m_room = …; }`: the room that there is then, and how many were made.
abbrev pub room_of : Option ℕ → ℕ → ℕ
room_of none made = made
room_of (some r) made = r

abbrev pub made_with : Option ℕ → ℕ → ℕ
made_with none made = suc made
made_with (some r) made = made

module _ {T : Type 0} where
  abbrev pub new : Transport T
  new = record {
    room = none;
    rooms_made = 0;
    status = Status.disconnected;
    session = none;
    connect_task = absent;
    connect_room = 0;
    posted = [];
  }

  -- `onTrackSubscribed` posts for a track that is there and a video.
  abbrev subscribed : Option (Bool × Option T) → Option Sid → List (Posted T)
  subscribed none sid = []
  subscribed (some (is_video, made)) sid = if is_video then attaches made (sid_of sid) ∷ [] else []

  -- What a callback of the delegate posts.
  unfoldable pub posts : RoomEvent T → List (Posted T)
  posts (track_subscribed track sid) = subscribed track sid
  posts (track_subscription_failed sid) = detaches sid ∷ []
  posts (track_unsubscribed sid) = detaches (sid_of sid) ∷ []
  posts (state_changed s) = sets_state s ∷ []
  posts room_disconnected = tells_disconnected ∷ []
  posts participant_connected = []

  abbrev post : Transport T → List (Posted T) → Transport T
  post t ps = record t { posted = t.posted ++ ps }

  -- The destructor of the session that is given up detaches its tracks.
  abbrev pub release_session : Option (Tracks T) → List Signal
  release_session none = []
  release_session (some m) = map of_session (detach_all_tracks m).1

  unfoldable pub shutdown : Transport T → Transport T × List Signal
  unfolding detach_all_tracks
  shutdown t = (record t { session = none; room = none }, release_session t.session)

  unfoldable pub connect_to_room : Transport T → String → String → Transport T × List Signal
  connect_to_room t token url =
      if is_running t.connect_task
      then (t, [])
      else if is_empty token || is_empty url
      then (t, [])
      else (
        record t {
          room = some (room_of t.room t.rooms_made);
          rooms_made = made_with t.room t.rooms_made;
          status = Status.connecting;
          connect_task = running;
          connect_room = room_of t.room t.rooms_made;
        },
        state_changed Status.connecting ∷ [],
      )

  unfoldable pub disconnect_from_room : Transport T → Transport T × List Signal
  unfolding shutdown
  disconnect_from_room t =
      if same_status t.status Status.disconnected
      then (t, [])
      else (let (u, released) = shutdown t in
          (
            record u { status = Status.disconnected },
            released
                ++ (Signal.state_changed Status.disconnected
                    ∷ session_changed
                    ∷ Signal.disconnected
                    ∷ []),
          ))

  -- The slot of `finished`, once it has the result.
  unfoldable pub finish_connect : Bool → Transport T → Transport T × List Signal
  unfolding detach_all_tracks
  finish_connect success t =
      let u = record t { connect_task = absent } in
      if same_status t.status Status.disconnected
      then (u, [])
      else if success
      then (
        record u { session = some [] },
        release_session t.session ++ (session_changed ∷ Signal.connected ∷ []),
      )
      else (u, [])

  unfoldable pub on_session :
      (Tracks T → Tracks T × List DirectorSession.Signal)
      → Option (Tracks T)
      → Transport T
      → Transport T × List Signal
  on_session call none t = (t, [])
  on_session call (some m) t =
      let (m', ss) = call m in (record t { session = some m' }, map of_session ss)

  unfoldable pub set_state : Status → Transport T → Transport T × List Signal
  set_state s t =
      if same_status t.status s
      then (t, [])
      else (record t { status = s }, Signal.state_changed s ∷ [])

  -- One function from the queue of the main thread.
  unfoldable pub run_one : Posted T → Transport T → Outcome (Transport T × List Signal)
  unfolding on_session set_state finish_connect attach_track detach_track
  run_one (attaches made sid) t = moves (on_session (λ m. attach_track m made sid) t.session t)
  run_one (detaches sid) t = moves (on_session (λ m. detach_track m sid) t.session t)
  run_one (sets_state s) t = moves (set_state (status_of s) t)
  run_one tells_disconnected t = moves (t, Signal.disconnected ∷ [])
  run_one finishes t = take_result t.connect_task >>= λ success. moves (finish_connect success t)
