-- ===== src/Client/SessionClient.antt =====
-- client/src/network/sessionclient.cpp and sessionclient.hpp: the calls of the signaling service, and the
-- signals that their answers become. Log lines are left out; the channel and the calls of gRPC
-- belong to Qt, and what they answer is an argument.
use direct_link.Base.{
  Bool, true, false, not, if◌then◌else◌, String, Option, none, some, List, [], ◌∷◌, ℤ, map,
}
pub mod Answers
mod Tests

-- The request messages.
pub data Request : Type 0 where
  create_session_request : String → ℤ → Request
  join_request : String → String → String → Request
  close_session_request : String → String → Request
  get_my_sessions_request : String → Request

-- A session as the service lists it, and as an entry of the list for the user interface.
pub record Listed : Type 0 where
  pub room_code : String
  pub status : String
  pub max_cameras : ℤ
  pub created_at : String

pub record Entry : Type 0 where
  pub room_code : String
  pub room_status : String
  pub max_cameras : ℤ
  pub created_at : String

pub record JoinReply : Type 0 where
  pub token : String
  pub livekit_url : String
  pub whip_url : String
  pub stream_key : String

pub data Signal : Type 0 where
  session_created : String → Signal
  director_joined camera_joined : String → String → Signal
  session_closed : Bool → Signal
  sessions_received : List Entry → Signal
  error : String → Signal

-- What `finished` brings: a status that is not ok, with its message, or an ok one with the reply, if
-- that can be read.
pub data Answer (R : Type 0) : Type 0 where
  not_ok : String → Answer R
  ok : Option R → Answer R

unfoldable pub create_session : String → ℤ → Request
create_session user_id max_cameras = create_session_request user_id max_cameras

unfoldable pub join_session : String → String → String → Request
join_session room_code user_id role = join_request room_code user_id role

unfoldable pub close_session : String → String → Request
close_session room_code user_id = close_session_request room_code user_id

unfoldable pub get_my_sessions : String → Request
get_my_sessions user_id = get_my_sessions_request user_id

abbrev pub is_empty : String → Bool
is_empty String.[] = true
is_empty s = false

unfoldable pub on_created : Answer String → List Signal
on_created (not_ok message) = error message ∷ []
on_created (ok none) = error "Could not deserialize CreateSessionReply" ∷ []
on_created (ok (some room_code)) = session_created room_code ∷ []

-- The role is read off the credentials that the reply carries.
unfoldable pub joined : JoinReply → Signal
joined resp =
    if not (is_empty resp.token)
    then director_joined resp.token resp.livekit_url
    else if not (is_empty resp.whip_url)
    then camera_joined resp.whip_url resp.stream_key
    else error "Could not join session"

unfoldable pub on_joined : Answer JoinReply → List Signal
unfolding joined
on_joined (not_ok message) = error message ∷ []
on_joined (ok none) = error "Could not deserialize JoinSessionReply" ∷ []
on_joined (ok (some resp)) = joined resp ∷ []

-- The reply says whether the session was closed.
unfoldable pub on_closed : Answer Bool → List Signal
on_closed (not_ok message) = session_closed false ∷ []
on_closed (ok none) = []
on_closed (ok (some success)) = if success then session_closed true ∷ [] else []

unfoldable pub entry_of : Listed → Entry
entry_of session = record {
  room_code = session.room_code;
  room_status = session.status;
  max_cameras = session.max_cameras;
  created_at = session.created_at;
}

unfoldable pub on_sessions : Answer (List Listed) → List Signal
unfolding entry_of
on_sessions (not_ok message) = error message ∷ []
on_sessions (ok none) = error "Could not deserialize FetchSessionReply" ∷ []
on_sessions (ok (some sessions)) = sessions_received (map entry_of sessions) ∷ []

-- A call that finishes, with its answer.
pub data Finished : Type 0 where
  creates : Answer String → Finished
  joins : Answer JoinReply → Finished
  closes : Answer Bool → Finished
  lists : Answer (List Listed) → Finished

unfoldable pub on_finished : Finished → List Signal
unfolding on_created on_joined on_closed on_sessions
on_finished (creates a) = on_created a
on_finished (joins a) = on_joined a
on_finished (closes a) = on_closed a
on_finished (lists a) = on_sessions a
