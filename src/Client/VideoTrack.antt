-- ===== src/Client/VideoTrack.antt =====
-- client/src/videotrack.cpp and include/videotrack.hpp: a track of a room, its stream, and the loop in the
-- pool that reads the stream into the frame reader. Streams are numbered as they are made; a closed
-- stream ends the loop.
use direct_link.Base.{
  ℕ, suc, Bool, true, false, not, ◌||◌, ◌&&◌, if◌then◌else◌, Option, none, some, is_some, List, [],
  ◌∷◌, ◌++◌, ltb, ℤ, pos, pos_part,
}
use direct_link.Base.Memory.{Bytes}
use direct_link.Client.Task.{Outcome, moves, ◌>>=◌}
use direct_link.Client.FrameReader.{Reader, Frame, Mapped, Shown, same_sink, push_frame}
use direct_link.Client.FrameReader
pub mod Reading
pub mod Sample
mod Tests

pub data Signal : Type 0 where
  video_sink_changed aspect_ratio_changed : Signal

-- `ratio` is the width over the height. `loop` is the local variable of the read loop, if it runs:
-- whether it has stored a ratio.
pub record Track : Type 0 where
  pub reader : Reader
  pub stream : Option ℕ
  pub streams_made : ℕ
  pub loop : Option Bool
  pub ratio : ℤ × ℤ

-- `!m_readFuture.isRunning()` is asked before.
start_read : Track → Track
start_read t = if is_some t.loop then t else record t { loop = some false }

-- The stream is closed, and the loop is waited for.
unfoldable pub unset_track : Track → Track
unset_track t = record t { stream = none; loop = none }

attach_stream : Bool → Track → Track × Bool
unfolding start_read
attach_stream false t = (t, false)
attach_stream true t =
    let u = record t { stream = some t.streams_made; streams_made = suc t.streams_made } in
    (if is_some u.reader.sink then start_read u else u, true)

-- `made` says whether the SDK makes a stream of the track.
unfoldable pub set_track : Bool → Track → Track × Bool
unfolding unset_track attach_stream
set_track made t = attach_stream made (unset_track t)

unfoldable pub on_video_sink_changed : Track → Track
unfolding start_read
on_video_sink_changed t =
    if is_some t.stream && is_some t.reader.sink && not (is_some t.loop) then start_read t else t

after_sink : Track → Reader × Shown × Bool → Track × Shown × List Signal
unfolding on_video_sink_changed
after_sink t (r, ps, changed) =
    let u = record t { reader = r } in
    (if changed then on_video_sink_changed u else u, ps, video_sink_changed ∷ [])

unfoldable pub set_video_sink : Track → Option ℕ → Mapped → Outcome (Track × Shown × List Signal)
unfolding FrameReader.set_video_sink after_sink
set_video_sink t sink mapped =
    if same_sink t.reader.sink sink
    then moves (t, [], [])
    else FrameReader.set_video_sink t.reader sink mapped >>= λ r. moves (after_sink t r)

-- A frame of the stream, with what `map` and the conversion of the SDK answer for it.
pub record Event : Type 0 where
  pub frame : Frame
  pub mapped : Mapped
  pub converted : Option (Bytes × ℕ)

-- The ratio is stored from a frame that has a height.
unfoldable pub store_ratio : Bool → Event → Track → Track × List Signal
store_ratio true e t = (t, [])
store_ratio false e t =
    if ltb 0 (pos_part e.frame.height)
    then (
      record t { ratio = (e.frame.width, e.frame.height); loop = some true },
      aspect_ratio_changed ∷ [],
    )
    else (t, [])

-- One turn of the loop, with the value of its local variable.
unfoldable pub read_one : Bool → Event → Track → Outcome (Track × Shown × List Signal)
unfolding store_ratio
read_one has_ratio e t =
    let (u, ss) = store_ratio has_ratio e t in
    push_frame u.reader.placeholder (λ i. u.reader.sink) e.mapped e.frame e.converted >>= λ ps.
    moves (u, ps, ss)

-- `m_stream->read` gives these frames one after the other; none of them if the loop does not run.
unfoldable pub read_all : List Event → Track → Outcome (Track × Shown × List Signal)
unfolding read_one
read_all [] t = moves (t, [], [])
read_all (e ∷ es) t = elim t.loop [
  | none ↦ moves (t, [], [])
  | some b ↦ read_one b e t >>= λ (q : Track × Shown × List Signal).
      read_all es q.0 >>= λ (r : Track × Shown × List Signal). moves (r.0, q.1 ++ r.1, q.2 ++ r.2)
]

-- `read` returns false.
unfoldable pub end_loop : Track → Track
end_loop t = record t { loop = none }
