-- ===== src/Client/CameraSession/Live.antt =====
-- A running camera session (client/src/session/camera_session.cpp) with the three threads of its
-- pipeline: the frames go from the camera through the queue, encoder and publisher to the network.
-- No keyframe is requested meanwhile.
use direct_link.Base.{◌≡◌, Bool, Option, none, some, List, [], ◌∷◌, ◌++◌}
use direct_link.VideoCore.Types.{AvFrame}
use direct_link.VideoCore.Ffmpeg.{Ffmpeg}
use direct_link.VideoCore.Pipeline.Threads.{
  Threads, Label, encode_step, EncodePc, encoding, started,
}
use direct_link.VideoCore.Pipeline.Threads
use direct_link.Networking.Publisher.{Buffer}
use direct_link.Client.Task.{Outcome, moves, disabled, faults}
use direct_link.Client.CameraSession.{Session}
use direct_link.Client.CameraSession.Encoding.{Wired, encode_frame}
pub mod Network
mod Tests

module _ (f : Ffmpeg) where
  -- A frame with the answer of the source to its packets.
  abbrev pub Shot : Type 0
  Shot = AvFrame f.Image × Bool

  -- `sent` and `done` record the buffers that reached the source and the frames that are encoded.
  pub record Live : Type 0 where
    pub threads : Threads Shot
    pub session : Session f
    pub sent : List (Buffer f.Payload)
    pub done : List Shot

  unfoldable pub begins : Session f → Live
  unfolding started
  begins s = record { threads = started; session = s; sent = []; done = [] }

  unfoldable pub encoded : Shot → Live → Wired f → Outcome Live
  encoded shot s none = faults
  encoded shot s (some (q, bs)) =
      moves (record s { session = q; sent = s.sent ++ bs; done = s.done ++ shot ∷ [] })

  -- The step that leaves `encodeFrame` has made that call.
  work : Label Shot → EncodePc Shot → Live → Outcome Live
  unfolding encoded encode_frame
  work encode_step (encoding shot) s = encoded shot s (encode_frame f s.session shot)
  work l pc s = moves s

  thread_moved : Label Shot → Live → Option (Threads Shot) → Outcome Live
  unfolding work
  thread_moved l s none = disabled
  thread_moved l s (some t) = work l s.threads.encode_pc (record s { threads = t })

  unfoldable pub fire : Label Shot → Live → Outcome Live
  unfolding thread_moved Threads.fire
  fire l s = thread_moved l s (Threads.fire l s.threads)

  -- Every interleaving of the three threads.
  pub data Reached (s : Session f) : Live → Type 0 where
    here : Reached s (begins s)
    next : {t u : Live} → Reached s t → (l : Label Shot) → fire l t ≡ moves u → Reached s u
