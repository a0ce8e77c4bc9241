-- ===== src/Client/SessionController.antt =====
-- client/src/session/session_controller.cpp and session_controller.hpp: the camera session for the user
-- interface, which starts in the pool, and the preview of its frames. `CameraSession::start` in the pool
-- and a call of the main thread take turns here; log lines are left out.
use direct_link.Base.{
  ℕ, zero, suc, ◌/◌, min, Bool, true, false, not, ◌&&◌, if◌then◌else◌, String, Option, none, some,
  List, [], ◌∷◌, ◌++◌, ℤ, pos_part,
}
use direct_link.Base.Memory.{copy_rows}
use direct_link.VideoCore.Ffmpeg.{Ffmpeg}
use direct_link.Client.Task.{
  Task, absent, running, returned, is_running, take_result, Outcome, moves, disabled, blocks, ◌>>=◌,
}
use direct_link.Client.FrameReader.{Plane, Picture, yuv420p, Shown, same_sink}
use direct_link.Client.CameraSession.{Session, Answers}
use direct_link.Client.CameraSession
pub mod Starting
pub mod Sessions
pub mod Reached
pub mod Preview
mod Tests

pub data Signal : Type 0 where
  session_started session_stopped error_occurred preview_sink_changed : Signal

-- `credentials` are those of the function in the pool; `finishes` counts the posted `finished` of the
-- watchers that are not yet delivered. `preview_of` is the sink that the preview callback holds.
pub record Controller (f : Ffmpeg) : Type 0 where
  pub session : Session f
  pub start_task : Task Bool
  pub credentials : String × String
  pub finishes : ℕ
  pub preview_sink : Option ℕ
  pub preview_of : Option ℕ

pub data Label : Type 0 where
  starts : String → String → Label
  pool_starts : Answers → Label
  delivers : Label
  stops : Bool → Bool → Label  -- whether the encode thread ends, so that the join returns
  sets_preview_sink : Option ℕ → Label

abbrev held : Option ℕ → Option ℕ → Option ℕ
held none old = old
held (some sink) old = some sink

module _ (f : Ffmpeg) where
  abbrev pub new : Controller f
  new = record {
    session = CameraSession.new f;
    start_task = absent;
    credentials = ("", "");
    finishes = 0;
    preview_sink = none;
    preview_of = none;
  }

  -- The callback is set only if there is a sink, which it then holds.
  abbrev wired : Option ℕ → Session f → Session f
  wired none s = s
  wired (some sink) s = CameraSession.set_preview_callback f s true

  unfoldable pub start : Controller f → String → String → Controller f
  start c whip_url stream_key = if is_running c.start_task then c else record c {
    session = wired c.preview_sink c.session;
    preview_of = held c.preview_sink c.preview_of;
    start_task = running;
    credentials = (whip_url, stream_key);
  }

  -- The slot of `finished`, with the result of the watcher that the member points to.
  unfoldable pub deliver : Controller f → Bool → Controller f × List Signal
  deliver c success =
      (record c { start_task = absent }, (if success then session_started else error_occurred) ∷ [])

  unfoldable pub stop : Controller f → Bool → Controller f × List Signal
  stop c flow_ok =
      (record c { session = (CameraSession.stop f c.session flow_ok).0 }, session_stopped ∷ [])

  -- `stop` in the main thread: with an encode thread, it waits in the join until that thread ends.
  unfoldable pub stop_joining : Controller f → Bool → Bool → Outcome (Controller f × List Signal)
  unfolding stop
  stop_joining c flow_ok joins =
      if c.session.is_running && c.session.pipeline.encode_thread && not joins
      then blocks
      else moves (stop c flow_ok)

  unfoldable pub set_preview_sink : Controller f → Option ℕ → Controller f × List Signal
  unfolding same_sink
  set_preview_sink c sink =
      if same_sink c.preview_sink sink
      then (c, [])
      else (record c { preview_sink = sink }, preview_sink_changed ∷ [])

  -- `session_->start` in the pool.
  unfoldable pub pool_start :
      Task Bool → Controller f → Answers → Outcome (Controller f × List Signal)
  pool_start running c a =
      let (url, key) = c.credentials in
      let (s, success) = CameraSession.start f c.session url key a in
      moves (record c { session = s; start_task = returned success; finishes = suc c.finishes }, [])
  pool_start task c a = disabled

  -- `~CameraSessionController` waits while the session's start is in the pool; then the session, which
  -- it alone owns, is destroyed as it is.
  unfoldable pub destroy : Controller f → Outcome (Session f)
  destroy c = if is_running c.start_task then disabled else moves c.session

  unfoldable pub deliver_one : ℕ → Controller f → Outcome (Controller f × List Signal)
  unfolding deliver
  deliver_one zero c = disabled
  deliver_one (suc n) c =
      take_result c.start_task >>= λ success. moves (deliver (record c { finishes = n }) success)

  unfoldable pub fire : Label → Controller f → Outcome (Controller f × List Signal)
  unfolding start pool_start deliver_one stop_joining set_preview_sink
  fire (starts url key) c = moves (start c url key, [])
  fire (pool_starts a) c = pool_start c.start_task c a
  fire delivers c = deliver_one c.finishes c
  fire (stops flow_ok joins) c = stop_joining c flow_ok joins
  fire (sets_preview_sink sink) c = moves (set_preview_sink c sink)

  -- Steps in this order, with the signals of all.
  unfoldable pub run : List Label → Controller f → Outcome (Controller f × List Signal)
  unfolding fire
  run [] c = moves (c, [])
  run (l ∷ ls) c = fire l c >>= λ (q : Controller f × List Signal).
      run ls q.0 >>= λ (r : Controller f × List Signal). moves (r.0, q.1 ++ r.1)

-- The rows of a plane that the preview copies.
abbrev pub copied_height : Bool → ℕ → ℕ
copied_height true height = height
copied_height false height = height / 2

unfoldable pub preview_plane : Bool → ℕ → Plane → Plane → Plane
unfolding copy_rows
preview_plane is_luma height dst src = record dst {
  bytes =
      copy_rows (copied_height is_luma height) dst.bytes dst.stride src.bytes src.stride
        (min src.stride dst.stride);
}

-- The preview callback: the frame, if there is one, and the frame of Qt, if it maps.
unfoldable pub preview :
    ℕ → Option (Plane × Plane × Plane) → ℤ → ℤ → Option (Plane × Plane × Plane) → Shown
unfolding preview_plane
preview sink none width height mapped = []
preview sink (some source) width height none = []
preview sink (some (y, u, v)) width height (some (dy, du, dv)) =
    let h = pos_part height in
    (
      sink,
      yuv420p width height (preview_plane true h dy y) (preview_plane false h du u)
          (preview_plane false h dv v),
    )
    ∷ []
