-- ===== src/VideoCore/Pipeline/Threads.antt =====
-- video-core/src/pipeline/video_pipeline.cpp: the capture callback (lines 52 to 67), `encodeLoop`
-- and `stop`, as three threads that share the frame queue, its condition variable and the stop
-- token of the encode thread.
--
-- A label names the thread that moves and where it stands; `fire` gives the next state, or `none`
-- where that thread cannot move. What runs under `queueMutex_` is one step. The predicate of
-- `wait`, the test behind it and the `pop` are one step too: a stop request that comes between
-- them changes none of their outcomes, since the queue cannot change meanwhile.
use direct_link.Base.{
  ℕ, ◌+◌, ◌%◌, ◌≡◌, Bool, true, false, Option, none, some, List, [], ◌∷◌, ◌++◌, length, leb,
  if◌then◌else◌,
}
pub mod Invariant
pub mod Order
pub mod Taken
pub mod Shutdown
mod Tests

abbrev pub queue_capacity : ℕ
queue_capacity = 3

-- `std::atomic<int>::operator++`: the counter is read as its 32 bits, and wraps.
abbrev pub increment : ℕ → ℕ
increment n = (n + 1) % 4294967296

-- Where the encode thread stands in `encodeLoop`.
pub data EncodePc (F : Type 0) : Type 0 where
  loop_head : EncodePc F  -- about to test `stop_requested`
  at_lock : EncodePc F  -- about to take the lock and to evaluate the predicate
  waiting : EncodePc F  -- blocked in `wait`, until notified
  encoding : F → EncodePc F  -- in `encodeFrame`, with no lock
  exited : EncodePc F

-- Where the capture thread stands in the frame callback.
pub data CapturePc : Type 0 where
  ready : CapturePc  -- between two frames
  pushed : CapturePc  -- about to notify
  notified : CapturePc  -- about to count the frame
  joined : CapturePc  -- joined by `CameraCapture::stop`

-- Where the thread that owns the pipeline stands in `stop`.
pub data OwnerPc : Type 0 where
  running : OwnerPc  -- `stop` is not called
  capture_stopped : OwnerPc  -- about to notify all
  all_notified : OwnerPc  -- about to assign `jthread()`: request the stop, then join
  joining : OwnerPc  -- the stop is requested, blocked in `join`
  stopped : OwnerPc

-- `taken`, `lost` and `captured` record the history: the frames that left the queue for the
-- encoder, those that were dropped, and all that were pushed. The code keeps none of them.
pub record Threads (F : Type 0) : Type 0 where
  pub frame_queue : List F  -- oldest first
  pub frames_dropped : ℕ
  pub frame_count : ℕ
  pub stop_requested : Bool
  pub encode_pc : EncodePc F
  pub capture_pc : CapturePc
  pub owner_pc : OwnerPc
  pub taken : List F
  pub lost : List F
  pub captured : List F

pub data Label (F : Type 0) : Type 0 where
  capture_push : F → Label F
  capture_notify capture_count : Label F
  encode_step : Label F
  owner_step : Label F
  spurious_wakeup : Label F

module _ {F : Type 0} where
  -- The state in which the first `start` leaves the threads.
  unfoldable pub started : Threads F
  started = record {
    frame_queue = [];
    frames_dropped = 0;
    frame_count = 0;
    stop_requested = false;
    encode_pc = loop_head;
    capture_pc = ready;
    owner_pc = running;
    taken = [];
    lost = [];
    captured = [];
  }

  -- `if (frameQueue_.size() >= QUEUE_CAPACITY) { frameQueue_.pop(); framesDropped_++; }`
  pub make_room : List F → Threads F → Threads F
  make_room [] s = s
  make_room (f ∷ fs) s =
      if leb queue_capacity (length (f ∷ fs))
      then record s {
        frame_queue = fs;
        frames_dropped = increment s.frames_dropped;
        lost = s.lost ++ f ∷ [];
      }
      else s

  -- The locked part of the frame callback.
  pub push_frame : F → Threads F → Threads F
  unfolding make_room
  push_frame f s =
      let t = make_room s.frame_queue s in
      record t {
        frame_queue = t.frame_queue ++ f ∷ [];
        capture_pc = pushed;
        captured = t.captured ++ f ∷ [];
      }

  -- `notify_one` and `notify_all`: one thread at most waits on the condition variable.
  pub wake : EncodePc F → EncodePc F
  wake waiting = at_lock
  wake pc = pc

  -- The locked part of `encodeLoop`.
  take_frame : List F → Threads F → Threads F
  take_frame [] s = record s { encode_pc = if s.stop_requested then exited else waiting }
  take_frame (f ∷ fs) s = record s {
    frame_queue = fs;
    encode_pc = encoding f;
    taken = s.taken ++ f ∷ [];
  }

  encode_next : EncodePc F → Threads F → Option (Threads F)
  unfolding take_frame
  encode_next loop_head s =
      some (record s { encode_pc = if s.stop_requested then exited else at_lock })
  encode_next at_lock s = some (take_frame s.frame_queue s)
  encode_next waiting s = none
  encode_next (encoding f) s = some (record s { encode_pc = loop_head })
  encode_next exited s = none

  capture_next : Label F → CapturePc → Threads F → Option (Threads F)
  unfolding push_frame wake
  capture_next (capture_push f) ready s = some (push_frame f s)
  capture_next capture_notify pushed s =
      some (record s { encode_pc = wake s.encode_pc; capture_pc = notified })
  capture_next capture_count notified s =
      some (record s { frame_count = increment s.frame_count; capture_pc = ready })
  capture_next l pc s = none

  -- `captureDevice_->stop()` returns once the capture thread is between two frames and has ended.
  join_capture : CapturePc → Threads F → Option (Threads F)
  join_capture ready s = some (record s { capture_pc = joined; owner_pc = capture_stopped })
  join_capture pc s = none

  join_encode : EncodePc F → Threads F → Option (Threads F)
  join_encode exited s = some (record s { owner_pc = stopped })
  join_encode pc s = none

  owner_next : OwnerPc → Threads F → Option (Threads F)
  unfolding join_capture wake join_encode
  owner_next running s = join_capture s.capture_pc s
  owner_next capture_stopped s =
      some (record s { encode_pc = wake s.encode_pc; owner_pc = all_notified })
  owner_next all_notified s = some (record s { stop_requested = true; owner_pc = joining })
  owner_next joining s = join_encode s.encode_pc s
  owner_next stopped s = none

  -- The standard lets `wait` return with no notification.
  spurious : EncodePc F → Threads F → Option (Threads F)
  spurious waiting s = some (record s { encode_pc = at_lock })
  spurious pc s = none

  unfoldable pub fire : Label F → Threads F → Option (Threads F)
  unfolding capture_next encode_next owner_next spurious
  fire encode_step s = encode_next s.encode_pc s
  fire owner_step s = owner_next s.owner_pc s
  fire spurious_wakeup s = spurious s.encode_pc s
  fire l s = capture_next l s.capture_pc s

  -- Every interleaving of the three threads.
  pub data Steps (s : Threads F) : Threads F → Type 0 where
    here : Steps s s
    next : {t u : Threads F} → Steps s t → (l : Label F) → fire l t ≡ some u → Steps s u
