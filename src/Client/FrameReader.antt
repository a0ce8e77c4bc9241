-- ===== src/Client/FrameReader.antt =====
-- client/src/framereader.cpp and include/framereader.hpp: frames of a LiveKit track that are copied into
-- frames of Qt for a sink. `QVideoFrame::map` and the conversion of the SDK are answers that the
-- caller gives. The main thread may set the sink while the thread of a track pushes a frame, so
-- that each reading of the member has its own value. Log lines are left out; strides lie in `int`.
use direct_link.Base.{
  ℕ, suc, ◌/◌, Bool, true, false, ◌||◌, if◌then◌else◌, Option, none, some, List, [], ◌∷◌, ltb, ◌==◌,
  ℤ, pos, pos_part,
}
use direct_link.Base.Memory.{Bytes, memcpy, copy_rows}
use direct_link.Client.Task.{Outcome, moves, faults, ◌>>=◌}
pub mod Pixels
pub mod Sinks
mod Tests

pub data BufferType : Type 0 where
  rgba i420 other : BufferType

pub record Plane : Type 0 where
  pub bytes : Bytes
  pub stride : ℕ

-- livekit::VideoFrame
pub record Frame : Type 0 where
  pub data_ptr : Option Bytes  -- the null pointer is none
  pub data_size : ℕ
  pub width : ℤ
  pub height : ℤ
  pub kind : BufferType
  pub planes : List Plane

-- The placeholder, in RGBX.
pub record Image : Type 0 where
  pub bytes : Bytes
  pub size : ℕ
  pub width : ℕ
  pub height : ℕ

pub data PixelFormat : Type 0 where
  rgbx8888 rgba8888 : PixelFormat

-- What the sink is given. The sinks are numbered.
pub data Picture : Type 0 where
  packed : PixelFormat → ℤ → ℤ → Bytes → Picture
  yuv420p : ℤ → ℤ → Plane → Plane → Plane → Picture

pub record Reader : Type 0 where
  pub sink : Option ℕ
  pub placeholder : Option Image

-- What `map` makes of the frame of each kind that a call creates: none if it fails, else its memory.
pub record Mapped : Type 0 where
  pub planar : Option (Plane × Plane × Plane)
  pub rgba : Option Bytes
  pub splash : Option Bytes

-- What a sink was given, with the sink.
abbrev pub Shown : Type 0
Shown = List (ℕ × Picture)

-- `m_videoSink->setVideoFrame(…)`
abbrev pub show : Option ℕ → Picture → Outcome Shown
show none p = faults
show (some s) p = moves ((s, p) ∷ [])

-- The readings of `m_videoSink` in a call, one after the other.
abbrev pub Readings : Type 0
Readings = ℕ → Option ℕ

-- `QSize::isEmpty`
abbrev pub is_empty : ℤ → ℤ → Bool
is_empty w h = ltb (pos_part w) 1 || ltb (pos_part h) 1

-- `pushSpan`, from the check of the sink on; its readings are `i` and the next.
abbrev pub fill :
    Option ℕ → Option ℕ → Option Bytes → Bytes → ℕ → PixelFormat → ℤ → ℤ → Outcome (Bool × Shown)
fill none later bits bytes size format w h = moves (false, [])
fill (some s) later none bytes size format w h = moves (false, [])
fill (some s) later (some bits) bytes size format w h =
    show later (packed format w h (memcpy bits 0 bytes 0 size)) >>= λ ps. moves (true, ps)

unfoldable pub push_span :
    Readings → ℕ → Option Bytes → Bytes → ℕ → PixelFormat → ℤ → ℤ → Outcome (Bool × Shown)
unfolding memcpy
push_span sinks i bits bytes size format w h =
    fill (sinks i) (sinks (suc i)) bits bytes size format w h

-- `pushFrame()`
unfoldable pub push_placeholder : Option Image → Readings → ℕ → Mapped → Outcome Shown
unfolding push_span
push_placeholder none sinks i mapped = moves []
push_placeholder (some image) sinks i mapped =
    push_span sinks i mapped.splash image.bytes image.size rgbx8888 (pos image.width)
      (pos image.height)
    >>= λ (r : Bool × Shown). moves r.1

unfoldable pub same_sink : Option ℕ → Option ℕ → Bool
same_sink none none = true
same_sink (some a) (some b) = a == b
same_sink a b = false

-- With whether `videoSinkChanged` is emitted.
unfoldable pub set_video_sink : Reader → Option ℕ → Mapped → Outcome (Reader × Shown × Bool)
unfolding same_sink push_placeholder
set_video_sink r sink mapped =
    if same_sink r.sink sink
    then moves (r, [], false)
    else push_placeholder r.placeholder (λ i. sink) 0 mapped >>= λ ps.
        moves (record r { sink = sink }, ps, true)

-- The planes of an I420 frame in a frame of Qt: a chroma plane has half the rows, half as wide.
unfoldable pub copy_planes :
    ℕ → ℕ → Plane × Plane × Plane → Plane × Plane × Plane → Plane × Plane × Plane
unfolding copy_rows
copy_planes w h (dy, du, dv) (y, u, v) = (
  record dy { bytes = copy_rows h dy.bytes dy.stride y.bytes y.stride w },
  record du { bytes = copy_rows (h / 2) du.bytes du.stride u.bytes u.stride (w / 2) },
  record dv { bytes = copy_rows (h / 2) dv.bytes dv.stride v.bytes v.stride (w / 2) },
)

abbrev pub show_planar :
    Option ℕ → Option (Plane × Plane × Plane) → ℤ → ℤ → Plane × Plane × Plane → Outcome Shown
show_planar later none w h planes = moves []
show_planar later (some target) w h planes =
    let (y, u, v) = copy_planes (pos_part w) (pos_part h) target planes in
    show later (yuv420p w h y u v)

module _ (placeholder : Option Image) (sinks : Readings) (mapped : Mapped) where
  unfoldable pub after_span : ℕ → Bool × Shown → Outcome Shown
  after_span i (true, ps) = moves ps
  after_span i (false, ps) = push_placeholder placeholder sinks i mapped

  -- The fallback, for the bytes of an RGBA frame.
  unfoldable pub push_rgba : ℕ → ℤ → ℤ → Bytes → ℕ → Outcome Shown
  push_rgba i w h bytes size =
      push_span sinks i mapped.rgba bytes size rgba8888 w h >>= λ r. after_span (suc i) r

  unfoldable pub push_converted : ℕ → ℤ → ℤ → Option (Bytes × ℕ) → Outcome Shown
  push_converted i w h none = push_placeholder placeholder sinks i mapped
  push_converted i w h (some (bytes, size)) = push_rgba i w h bytes size

  unfoldable pub push_i420 : Option ℕ → ℤ → ℤ → List Plane → Option (Bytes × ℕ) → Outcome Shown
  push_i420 none w h planes converted = moves []
  push_i420 (some s) w h (y ∷ u ∷ v ∷ rest) converted =
      show_planar (sinks 1) mapped.planar w h (y, u, v)
  push_i420 (some s) w h planes converted = push_converted 1 w h converted

  unfoldable pub push_kind : Frame → Bytes → Option (Bytes × ℕ) → BufferType → Outcome Shown
  push_kind frame bytes converted rgba = push_rgba 0 frame.width frame.height bytes frame.data_size
  push_kind frame bytes converted i420 =
      push_i420 (sinks 0) frame.width frame.height frame.planes converted
  push_kind frame bytes converted other = push_converted 0 frame.width frame.height converted

  unfoldable pub push_data : Frame → Option (Bytes × ℕ) → Option Bytes → Outcome Shown
  push_data frame converted none = push_placeholder placeholder sinks 0 mapped
  push_data frame converted (some bytes) =
      if frame.data_size == 0
      then push_placeholder placeholder sinks 0 mapped
      else if is_empty frame.width frame.height
      then push_placeholder placeholder sinks 0 mapped
      else push_kind frame bytes converted frame.kind

  -- `pushFrame(frame)`; `converted` is what the SDK makes of the frame in RGBA, none if it throws.
  unfoldable pub push_frame : Frame → Option (Bytes × ℕ) → Outcome Shown
  unfolding push_data push_kind push_i420 push_converted push_rgba after_span
  push_frame frame converted = push_data frame converted frame.data_ptr
