-- ===== src/VideoCore/Capture/Loop.antt =====
-- One turn of `captureLoop` of video-core/src/capture/camera_capture.cpp, with its copy of the
-- planes. What GStreamer and FFmpeg answer is an argument; log lines are left out.
use direct_link.Base.{
  ℕ, zero, suc, ◌+◌, ◌*◌, ◌-◌, ◌/◌, min, Bool, true, false, not, ◌&&◌, if◌then◌else◌, ltb, leb,
  ◌==◌, ℤ, pos, negsuc, two_64,
}
use direct_link.Base.Memory.{Bytes, copy_rows}
pub mod Rows

abbrev pub plane_height : ℕ → ℕ → ℕ
plane_height plane height = if plane == 0 then height else (height + 1) / 2

-- GstVideoFrame, mapped, and its buffer's time stamp.
pub record VideoFrame : Type 0 where
  pub width : ℕ
  pub height : ℕ
  pub stride : ℕ → ℕ  -- of each plane
  pub data_of : ℕ → Bytes
  pub pts : ℕ

-- What gst_app_sink_try_pull_sample, and the calls on the sample, answer.
pub data Pulled : Type 0 where
  no_sample : Bool → Pulled  -- is an error or the end of the stream on the bus?
  no_buffer : Pulled  -- the sample has no caps or no buffer
  no_info : Pulled  -- the caps are not those of a video
  unmapped : Pulled  -- the frame cannot be mapped
  mapped : VideoFrame → Pulled

-- The AVFrame that av_frame_alloc and av_frame_get_buffer give.
pub record Buffers : Type 0 where
  pub allocated : Bool
  pub got_buffer : Bool
  pub linesize : ℕ → ℕ
  pub data_of : ℕ → Bytes

pub record CapturedFrame : Type 0 where
  pub width : ℕ
  pub height : ℕ
  pub linesize : ℕ → ℕ
  pub data_of : ℕ → Bytes
  pub pts : ℤ

-- The turn ends the loop, goes on, or hands a frame to the callback.
pub data Turn : Type 0 where
  breaks continues : Turn
  captures : CapturedFrame → Turn

-- static_cast<int64_t>
abbrev pub to_i64 : ℕ → ℤ
to_i64 n = if leb 9223372036854775808 n then negsuc (two_64 - n - 1) else pos n

-- GST_CLOCK_TIME_NONE is the greatest guint64.
abbrev pub frame_pts : ℕ → ℤ
frame_pts pts = if pts == 18446744073709551615 then pos 0 else to_i64 pts

-- The loop over the planes, which are 0, 1 and 2.
unfoldable pub copy_planes : VideoFrame → Buffers → CapturedFrame
unfolding copy_rows
copy_planes v b = record {
  width = v.width;
  height = v.height;
  linesize = b.linesize;
  data_of = λ plane.
      if ltb plane 3
      then copy_rows (plane_height plane v.height) (b.data_of plane) (b.linesize plane)
          (v.data_of plane) (v.stride plane) (min (v.stride plane) (b.linesize plane))
      else b.data_of plane;
  pts = frame_pts v.pts;
}

unfoldable pub turn : Pulled → Buffers → Turn
unfolding copy_planes
turn (no_sample posted) b = if posted then breaks else continues
turn no_buffer b = continues
turn no_info b = continues
turn unmapped b = continues
turn (mapped v) b =
    if not b.allocated
    then continues
    else if not b.got_buffer
    then continues
    else captures (copy_planes v b)
