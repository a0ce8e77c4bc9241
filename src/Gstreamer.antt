-- ===== src/Gstreamer.antt =====
-- The answers of GStreamer that the publisher and the camera capture test. Each operation takes the
-- answers that it gets as arguments.
use direct_link.Base.{ℕ}

-- GstState
pub data GstState : Type 0 where
  null ready paused playing : GstState

-- GstStateChangeReturn
pub data StateChange : Type 0 where
  failure success async no_preroll : StateChange

-- GST_SECOND, in nanoseconds.
abbrev pub gst_second : ℕ
gst_second = 1000000000
