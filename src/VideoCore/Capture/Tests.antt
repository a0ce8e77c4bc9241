-- ===== src/VideoCore/Capture/Tests.antt =====
-- The camera capture with GStreamer's answers written out.
use direct_link.Base.{◌+◌, ◌*◌, arith, ◌≡◌, refl, ◌⊎◌, true, false, String, List, [], ◌∷◌, Bool}
use direct_link.VideoCore.Types.{error_init_failed}
use direct_link.Gstreamer.{null, ready, paused, playing, failure, async}
use direct_link.Gstreamer
use direct_link.VideoCore.Capture.{
  Capture, looping, Probe, Playing, new, try_candidates, start, loop_ends,
}
use direct_link.VideoCore.Capture.Probing.{Found, Missed, try_candidates_outcome}
use direct_link.VideoCore.Capture.Loop.{VideoFrame, Buffers, CapturedFrame, captures, mapped, turn}
use direct_link.VideoCore.Capture.Loop.Rows.{turn-copied}
use direct_link.VideoCore.Capture.Lifecycle.{starts, stops, run, loop_ends_forever}

abbrev good : Probe
good = record {
  parse_error = false;
  parsed = true;
  set_ready = async;
  get_ready = Gstreamer.success;
  reached = ready;
  sink = true;
}

-- The first has no sink that could be asked for, since it does not reach READY.
abbrev answer : Bool → Probe
answer true = good
answer false = record good { set_ready = failure; sink = false }

abbrev by_name : String → Probe
by_name String.[] = answer false
by_name d = answer true

abbrev both : List String
both = "" ∷ "pipewiresrc" ∷ []

try_candidates_outcome_example :
    Found by_name both new (try_candidates by_name both new)
    ⊎ Missed by_name both new (try_candidates by_name both new)
try_candidates_outcome_example =
    try_candidates_outcome by_name both new ((λ v. absurd (v.set_ready refl)), ((λ v. refl), tt))

abbrev idle : Capture
idle = record new { pipeline = true; appsink = true; requested = ready }

abbrev busy : Capture
busy = record idle {
  running = true;
  capture_thread = looping;
  requested = playing;
  has_callback = true;
}

abbrev reached : Playing
reached = record { set_playing = async; get_playing = Gstreamer.success; reached = playing }

loop_ends_forever_example :
    (run (stops ∷ starts true reached ∷ []) (loop_ends busy) ≡ loop_ends busy)
    × ((start (run (stops ∷ starts true reached ∷ []) (loop_ends busy)) true reached).1
        ≡ error_init_failed)
loop_ends_forever_example =
    loop_ends_forever busy (stops ∷ starts true reached ∷ []) true reached refl refl

-- Two rows of three pixels, each row padded to 8 bytes by the camera and to 32 by FFmpeg.
abbrev small_frame : VideoFrame
small_frame = record {
  width = 3;
  height = 2;
  stride = λ plane. 8;
  data_of = λ plane i. i + 1;
  pts = 40;
}

abbrev odd_frame : VideoFrame
odd_frame = record small_frame { height = 3 }

abbrev buffers : Buffers
buffers = record {
  allocated = true;
  got_buffer = true;
  linesize = λ plane. 32;
  data_of = λ plane i. 0;
}

-- The last chroma row of a picture of odd height.
turn-copied_example :
    (f : CapturedFrame) × (turn (mapped odd_frame) buffers ≡ captures f)
    × (f.width ≡ 3)
    × (f.height ≡ 3)
    × (f.data_of 1 (1 * f.linesize 1 + 0) ≡ odd_frame.data_of 1 (1 * odd_frame.stride 1 + 0))
turn-copied_example =
    turn-copied odd_frame buffers 1 1 0 refl refl (omega arith) (omega arith) (omega arith)
