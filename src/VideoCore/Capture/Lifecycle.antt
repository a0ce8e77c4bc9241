-- ===== src/VideoCore/Capture/Lifecycle.antt =====
-- `start` and `stop` of video-core/src/capture/camera_capture.cpp, and the end of the capture thread.
use direct_link.Base.{◌≡◌, ◌∙◌, ap, refl, Bool, true, false, if◌then◌else◌, List, [], ◌∷◌, arith}
use direct_link.VideoCore.Types.{success, error_init_failed, error_capture_failed}
use direct_link.Gstreamer.{playing}
use direct_link.VideoCore.Capture.{
  Capture, absent, looping, ended, Playing, plays, start, stop, loop_ends,
}

-- The thread loops exactly while `running_` is set, and only on a pipeline that plays.
pub record Inv (c : Capture) : Type 0 where
  pub looping_if_running : c.running ≡ true → c.capture_thread ≡ looping
  pub running_if_looping : c.capture_thread ≡ looping → c.running ≡ true
  pub playing_if_running : c.running ≡ true → (c.pipeline ≡ true) × (c.requested ≡ playing)

pub data Event : Type 0 where
  starts : Bool → Playing → Event
  stops : Event
  loop_fails : Event

-- The loop can end by itself only while it runs.
pub step : Event → Capture → Capture
step (starts cb g) c = (start c cb g).0
step stops c = (stop c).0
step loop_fails c = elim c.capture_thread [ looping ↦ loop_ends c | _ ↦ c ]

-- Each call of `start` or `stop`, and the end of the loop by itself, keeps the invariant: the
-- thread is in its loop exactly while `running_` is set, and then on a pipeline that was asked to
-- play.
pub step-Inv : (e : Event) (c : Capture) → Inv c → Inv (step e c)
unfolding step start stop loop_ends
step-Inv (starts cb g) c v = ground arith
step-Inv stops c v = ground arith
step-Inv loop_fails c v = ground arith

-- `start` of an initialized capture whose thread was joined: it runs exactly when GStreamer reaches
-- PLAYING; if not, it reports ErrorCaptureFailed and can be started again.
pub start-plays :
    (c : Capture) (cb : Bool) (g : Playing)
    → c.pipeline ≡ true
    → c.running ≡ false
    → c.capture_thread ≡ absent
    → ((start c cb g).0.running ≡ plays g)
      × ((start c cb g).1 ≡ (if plays g then success else error_capture_failed))
      × ((start c cb g).0.capture_thread ≡ (if plays g then looping else absent))
unfolding start
start-plays c cb g p r t = ground arith

pub run : List Event → Capture → Capture
run [] c = c
run (e ∷ es) c = run es (step e c)

step_ended :
    (e : Event) (c : Capture)
    → c.running ≡ false
    → c.capture_thread ≡ ended
    → c.pipeline ≡ true
    → step e c ≡ c
unfolding step start stop
step_ended (starts cb g) c r t p = ground arith
step_ended stops c r t p = ground arith
step_ended loop_fails c r t p = ground arith

run_ended :
    (c : Capture) (es : List Event)
    → c.running ≡ false
    → c.capture_thread ≡ ended
    → c.pipeline ≡ true
    → run es c ≡ c
unfolding run
run_ended c [] r t p = refl
run_ended c (e ∷ es) r t p = ap (run es) (step_ended e c r t p) ∙ run_ended c es r t p

start_ended :
    (c : Capture) (cb : Bool) (g : Playing)
    → c.running ≡ false
    → c.capture_thread ≡ ended
    → c.pipeline ≡ true
    → (start c cb g).1 ≡ error_init_failed
unfolding start
start_ended c cb g r t p = ground arith

-- Once the loop of a capture with a pipeline has ended by an error or the end of the stream, no
-- sequence of calls of `start` and `stop` changes the capture, and every `start` is refused:
-- `stop` returns early and never joins the thread.
pub loop_ends_forever :
    (c : Capture) (es : List Event) (cb : Bool) (g : Playing)
    → c.capture_thread ≡ looping
    → c.pipeline ≡ true
    → (run es (loop_ends c) ≡ loop_ends c)
      × ((start (run es (loop_ends c)) cb g).1 ≡ error_init_failed)
unfolding loop_ends
loop_ends_forever c es cb g t p =
    let q = run_ended (loop_ends c) es refl refl p in
    (q, rw q (start_ended (loop_ends c) cb g refl refl p))
