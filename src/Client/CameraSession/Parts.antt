-- ===== src/Client/CameraSession/Parts.antt =====
-- The facts about the pipeline and the publisher on which a camera session
-- (client/src/session/camera_session.cpp) rests.
use direct_link.Base.{◌≡◌, refl, Bool, true, false, String, [], ℤ, arith}
use direct_link.Networking.Publisher.{Publisher, Elements}
use direct_link.Networking.Publisher
use direct_link.Gstreamer.{StateChange, failure, async}
use direct_link.Client.CameraSession.{Session, Answers, start, stop, published}
use direct_link.VideoCore.Ffmpeg.{Ffmpeg}

pub initialize_complete :
    (w : Publisher) (url key : String) (rate : ℤ) (cb : Bool) (g : Elements)
    → let r = Publisher.initialize w url key rate cb g in
      published r.1 ≡ true → (r.0.pipeline ≡ true) × (r.0.appsrc ≡ true)
unfolding Publisher.initialize
initialize_complete w url key rate cb g h = (ground arith, ground arith)

pub initialize-running :
    (w : Publisher) (url key : String) (rate : ℤ) (cb : Bool) (g : Elements)
    → (Publisher.initialize w url key rate cb g).0.running ≡ w.running
unfolding Publisher.initialize
initialize-running w url key rate cb g = ground arith

-- An idle publisher with a pipeline.
pub start-running :
    (w : Publisher) (ret waited : StateChange)
    → w.pipeline ≡ true
    → w.running ≡ false
    → let r = Publisher.start w ret waited in
      (r.0.running ≡ published r.1) × (r.0.pipeline ≡ true) × (r.0.appsrc ≡ w.appsrc)
unfolding Publisher.start
start-running w failure waited p h = ground arith
start-running w async failure p h = ground arith
start-running w async async p h = ground arith
start-running w ret waited p h = ground arith

pub stop-running : (w : Publisher) → w.pipeline ≡ true → (Publisher.stop w).0.running ≡ false
unfolding Publisher.stop
stop-running w p = ground arith

-- `stop` of a session that does not run.
pub stop_idle :
    (f : Ffmpeg) (s : Session f) (flow_ok : Bool)
    → s.is_running ≡ false
    → stop f s flow_ok ≡ (s, [])
unfolding stop
stop_idle f s flow_ok h = rw h refl

-- `start` of a session that runs.
pub start_busy :
    (f : Ffmpeg) (s : Session f) (url key : String) (a : Answers)
    → s.is_running ≡ true
    → start f s url key a ≡ (s, false)
unfolding start
start_busy f s url key a h = rw h refl
