-- ===== src/Client/SessionController/Reached.antt =====
-- The states that CameraSessionController (client/src/session/session_controller.cpp) reaches from
-- its construction.
use direct_link.Base.{◌≡◌, List}
use direct_link.VideoCore.Ffmpeg.{Ffmpeg}
use direct_link.Client.Task.{moves}
use direct_link.Client.CameraSession.Running.{Inv}
use direct_link.Client.SessionController.{Controller, Label, Signal, new, fire}
use direct_link.Client.SessionController.Starting.{IsPending, Allowed}

module _ {f : Ffmpeg} where
  -- Each step is one that the callers' rule admits in its state.
  pub data Reached : Controller f → Type 0 where
    begins : Reached (new f)
    steps :
        {c d : Controller f} {ss : List Signal} (l : Label)
        → Reached c
        → Allowed f l c
        → fire f l c ≡ moves (d, ss)
        → Reached d

  -- One `finished` is posted exactly when the start has returned, and the session has its invariant.
  abbrev pub Sound : Controller f → Type 0
  Sound c = IsPending f c × Inv f c.session
