-- ===== src/Client/SessionController/Tests.antt =====
-- A controller whose session starts well, and a preview of three rows.
use direct_link.Base.{true}
use direct_link.VideoCore.Encode.Sample.{counting}
use direct_link.Client.Task.{running, returned}
use direct_link.Client.CameraSession.Sample.{started}
use direct_link.Client.SessionController.{Controller, new}
use direct_link.Client.SessionController.Reached.{Reached}

abbrev waiting : Controller counting
waiting = record (new counting) {
  start_task = running;
  credentials = ("http://localhost/whip", "key");
}

-- The session runs, and `finished` waits.
abbrev came_up : Controller counting
came_up = record waiting { session = started; start_task = returned true; finishes = 1 }
