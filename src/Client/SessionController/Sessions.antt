-- ===== src/Client/SessionController/Sessions.antt =====
-- The camera session that client/src/session/session_controller.cpp starts and stops.
use direct_link.Base.{
  ◌≡◌, refl, inl, inr, Bool, String, List, Option, none, some, both_branches, ◌&&◌, not, ℕ, zero,
  suc, Bool-cases,
}
use direct_link.VideoCore.Ffmpeg.{Ffmpeg}
use direct_link.VideoCore.Pipeline
use direct_link.Client.Task.{Task, absent, running, returned, is_running, OnMove}
use direct_link.Client.CameraSession.{Session, Answers}
use direct_link.Client.CameraSession
use direct_link.Client.CameraSession.Running.{Inv, start-Inv, stop_ends}
use direct_link.Client.CameraSession.Parts.{start_busy, stop_idle}
use direct_link.Client.SessionController.{
  Signal, Controller, Label, starts, pool_starts, delivers, stops, sets_preview_sink, start, stop,
  stop_joining, deliver, deliver_one, pool_start, set_preview_sink, fire, wired,
}
use direct_link.Client.FrameReader.{same_sink}

module _ (f : Ffmpeg) where
  start-kept :
      (s : Session f) (url key : String) (a : Answers)
      → Inv f s
      → Inv f (CameraSession.start f s url key a).0
  start-kept s url key a v = elim (Bool-cases s.is_running) [
    | inr idle ↦ (start-Inv f s url key a v idle).0
    | inl runs ↦ rw (start_busy f s url key a runs) v
  ]

  stop-kept : (s : Session f) (flow_ok : Bool) → Inv f s → Inv f (CameraSession.stop f s flow_ok).0
  stop-kept s flow_ok v = elim (Bool-cases s.is_running) [
    | inr idle ↦ rw (stop_idle f s flow_ok idle) v
    | inl runs ↦ (stop_ends f s flow_ok v runs).0
  ]

  wired-kept : (sink : Option ℕ) (s : Session f) → Inv f s → Inv f (wired f sink s)
  unfolding CameraSession.set_preview_callback Pipeline.set_preview_callback
  wired-kept none s v = v
  wired-kept (some sink) s v = record {
    published_if_running = v.published_if_running;
    complete = v.complete;
    threaded = v.threaded;
  }

  pool_start-kept :
      (task : Task Bool) (c : Controller f) (a : Answers)
      → Inv f c.session
      → OnMove (λ q. Inv f (q.0).session) (pool_start f task c a)
  unfolding pool_start
  pool_start-kept running c a v = start-kept c.session c.credentials.0 c.credentials.1 a v
  pool_start-kept absent c a v = tt
  pool_start-kept (returned b) c a v = tt

  deliver_one-kept :
      (n : ℕ) (task : Task Bool) (c : Controller f)
      → c.start_task ≡ task
      → Inv f c.session
      → OnMove (λ q. Inv f (q.0).session) (deliver_one f n c)
  unfolding deliver_one deliver
  deliver_one-kept zero task c e v = tt
  deliver_one-kept (suc n) absent c e v = rw e tt
  deliver_one-kept (suc n) running c e v = rw e tt
  deliver_one-kept (suc n) (returned b) c e v = rw e v

  stop_joining-kept :
      (c : Controller f) (flow_ok joins : Bool)
      → Inv f c.session
      → OnMove (λ q. Inv f (q.0).session) (stop_joining f c flow_ok joins)
  unfolding stop_joining stop
  stop_joining-kept c flow_ok joins v =
      elim (Bool-cases (c.session.is_running && c.session.pipeline.encode_thread && not joins)) [
        | inl e ↦ rw e tt
        | inr e ↦ rw e (stop-kept c.session flow_ok v)
      ]

  -- Every step, whatever it is, keeps the invariant of the session.
  pub fire-kept :
      (l : Label) (c : Controller f)
      → Inv f c.session
      → OnMove (λ q. Inv f (q.0).session) (fire f l c)
  unfolding fire start stop set_preview_sink
  fire-kept (starts url key) c v =
      both_branches (λ (q : Controller f). Inv f q.session) (is_running c.start_task) v
        (wired-kept c.preview_sink c.session v)
  fire-kept (pool_starts a) c v = pool_start-kept c.start_task c a v
  fire-kept delivers c v = deliver_one-kept c.finishes c.start_task c refl v
  fire-kept (stops flow_ok joins) c v = stop_joining-kept c flow_ok joins v
  fire-kept (sets_preview_sink sink) c v =
      both_branches (λ (q : Controller f × List Signal). Inv f (q.0).session)
        (same_sink c.preview_sink sink) v v
