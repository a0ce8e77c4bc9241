-- ===== src/Client/CameraSession/Destruction/Tests.antt =====
-- A session that is destroyed while it runs, and one that is stopped before.
use direct_link.Base.{◌≡◌, refl, true, List, []}
use direct_link.VideoCore.Encode.Sample.{counting, camera_frame}
use direct_link.VideoCore.Encode.Create.{nvenc}
use direct_link.VideoCore.Pipeline.Threads.{
  Threads, encode_step, owner_step, exited, ready, joined, stopped, started, Steps, here, next,
}
use direct_link.VideoCore.Pipeline.Threads
use direct_link.Client.Task.{moves, Ensures}
use direct_link.Client.CameraSession.{Session, stop}
use direct_link.Client.CameraSession.Sample.{with_encoder, live_state, live_state-Owns}
use direct_link.Client.CameraSession.Live.{Shot, Live, begins}
use direct_link.Client.CameraSession.Destruction.{Label, gone, run}
use direct_link.Client.CameraSession.Destruction.Unstopped.{dying, CanFault, destroyed_unstopped}
use direct_link.Client.CameraSession.Destruction.Stopped.{emptied, all_members, destroyed_stopped}

abbrev session : Session counting
session = with_encoder (nvenc live_state)

abbrev shot : Shot counting
shot = (camera_frame, true)

destroyed_unstopped_example : CanFault counting (dying counting (begins counting session))
destroyed_unstopped_example =
    destroyed_unstopped counting (begins counting session) (nvenc live_state) shot
      (λ h. unfold begins in cc) (unfold begins in refl) live_state-Owns

-- The threads after `stop`, with no frame taken.
abbrev ended_threads : Threads (Shot counting)
ended_threads = record {
  frame_queue = [];
  frames_dropped = 0;
  frame_count = 0;
  stop_requested = true;
  encode_pc = exited;
  capture_pc = joined;
  owner_pc = stopped;
  taken = [];
  lost = [];
  captured = [];
}

ended_threads-Steps : Steps started ended_threads
unfolding started Threads.fire
ended_threads-Steps =
    next
      (next (next (next (next here owner_step refl) owner_step refl) owner_step refl) encode_step
        refl)
      owner_step refl

abbrev ended : Live counting
ended = record { threads = ended_threads; session = session; sent = []; done = [] }

destroyed_stopped_example :
    let u : Live counting = record ended { session = (stop counting session true).0 } in
    ((ls : List (Label counting)) → Ensures (λ q. Unit {0}) (run counting ls (dying counting u)))
    × (run counting (all_members counting) (dying counting u)
        ≡ moves (record { live = emptied counting u; stage = gone }))
destroyed_stopped_example =
    destroyed_stopped counting ended (nvenc live_state) true ended_threads-Steps refl refl refl
      live_state-Owns
