-- ===== src/Client/CameraSession/StartSteps/Tests.antt =====
-- A session that starts while `stop` is called three times.
use direct_link.Base.{◌≡◌, refl, true, false, List, [], ◌∷◌, ◌++◌}
use direct_link.VideoCore.Encode.Sample.{counting}
use direct_link.VideoCore.Capture
use direct_link.VideoCore.Pipeline
use direct_link.Networking.Publisher
use direct_link.Client.CameraSession.{new, start, push_packets}
use direct_link.Client.CameraSession.Sample.{answers}
use direct_link.Client.CameraSession.Running.{new-Inv}
use direct_link.Client.CameraSession.StartSteps.{Move, advances, stops, entered, returned, run}
use direct_link.Client.CameraSession.StartSteps.Lost.{is_settled, steps, stop_during_start_lost}

abbrev moves : List Move
moves = stops true ∷ advances ∷ advances ∷ stops false ∷ advances ∷ advances ∷ stops true ∷ []

under_way :
    is_settled (run counting "http://localhost/whip" "key" answers moves (new counting, entered)).1
    ≡ false
unfolding run push_packets Pipeline.initialize Capture.initialize Publisher.initialize
    Publisher.start Publisher.push_packet Publisher.set_keyframe_request_callback
under_way = refl

stop_during_start_lost_example :
    let r = start counting (new counting) "http://localhost/whip" "key" answers in
    (run counting "http://localhost/whip" "key" answers (moves ++ steps 7) (new counting, entered)
      ≡ (r.0, returned r.1))
    × (r.0.is_running ≡ r.1)
stop_during_start_lost_example =
    stop_during_start_lost counting "http://localhost/whip" "key" answers (new counting) moves
      (new-Inv counting) refl under_way
