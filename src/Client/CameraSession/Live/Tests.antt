-- ===== src/Client/CameraSession/Live/Tests.antt =====
-- A session that takes a frame from the camera and sends it.
use mathlib.Core.Path.{subst}
use direct_link.Base.{ℕ, ◌≡◌, refl, ap, Bool, true, map, some, List, [], ◌∷◌, ◌++◌}
use direct_link.VideoCore.Types.{Packet}
use direct_link.VideoCore.Encode.{receive_packets, wrap_packet}
use direct_link.VideoCore.Encode.Sample.{counting, camera_frame}
use direct_link.VideoCore.Encode.Create.{Encoder, nvenc}
use direct_link.VideoCore.Encode.Create
use direct_link.VideoCore.Pipeline.Threads.{Label, capture_push, encode_step}
use direct_link.VideoCore.Pipeline.Threads.Order.{IsFifo}
use direct_link.VideoCore.Pipeline.Threads.Taken.{in_hand}
use direct_link.Networking.Publisher.Timing.{push_all}
use direct_link.Networking.Publisher
use direct_link.Client.Task.{Outcome, moves, disabled, blocks, faults, Ensures, ◌>>=◌}
use direct_link.Client.CameraSession.{Session, push_packets}
use direct_link.Client.CameraSession.Encoding.{encode_all}
use direct_link.Client.CameraSession.Sample.{with_encoder, live_state, live_state-Owns}
use direct_link.Client.CameraSession.Live.{Shot, Live, begins, fire, Reached, here, next}
use direct_link.Client.CameraSession.Live.Network.{camera_to_network}

abbrev session : Session counting
session = with_encoder (nvenc live_state)

abbrev shot : Shot counting
shot = (camera_frame, true)

replay : List (Label (Shot counting)) → Live counting → Outcome (Live counting)
replay [] t = moves t
replay (l ∷ ls) t = fire counting l t >>= λ u. replay ls u

landed : Outcome (Live counting) → Live counting
landed (moves t) = t
landed o = begins counting session

module _ (u : Live counting) where
  after-Reached :
      (rest : Live counting → Outcome (Live counting)) (l : Label (Shot counting))
      (t : Live counting) (o : Outcome (Live counting))
      → Reached counting session t
      → ((v : Live counting)
          → Reached counting session v
          → rest v ≡ moves u
          → Reached counting session u)
      → fire counting l t ≡ o
      → (o >>= rest) ≡ moves u
      → Reached counting session u
  after-Reached rest l t (moves v) r k h e = k v (next r l h) e
  after-Reached rest l t disabled r k h e = cc
  after-Reached rest l t blocks r k h e = cc
  after-Reached rest l t faults r k h e = cc

  replay-Reached :
      (ls : List (Label (Shot counting))) (t : Live counting)
      → Reached counting session t
      → replay ls t ≡ moves u
      → Reached counting session u
  unfolding replay landed
  replay-Reached [] t r e = subst (λ v. Reached counting session v) (ap landed e) r
  replay-Reached (l ∷ ls) t r e =
      after-Reached (λ v. replay ls v) l t (fire counting l t) r (λ v. replay-Reached ls v) refl e

abbrev steps : List (Label (Shot counting))
steps = capture_push shot ∷ encode_step ∷ encode_step ∷ encode_step ∷ []

abbrev arrived : Live counting
arrived = landed (replay steps (begins counting session))

arrives : replay steps (begins counting session) ≡ moves arrived
unfolding replay landed fire push_packets Publisher.push_packet Create.encode_frame begins
    receive_packets wrap_packet
arrives = refl

camera_to_network_example :
    (d : Encoder counting) × (qs : List (Packet ℕ × Bool)) × (encode_all counting
        (nvenc live_state)
        arrived.done
      ≡ some (d, qs))
    × (arrived.sent ≡ (push_all session.publisher qs).1)
    × (arrived.threads.taken ≡ arrived.done ++ in_hand arrived.threads.encode_pc)
    × IsFifo arrived.threads
    × ((l : Label (Shot counting)) → Ensures (λ u. Unit {0}) (fire counting l arrived))
camera_to_network_example =
    camera_to_network counting (nvenc live_state)
      (record { encoder = refl; has_packet_callback = refl; owned = live_state-Owns })
      (replay-Reached arrived steps (begins counting session) here arrives)

-- The frame was encoded, and its packet has reached the source.
arrived_sent : map (λ b. b.payload) arrived.sent ≡ 0 ∷ []
unfolding replay landed fire push_packets Publisher.push_packet Create.encode_frame begins
    receive_packets wrap_packet
arrived_sent = refl
