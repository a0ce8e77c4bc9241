-- ===== src/Networking/Publisher/Threads/Tests.antt =====
-- A publisher that is pushed to and stopped, in turn and at once.
use direct_link.Base.{ℕ, ◌≡◌, refl, true, false, some, [], pos}
use direct_link.VideoCore.Types.{Packet}
use direct_link.Gstreamer.{playing}
use direct_link.Networking.Publisher.{Publisher, Buffer}
use direct_link.Networking.Publisher
use direct_link.Networking.Publisher.Threads.{
  PushPc, Shared, calls_push, push_step, fire, run, quiet, Steps, here, next,
}
use direct_link.Networking.Publisher.Threads.Apart.{Apart, IsSafe, Steps-IsSafe}
use direct_link.Networking.Publisher.Threads.Races.{releases_in_push, push_uses_freed}

abbrev live : Publisher
live = record Publisher.new {
  running = true;
  pipeline = true;
  appsrc = true;
  requested = playing;
  live_pipelines = 1;
}

abbrev packet_at : ℕ → Packet ℕ
packet_at n = record { packet = n; pts = pos n; dts = pos n; size = pos 100; is_keyframe = false }

-- The encode thread has found the publisher running.
abbrev under_way : Shared ℕ
under_way = record (quiet live []) { push_pc = PushPc.admitted (packet_at 5) }

under_way-Steps : Steps (λ l s. Apart l s) (quiet {P = ℕ} live []) under_way
unfolding fire
under_way-Steps =
    next
      (next {u = record (quiet live []) { push_pc = PushPc.entered (packet_at 5) }} here
        (calls_push (packet_at 5)) refl refl)
      push_step tt refl

Steps-IsSafe_example : IsSafe under_way
Steps-IsSafe_example = Steps-IsSafe under_way-Steps

push_uses_freed_example :
    (t : Shared ℕ) × (run (releases_in_push (packet_at 5)) (quiet live []) ≡ some t)
    × (t.faulted ≡ true)
    × (t.sent ≡ [])
push_uses_freed_example = push_uses_freed live [] (packet_at 5) refl refl refl
