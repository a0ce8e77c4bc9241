-- ===== src/Networking/Publisher/Threads.antt =====
-- `pushPacket` and `stop` of networking/src/whip_publisher.cpp as two threads: the encode thread and
-- the one that owns the publisher, with `appsrcMutex_`. What runs between two accesses to
-- the members that both use is one step.
use direct_link.Base.{
  ℕ, suc, ◌+◌, ◌-◌, ◌/◌, ◌%◌, ◌≡◌, Bool, true, false, not, if◌then◌else◌, Option, none, some, List,
  [], ◌∷◌, ◌++◌, ℤ, pos, negsuc, ◌-ℤ◌, is_neg, is_zero, to_u64, two_64,
}
use direct_link.VideoCore.Types.{Packet}
use direct_link.Gstreamer.{gst_second, null}
use direct_link.Networking.Publisher.{Publisher, Buffer}
pub mod Exclusion
pub mod Apart
pub mod InTurn
pub mod Races
mod Tests

-- Where the encode thread stands in `pushPacket`.
pub data PushPc (P : Type 0) : Type 0 where
  outside : PushPc P
  entered : Packet P → PushPc P  -- about to test `running_`
  admitted : Packet P → PushPc P  -- about to stamp the buffer
  stamped : Buffer P → PushPc P  -- about to lock
  locked : Buffer P → PushPc P  -- about to test `appsrc_`
  pushing : Buffer P → PushPc P  -- about to push to the source that it has found, and to unlock

-- Where the owner stands in `stop`.
pub data StopPc : Type 0 where
  outside : StopPc
  entered : StopPc  -- about to test `pipeline_` and `running_`
  admitted : StopPc  -- about to lock
  locked : StopPc  -- about to end the stream, and to unlock
  ended : StopPc  -- about to wait for the end of the stream
  waited : StopPc  -- about to release the pipeline
  released : StopPc  -- about to clear `pipeline_`
  unpiped : StopPc  -- about to clear `appsrc_`
  cleared : StopPc  -- about to clear `running_`
  unmarked : StopPc  -- about to reset `streamStartPts_`

-- `source_alive`: the source that `appsrc_` pointed to is not yet freed with its pipeline; `faulted`: a
-- freed source was used. `sent` records the buffers that reached the source. The code keeps none of them.
pub record Shared (P : Type 0) : Type 0 where
  pub publisher : Publisher
  pub is_locked : Bool  -- appsrcMutex_
  pub push_pc : PushPc P
  pub stop_pc : StopPc
  pub source_alive : Bool
  pub faulted : Bool
  pub sent : List (Buffer P)

pub data Label (P : Type 0) : Type 0 where
  calls_push : Packet P → Label P
  push_step : Label P
  calls_stop : Label P
  stop_step : Label P

module _ {P : Type 0} where
  -- The part of `pushPacket` before the lock.
  stamp : Packet P → Publisher → Publisher × Buffer P
  stamp packet p =
      let start = if is_neg p.stream_start_pts then packet.pts else p.stream_start_pts in
      let rate = if is_zero p.framerate then pos 30 else p.framerate in
      (
        record p {
          stream_start_pts = start;
          framerate = rate;
          frame_count = (p.frame_count + 1) % two_64;
        },
        record {
          payload = packet.packet;
          pts = to_u64 (packet.pts -ℤ start);
          duration = gst_second / to_u64 rate;
        },
      )

  stamp_buffer : Shared P → Publisher × Buffer P → Shared P
  stamp_buffer s (p, b) = record s { publisher = p; push_pc = PushPc.stamped b }

  push_next : PushPc P → Shared P → Option (Shared P)
  unfolding stamp stamp_buffer
  push_next PushPc.outside s = none
  push_next (PushPc.entered packet) s = some (record s {
    push_pc = if s.publisher.running then PushPc.admitted packet else PushPc.outside;
  })
  push_next (PushPc.admitted packet) s = some (stamp_buffer s (stamp packet s.publisher))
  push_next (PushPc.stamped b) s =
      if s.is_locked then none else some (record s { is_locked = true; push_pc = PushPc.locked b })
  push_next (PushPc.locked b) s = some (
      if s.publisher.appsrc
      then record s { push_pc = PushPc.pushing b }
      else record s { is_locked = false; push_pc = PushPc.outside })
  push_next (PushPc.pushing b) s = some (
      if s.source_alive
      then record s { is_locked = false; push_pc = PushPc.outside; sent = s.sent ++ b ∷ [] }
      else record s { is_locked = false; push_pc = PushPc.outside; faulted = true })

  stop_next : StopPc → Shared P → Option (Shared P)
  stop_next StopPc.outside s = none
  stop_next StopPc.entered s = some (record s {
    stop_pc =
        if not s.publisher.pipeline
        then StopPc.outside
        else if not s.publisher.running
        then StopPc.outside
        else StopPc.admitted;
  })
  stop_next StopPc.admitted s =
      if s.is_locked then none else some (record s { is_locked = true; stop_pc = StopPc.locked })
  stop_next StopPc.locked s = some (record s { is_locked = false; stop_pc = StopPc.ended })
  stop_next StopPc.ended s = some (record s { stop_pc = StopPc.waited })
  stop_next StopPc.waited s = some (record s {
    publisher = record s.publisher {
      requested = null;
      live_pipelines = s.publisher.live_pipelines - 1;
    };
    source_alive = false;
    stop_pc = StopPc.released;
  })
  stop_next StopPc.released s =
      some
        (record s { publisher = record s.publisher { pipeline = false }; stop_pc = StopPc.unpiped })
  stop_next StopPc.unpiped s =
      some
        (record s { publisher = record s.publisher { appsrc = false }; stop_pc = StopPc.cleared })
  stop_next StopPc.cleared s =
      some
        (record s { publisher = record s.publisher { running = false }; stop_pc = StopPc.unmarked })
  stop_next StopPc.unmarked s = some (record s {
    publisher = record s.publisher { stream_start_pts = negsuc 0 };
    stop_pc = StopPc.outside;
  })

  enter_push : Packet P → PushPc P → Shared P → Option (Shared P)
  enter_push packet PushPc.outside s = some (record s { push_pc = PushPc.entered packet })
  enter_push packet pc s = none

  enter_stop : StopPc → Shared P → Option (Shared P)
  enter_stop StopPc.outside s = some (record s { stop_pc = StopPc.entered })
  enter_stop pc s = none

  -- `none` where the thread cannot move.
  unfoldable pub fire : Label P → Shared P → Option (Shared P)
  unfolding push_next stop_next enter_push enter_stop
  fire (calls_push packet) s = enter_push packet s.push_pc s
  fire push_step s = push_next s.push_pc s
  fire calls_stop s = enter_stop s.stop_pc s
  fire stop_step s = stop_next s.stop_pc s

  abbrev pub and_then : (Shared P → Option (Shared P)) → Option (Shared P) → Option (Shared P)
  and_then k none = none
  and_then k (some s) = k s

  -- Steps in this order.
  unfoldable pub run : List (Label P) → Shared P → Option (Shared P)
  unfolding fire
  run [] s = some s
  run (l ∷ ls) s = and_then (λ t. run ls t) (fire l s)

  -- The interleavings in which each step is admitted in its state.
  pub data Steps (Admits : Label P → Shared P → Type 0) (s : Shared P) : Shared P → Type 0 where
    here : Steps Admits s s
    next :
        {t u : Shared P}
        → Steps Admits s t
        → (l : Label P) → Admits l t
        → fire l t ≡ some u
        → Steps Admits s u

  -- Neither thread is in a call, and a source that `appsrc_` points to is alive.
  abbrev pub quiet : Publisher → List (Buffer P) → Shared P
  quiet p sent = record {
    publisher = p;
    is_locked = false;
    push_pc = PushPc.outside;
    stop_pc = StopPc.outside;
    source_alive = p.appsrc;
    faulted = false;
    sent = sent;
  }
