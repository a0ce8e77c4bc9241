-- ===== src/Networking/Publisher/Threads/Races.antt =====
-- `stop` in the middle of `pushPacket` (networking/src/whip_publisher.cpp).
use direct_link.Base.{
  ◌≡◌, refl, ◌+◌, ◌-◌, ◌/◌, ◌%◌, Bool, true, false, if◌then◌else◌, some, List, [], ◌∷◌, ◌++◌, pos,
  is_neg, is_zero, two_64, to_u64, ◌-ℤ◌,
}
use direct_link.VideoCore.Types.{Packet}
use direct_link.Gstreamer.{null, playing, gst_second}
use direct_link.Networking.Publisher.{Publisher, Buffer, push_packet}
use direct_link.Networking.Publisher.Threads.{
  PushPc, StopPc, stamp, Shared, Label, calls_push, push_step, calls_stop, stop_step, run, quiet,
}

-- The publisher once it has a pipeline and runs again.
abbrev pub restarted : Publisher → Publisher
restarted p = record p { pipeline = true; appsrc = true; running = true; requested = playing }

module _ {P : Type 0} where
  -- The stream is ended, and the pipeline not yet released.
  abbrev ends_stream : List (Label P)
  ends_stream = calls_stop ∷ stop_step ∷ stop_step ∷ stop_step ∷ stop_step ∷ []

  -- `pushPacket` locks and finds the source; `stop` releases the pipeline; the source is used.
  abbrev pub releases_in_push : Packet P → List (Label P)
  releases_in_push packet =
      calls_push packet
      ∷ push_step
      ∷ (ends_stream ++ push_step ∷ push_step ∷ push_step ∷ stop_step ∷ push_step ∷ [])

  -- Whatever packet is pushed to a running publisher with a pipeline and a source, `stop` may
  -- release the pipeline while `pushPacket` holds the mutex and has found the source: it then pushes
  -- to a source that is freed.
  pub push_uses_freed :
      (p : Publisher) (sent : List (Buffer P)) (packet : Packet P)
      → p.running ≡ true
      → p.pipeline ≡ true
      → p.appsrc ≡ true
      → (t : Shared P) × (run (releases_in_push packet) (quiet p sent) ≡ some t)
        × (t.faulted ≡ true)
        × (t.sent ≡ sent)
  unfolding run
  push_uses_freed p sent packet r l s = (
    record {
      publisher = record (stamp packet p).0 {
        requested = null;
        live_pipelines = p.live_pipelines - 1;
      };
      is_locked = false;
      push_pc = PushPc.outside;
      stop_pc = StopPc.released;
      source_alive = false;
      faulted = true;
      sent = sent;
    },
    rw (r, l, s) refl,
    refl,
    refl,
  )

  -- `pushPacket` finds the publisher running; `stop` runs from its start to its end; then the packet is
  -- stamped.
  abbrev pub stops_in_push : Packet P → List (Label P)
  stops_in_push packet =
      calls_push packet
      ∷ push_step
      ∷ (ends_stream
          ++ stop_step ∷ stop_step ∷ stop_step ∷ stop_step ∷ stop_step ∷ push_step ∷ push_step
            ∷ push_step ∷ [])

  -- Whatever packet with a stamp that is not negative is pushed to a running publisher with a
  -- pipeline, `stop` may begin and end between the test of `running_` and the stamp: the packet is
  -- dropped, and the stopped publisher keeps its stamp as the start of the stream. When the
  -- publisher runs again, the first packet is stamped with its distance from that one.
  pub push_keeps_start :
      (p : Publisher) (sent : List (Buffer P)) (packet first : Packet P) (ok : Bool)
      → p.running ≡ true
      → p.pipeline ≡ true
      → is_neg packet.pts ≡ false
      → (q : Publisher) × (b : Buffer P) × (run (stops_in_push packet) (quiet p sent)
          ≡ some (quiet q sent))
        × (q.running ≡ false)
        × (q.stream_start_pts ≡ packet.pts)
        × ((push_packet (restarted q) first ok).buffer ≡ some b)
        × (b.pts ≡ to_u64 (first.pts -ℤ packet.pts))
  unfolding run push_packet
  push_keeps_start p sent packet first ok r l n =
      let rate = if is_zero p.framerate then pos 30 else p.framerate in
      (
        record p {
          running = false;
          pipeline = false;
          appsrc = false;
          requested = null;
          live_pipelines = p.live_pipelines - 1;
          stream_start_pts = packet.pts;
          framerate = rate;
          frame_count = (p.frame_count + 1) % two_64;
        },
        record {
          payload = first.packet;
          pts = to_u64 (first.pts -ℤ packet.pts);
          duration = gst_second / to_u64 (if is_zero rate then pos 30 else rate);
        },
        rw (r, l) refl,
        refl,
        refl,
        rw n refl,
        refl,
      )
