-- ===== src/VideoCore/Pipeline/Threads/Shutdown.antt =====
-- What `VideoPipeline::stop` does to the threads of the pipeline.
use direct_link.Base.{
  ℕ, ◌+◌, ◌≤◌, ◌≡◌, refl, true, false, some, List, [], ◌∷◌, length, length-append, arith,
}
use direct_link.VideoCore.Pipeline.Threads.{
  Threads, Label, capture_push, encode_step, owner_step, spurious_wakeup, EncodePc, at_lock,
  waiting, exited, joined, capture_stopped, all_notified, joining, stopped, started, take_frame,
  encode_next, fire, Steps, here, next,
}
use direct_link.VideoCore.Pipeline.Threads.Invariant.{Inv, Steps-Inv, make_room-rest}

module _ {F : Type 0} where
  -- The frames that the encode thread can still take before it tests the stop token again.
  abbrev allowance : EncodePc F → ℕ
  allowance at_lock = 1
  allowance waiting = 1
  allowance pc = 0

  -- With the stop requested, what is taken and what can still be taken do not grow.
  record Spends (s t : Threads F) : Type 0 where
    requested : t.stop_requested ≡ true
    spent : length t.taken + allowance t.encode_pc ≤ length s.taken + allowance s.encode_pc

  take_frame-Spends :
      (q : List F) (s : Threads F)
      → s.stop_requested ≡ true
      → s.encode_pc ≡ at_lock
      → Spends s (take_frame q s)
  unfolding take_frame
  take_frame-Spends [] s h p = ground arith
  take_frame-Spends (f ∷ fs) s h p = ground (arith, length-append s.taken (f ∷ []))

  encode_next-Spends :
      (pc : EncodePc F) (s t : Threads F)
      → s.encode_pc ≡ pc
      → encode_next pc s ≡ some t
      → s.stop_requested ≡ true
      → Spends s t
  unfolding encode_next
  encode_next-Spends at_lock s t p e h = ground (arith, take_frame-Spends s.frame_queue s h p)
  encode_next-Spends _ s t p e h = ground arith

  fire-Spends :
      (l : Label F) (s t : Threads F) → fire l s ≡ some t → s.stop_requested ≡ true → Spends s t
  unfolding fire
  fire-Spends encode_step s t e h = encode_next-Spends s.encode_pc s t refl e h
  fire-Spends (capture_push f) s t e h = ground (arith, make_room-rest s.frame_queue s)
  fire-Spends _ s t e h = ground arith

  Steps-Spends : {s t : Threads F} → Steps s t → s.stop_requested ≡ true → Spends s t
  Steps-Spends here h = record { requested = h; spent = omega arith }
  Steps-Spends (next {t = t} {u = u} r l e) h =
      let v = Steps-Spends r h in
      let w = fire-Spends l t u e v.requested in
      record { requested = w.requested; spent = omega (arith, v.spent, w.spent) }

  -- From any state in which the stop is requested, the encode thread takes at most one more frame,
  -- whatever steps follow and however many frames are left in the queue.
  pub stop_abandons :
      (s t : Threads F) → s.stop_requested ≡ true → Steps s t → length t.taken ≤ length s.taken + 1
  stop_abandons s t h r = ground (arith, Steps-Spends r h)

  -- The owner waits for the encode thread, which waits for a notification that nobody will send.
  pub record IsHung (s : Threads F) : Type 0 where
    pub asleep : s.encode_pc ≡ waiting
    pub requested : s.stop_requested ≡ true
    pub silent : s.capture_pc ≡ joined
    pub blocked : s.owner_pc ≡ joining

  -- In a hung state, where the encode thread sleeps, the capture has ended and `stop` waits for
  -- the encode thread, the only step that any thread can make is a return of `wait` with no
  -- notification.
  IsHung-stuck :
      (l : Label F) (s t : Threads F) → IsHung s → fire l s ≡ some t → l ≡ spurious_wakeup
  unfolding fire
  IsHung-stuck (capture_push f) s t h e = ground arith
  IsHung-stuck _ s t h e = ground arith

  -- After `notify_all`, and after the woken thread has found nothing and gone back to sleep.
  abbrev notified_all : Threads F → Threads F
  notified_all s = record s { encode_pc = at_lock; owner_pc = all_notified }

  abbrev asleep_again : Threads F → Threads F
  asleep_again s = record s { encode_pc = waiting; owner_pc = all_notified }

  abbrev requested_stop : EncodePc F → Threads F → Threads F
  requested_stop pc s = record s { stop_requested = true; encode_pc = pc; owner_pc = joining }

  -- When the capture has ended, a sleeping encode thread has an empty queue and no stop request.
  record IsIdle (s : Threads F) : Type 0 where
    empty : s.frame_queue ≡ []
    unrequested : s.stop_requested ≡ false
    silent : s.capture_pc ≡ joined

  Inv-IsIdle :
      (s : Threads F) → Inv s → s.owner_pc ≡ capture_stopped → s.encode_pc ≡ waiting → IsIdle s
  Inv-IsIdle s v o p = record {
    empty = ground (arith, v.asleep p);
    unrequested = ground arith;
    silent = ground arith;
  }

  Steps-notified_all :
      (s : Threads F)
      → s.owner_pc ≡ capture_stopped
      → s.encode_pc ≡ waiting
      → Steps s (notified_all s)
  unfolding fire
  Steps-notified_all s o p = next here owner_step (ground arith)

  -- From every reachable state in which `stop` has ended the capture, and not yet notified, while
  -- the encode thread sleeps, the threads can reach a hung state, in which the encode thread
  -- sleeps and `stop` waits to join it: `notify_all` comes before the stop is requested, so the
  -- woken thread may find no reason to leave and go to sleep again. There the only step that any
  -- thread can make is a return of `wait` with no notification.
  pub stop_may_hang :
      (s : Threads F)
      → Steps started s
      → s.owner_pc ≡ capture_stopped
      → s.encode_pc ≡ waiting
      → (t : Threads F) × Steps s t
        × IsHung t
        × ((l : Label F) (u : Threads F) → fire l t ≡ some u → l ≡ spurious_wakeup)
  unfolding fire
  stop_may_hang s r o p =
      let v = Inv-IsIdle s (Steps-Inv s r) o p in
      let h : IsHung (requested_stop waiting s) = record {
        asleep = refl;
        requested = refl;
        silent = v.silent;
        blocked = refl;
      } in
      (
        requested_stop waiting s,
        next (next {u = asleep_again s} (Steps-notified_all s o p) encode_step (ground arith))
            owner_step (ground arith),
        h,
        λ l u e. IsHung-stuck l (requested_stop waiting s) u h e,
      )

  -- From the same reachable states, capture ended, not yet notified and the encode thread asleep,
  -- `stop` can also return with the encode thread ended: the woken thread is late enough to see
  -- the request.
  stop_may_return :
      (s : Threads F)
      → Steps started s
      → s.owner_pc ≡ capture_stopped
      → s.encode_pc ≡ waiting
      → (t : Threads F) × Steps s t × (t.owner_pc ≡ stopped) × (t.encode_pc ≡ exited)
  unfolding fire
  stop_may_return s r o p =
      let v = Inv-IsIdle s (Steps-Inv s r) o p in
      (
        record s { stop_requested = true; encode_pc = exited; owner_pc = stopped },
        next
            (next {u = requested_stop exited s}
              (next {u = requested_stop at_lock s} (Steps-notified_all s o p) owner_step
                (ground arith))
              encode_step (ground arith))
            owner_step (ground arith),
        refl,
        refl,
      )
