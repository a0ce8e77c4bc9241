-- ===== src/VideoCore/Pipeline/Threads/Invariant.antt =====
-- What holds of the pipeline's threads at every moment.
use direct_link.Base.{
  ℕ, ◌+◌, ◌%◌, ◌≤◌, ◌<◌, ◌≡◌, refl, ◌⊎◌, true, some, List, [], ◌∷◌, length, length-append, arith,
}
use direct_link.VideoCore.Pipeline.Threads.{
  Threads, Label, capture_push, capture_notify, capture_count, encode_step, owner_step,
  spurious_wakeup, EncodePc, loop_head, at_lock, waiting, encoding, exited, CapturePc, ready,
  pushed, notified, joined, running, joining, stopped, queue_capacity, started, make_room,
  push_frame, take_frame, encode_next, fire, Steps, here, next,
}

-- The frames that are in the queue but not yet counted in `frameCount_`.
abbrev pub uncounted : CapturePc → ℕ
uncounted ready = 0
uncounted pushed = 1
uncounted notified = 1
uncounted joined = 0

module _ {F : Type 0} where
  pub record Inv (s : Threads F) : Type 0 where
    pub bounded : length s.frame_queue ≤ queue_capacity
    pub dropped : s.frames_dropped ≡ length s.lost % 4294967296
    pub counted :
        (s.frame_count + uncounted s.capture_pc) % 4294967296 ≡ length s.captured % 4294967296
    pub conserved : length s.captured ≡ length s.lost + length s.taken + length s.frame_queue
    pub asleep : s.encode_pc ≡ waiting → (s.frame_queue ≡ []) ⊎ (s.capture_pc ≡ pushed)
    pub stopping : s.stop_requested ≡ true → (s.owner_pc ≡ joining) ⊎ (s.owner_pc ≡ stopped)
    pub ended : s.owner_pc ≡ stopped → s.encode_pc ≡ exited
    pub silent : (s.owner_pc ≡ running) ⊎ (s.capture_pc ≡ joined)

  started-Inv : Inv started
  unfolding started
  started-Inv = ground arith

  -- Room is made for one frame, at the cost of the oldest when the queue is full.
  pub record MadeRoom (s t : Threads F) : Type 0 where
    pub room : length t.frame_queue < queue_capacity
    pub dropped : t.frames_dropped ≡ length t.lost % 4294967296
    pub kept : length t.lost + length t.frame_queue ≡ length s.lost + length s.frame_queue

  make_room-MadeRoom :
      (q : List F) (s : Threads F)
      → s.frame_queue ≡ q
      → length q ≤ queue_capacity
      → s.frames_dropped ≡ length s.lost % 4294967296
      → MadeRoom s (make_room q s)
  unfolding make_room
  make_room-MadeRoom [] s e b d = ground arith
  make_room-MadeRoom (f ∷ fs) s e b d = ground (arith, length-append s.lost (f ∷ []))

  pub make_room-rest :
      (q : List F) (s : Threads F)
      → let t = make_room q s in
        (t.captured ≡ s.captured)
        × (t.taken ≡ s.taken)
        × (t.frame_count ≡ s.frame_count)
        × (t.owner_pc ≡ s.owner_pc)
        × (t.encode_pc ≡ s.encode_pc)
        × (t.stop_requested ≡ s.stop_requested)
  unfolding make_room
  make_room-rest [] s = (refl, refl, refl, refl, refl, refl)
  make_room-rest (f ∷ fs) s = ground arith

  push_frame-Inv : (f : F) (s : Threads F) → Inv s → s.capture_pc ≡ ready → Inv (push_frame f s)
  unfolding push_frame
  push_frame-Inv f s v e = ground (
    arith,
    make_room-MadeRoom s.frame_queue s refl v.bounded v.dropped,
    make_room-rest s.frame_queue s,
    length-append (make_room s.frame_queue s).frame_queue (f ∷ []),
    length-append (make_room s.frame_queue s).captured (f ∷ []),
  )

  take_frame-Inv :
      (q : List F) (s : Threads F)
      → s.frame_queue ≡ q
      → s.encode_pc ≡ at_lock
      → Inv s
      → Inv (take_frame q s)
  unfolding take_frame
  take_frame-Inv [] s e pc v = ground arith
  take_frame-Inv (f ∷ fs) s e pc v = ground (arith, length-append s.taken (f ∷ []))

  encode_next-Inv :
      (pc : EncodePc F) (s t : Threads F)
      → s.encode_pc ≡ pc
      → encode_next pc s ≡ some t
      → Inv s
      → Inv t
  unfolding encode_next
  encode_next-Inv loop_head s t p e v = ground arith
  encode_next-Inv at_lock s t p e v = ground (arith, take_frame-Inv s.frame_queue s refl p v)
  encode_next-Inv waiting s t p e v = ground arith
  encode_next-Inv (encoding f) s t p e v = ground arith
  encode_next-Inv exited s t p e v = ground arith

  -- Every step of every thread keeps the invariant.
  pub fire-Inv : (l : Label F) (s t : Threads F) → fire l s ≡ some t → Inv s → Inv t
  unfolding fire
  fire-Inv (capture_push f) s t e v = ground (arith, push_frame-Inv f s v)
  fire-Inv capture_notify s t e v = ground arith
  fire-Inv capture_count s t e v = ground arith
  fire-Inv encode_step s t e v = encode_next-Inv s.encode_pc s t refl e v
  fire-Inv owner_step s t e v = ground arith
  fire-Inv spurious_wakeup s t e v = ground arith

  -- In every state that the three threads reach from the first `start`, the queue holds three
  -- frames at most; every captured frame is dropped, taken or still queued; `framesDropped_` and
  -- `frameCount_` count the dropped frames and, once each push is over, the captured ones, modulo
  -- 2^32; the encode thread sleeps only while the queue is empty or a notification is about to
  -- come; the stop is requested, and the thread joined, only in that order by `stop`, after the
  -- capture has ended.
  pub Steps-Inv : (s : Threads F) → Steps started s → Inv s
  Steps-Inv s here = started-Inv
  Steps-Inv s (next {t = t} r l e) = fire-Inv l t s e (Steps-Inv t r)
