-- ===== src/VideoCore/Pipeline/Threads/Order.antt =====
-- The order in which frames pass through the queue of the pipeline's threads.
use mathlib.Core.Path.{subst, subst₂}
use mathlib.Core.Option.{some-injective}
use mathlib.Core.List.{append_assoc}
use direct_link.Base.{
  ◌≡◌, refl, sym, ap, ◌∙◌, inl, inr, some, List, [], ◌∷◌, ◌++◌, length, leb, Bool-cases, arith,
}
use direct_link.VideoCore.Pipeline.Threads.{
  Threads, Label, capture_push, encode_step, EncodePc, at_lock, queue_capacity, started, make_room,
  push_frame, take_frame, encode_next, fire, Steps, here, next,
}

module _ {F : Type 0} where
  -- `whole` is a merge of `left` and `right` that keeps the order of both.
  pub data Merge : List F → List F → List F → Type 0 where
    nil : Merge [] [] []
    left : {ls rs ws : List F} (f : F) → Merge ls rs ws → Merge (ls ++ f ∷ []) rs (ws ++ f ∷ [])
    right : {ls rs ws : List F} (f : F) → Merge ls rs ws → Merge ls (rs ++ f ∷ []) (ws ++ f ∷ [])

  -- The frames that have left the queue, lost or taken, come before those that are in it.
  pub record IsFifo (s : Threads F) : Type 0 where
    pub left_queue : List F
    pub merged : Merge s.lost s.taken left_queue
    pub split : s.captured ≡ left_queue ++ s.frame_queue

  -- A state that differs in nothing that `IsFifo` speaks of.
  abbrev SameFrames : Threads F → Threads F → Type 0
  SameFrames s t =
      (t.lost ≡ s.lost)
      × (t.taken ≡ s.taken)
      × (t.captured ≡ s.captured)
      × (t.frame_queue ≡ s.frame_queue)

  IsFifo-same : (s t : Threads F) → SameFrames s t → IsFifo s → IsFifo t
  IsFifo-same s t h v = record {
    left_queue = v.left_queue;
    merged = subst₂ (λ ls rs. Merge ls rs v.left_queue) (sym h.0) (sym h.1) v.merged;
    split = ground arith;
  }

  move_to_front : (ws : List F) (f : F) (fs : List F) → ws ++ f ∷ fs ≡ (ws ++ f ∷ []) ++ fs
  move_to_front ws f fs = sym (append_assoc ws (f ∷ []) fs)

  make_room-IsFifo :
      (q : List F) (s : Threads F) → s.frame_queue ≡ q → IsFifo s → IsFifo (make_room q s)
  unfolding make_room
  make_room-IsFifo [] s e v = v
  make_room-IsFifo (f ∷ fs) s e v = elim (Bool-cases (leb queue_capacity (length (f ∷ fs)))) [
    | inl full ↦ rw full (record {
      left_queue = v.left_queue ++ f ∷ [];
      merged = left f v.merged;
      split = v.split ∙ ap (◌++◌ v.left_queue) e ∙ move_to_front v.left_queue f fs;
    })
    | inr free ↦ rw free v
  ]

  push_frame-IsFifo : (f : F) (s : Threads F) → IsFifo s → IsFifo (push_frame f s)
  unfolding push_frame
  push_frame-IsFifo f s v =
      let w = make_room-IsFifo s.frame_queue s refl v in
      record {
        left_queue = w.left_queue;
        merged = w.merged;
        split = ap (λ xs. xs ++ f ∷ []) w.split ∙ append_assoc w.left_queue _ (f ∷ []);
      }

  take_frame-IsFifo :
      (q : List F) (s : Threads F) → s.frame_queue ≡ q → IsFifo s → IsFifo (take_frame q s)
  unfolding take_frame
  take_frame-IsFifo [] s e v = record {
    left_queue = v.left_queue;
    merged = v.merged;
    split = v.split;
  }
  take_frame-IsFifo (f ∷ fs) s e v = record {
    left_queue = v.left_queue ++ f ∷ [];
    merged = right f v.merged;
    split = v.split ∙ ap (◌++◌ v.left_queue) e ∙ move_to_front v.left_queue f fs;
  }

  encode_next-IsFifo :
      (pc : EncodePc F) (s t : Threads F) → encode_next pc s ≡ some t → IsFifo s → IsFifo t
  unfolding encode_next
  encode_next-IsFifo at_lock s t e v =
      subst IsFifo (some-injective _ _ e) (take_frame-IsFifo s.frame_queue s refl v)
  encode_next-IsFifo _ s t e v = IsFifo-same s t (ground arith) v

  fire-capture_push :
      (f : F) (s t : Threads F) → fire (capture_push f) s ≡ some t → push_frame f s ≡ t
  unfolding fire
  fire-capture_push f s t e = ground arith

  -- Every step of every thread keeps the order.
  fire-IsFifo : (l : Label F) (s t : Threads F) → fire l s ≡ some t → IsFifo s → IsFifo t
  unfolding fire
  fire-IsFifo (capture_push f) s t e v =
      subst IsFifo (fire-capture_push f s t e) (push_frame-IsFifo f s v)
  fire-IsFifo encode_step s t e v = encode_next-IsFifo s.encode_pc s t e v
  fire-IsFifo _ s t e v = IsFifo-same s t (ground arith) v

  -- In every state that the three threads reach from the first `start`, the captured frames, in
  -- order, are those that left the queue followed by those in it; and those that left are a merge,
  -- in order, of the frames that were lost and of those that were taken for the encoder.
  pub Steps-IsFifo : (s : Threads F) → Steps started s → IsFifo s
  unfolding started
  Steps-IsFifo s here = record { left_queue = []; merged = nil; split = refl }
  Steps-IsFifo s (next {t = t} r l e) = fire-IsFifo l t s e (Steps-IsFifo t r)
