-- ===== src/VideoCore/Pipeline/Threads/Tests.antt =====
-- Runs of the pipeline's threads on frames that are numbers.
use mathlib.Core.Path.{subst}
use mathlib.Core.Option.{some-injective}
use direct_link.Base.{
  sym, ap, ◌∙◌, ℕ, ◌+◌, ◌≤◌, ◌≡◌, refl, Option, none, some, List, [], ◌∷◌, length, true,
  Option-cases, inl, inr, arith,
}
use direct_link.VideoCore.Pipeline.Threads.{
  Threads, Label, capture_push, capture_notify, capture_count, encode_step, owner_step,
  spurious_wakeup, waiting, at_lock, exited, joined, joining, stopped, capture_stopped, started,
  fire, Steps, here, next,
}
use direct_link.VideoCore.Pipeline.Threads.Invariant.{Inv, Steps-Inv}
use direct_link.VideoCore.Pipeline.Threads.Order.{IsFifo, Steps-IsFifo}
use direct_link.VideoCore.Pipeline.Threads.Shutdown.{stop_abandons, IsHung, stop_may_hang}

-- The state after these steps, if each of them can be made.
replay : List (Label ℕ) → Option (Threads ℕ) → Option (Threads ℕ)
replay [] o = o
replay (l ∷ ls) none = none
replay (l ∷ ls) (some s) = replay ls (fire l s)

replay-none : (ls : List (Label ℕ)) (t : Threads ℕ) → replay ls none ≡ some t → ⊥
unfolding replay
replay-none [] t e = ground arith
replay-none (l ∷ ls) t e = ground arith

replay-Steps :
    (ls : List (Label ℕ)) (s t u : Threads ℕ) → Steps s t → replay ls (some t) ≡ some u → Steps s u
unfolding replay
replay-Steps [] s t u r e = subst (Steps s) (some-injective _ _ e) r
replay-Steps (l ∷ ls) s t u r e = elim (Option-cases (fire l t)) [
  | inl n ↦ absurd (replay-none ls u (sym (ap (replay ls) n) ∙ e))
  | inr (v, f) ↦ replay-Steps ls s v u (next r l f) (sym (ap (replay ls) f) ∙ e)
]

-- Four frames before the encode thread moves: the first is dropped.
abbrev overflow_labels : List (Label ℕ)
overflow_labels =
    capture_push 1
    ∷ capture_notify
    ∷ capture_count
    ∷ capture_push 2
    ∷ capture_notify
    ∷ capture_count
    ∷ capture_push 3
    ∷ capture_notify
    ∷ capture_count
    ∷ capture_push 4
    ∷ capture_notify
    ∷ capture_count
    ∷ []

abbrev overflow : Threads ℕ
overflow = record (started {F = ℕ}) {
  frame_queue = 2 ∷ 3 ∷ 4 ∷ [];
  frames_dropped = 1;
  frame_count = 4;
  lost = 1 ∷ [];
  captured = 1 ∷ 2 ∷ 3 ∷ 4 ∷ [];
}

overflow-Steps : Steps started overflow
unfolding replay fire started
overflow-Steps = replay-Steps overflow_labels started started overflow here refl

Steps-Inv_example : Inv overflow
Steps-Inv_example = Steps-Inv overflow overflow-Steps

Steps-IsFifo_example : IsFifo overflow
Steps-IsFifo_example = Steps-IsFifo overflow overflow-Steps

-- The encode thread sleeps on the empty queue, and `stop` has ended the capture.
abbrev idle : Threads ℕ
idle = record (started {F = ℕ}) {
  encode_pc = waiting;
  capture_pc = joined;
  owner_pc = capture_stopped;
}

idle-Steps : Steps started idle
unfolding replay fire started
idle-Steps =
    replay-Steps (encode_step ∷ encode_step ∷ owner_step ∷ []) started started idle here refl

stop_may_hang_example :
    (t : Threads ℕ) × Steps idle t
    × IsHung t
    × ((l : Label ℕ) (u : Threads ℕ) → fire l t ≡ some u → l ≡ spurious_wakeup)
unfolding started
stop_may_hang_example = stop_may_hang idle idle-Steps refl refl

-- The stop is requested while two frames wait and the encode thread is about to take the lock.
abbrev crowded : Threads ℕ
crowded = record (started {F = ℕ}) {
  frame_queue = 1 ∷ 2 ∷ [];
  stop_requested = true;
  encode_pc = at_lock;
  capture_pc = joined;
  owner_pc = joining;
}

abbrev abandoned : Threads ℕ
abandoned = record (started {F = ℕ}) {
  frame_queue = 2 ∷ [];
  stop_requested = true;
  encode_pc = exited;
  capture_pc = joined;
  owner_pc = stopped;
  taken = 1 ∷ [];
}

crowded-Steps : Steps crowded abandoned
unfolding replay fire started
crowded-Steps =
    replay-Steps (encode_step ∷ encode_step ∷ encode_step ∷ owner_step ∷ []) crowded crowded
      abandoned here refl

stop_abandons_example : length abandoned.taken ≤ length crowded.taken + 1
stop_abandons_example = stop_abandons crowded abandoned (unfold started in refl) crowded-Steps
