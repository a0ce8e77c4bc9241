-- ===== src/Networking/Publisher/Threads/InTurn.antt =====
-- Whole calls of `pushPacket` and `stop` (networking/src/whip_publisher.cpp), one after the other, step
-- by step and at once.
use direct_link.Base.{
  ◌≡◌, refl, ap, ◌∙◌, Bool, if◌then◌else◌, Option, none, some, List, [], ◌∷◌, ◌++◌, inl, inr,
  Bool-cases, arith,
}
use direct_link.VideoCore.Types.{Packet}
use direct_link.Networking.Publisher.{Publisher, Buffer, push_packet, emit, stop}
use direct_link.Networking.Publisher.Threads.{
  Shared, Label, calls_push, push_step, calls_stop, stop_step, fire, run, quiet, and_then,
}

pub data Call (P : Type 0) : Type 0 where
  pushes : Packet P → Bool → Call P
  stops : Call P

module _ {P : Type 0} where
  abbrev and_sent : List (Buffer P) → Option (Buffer P) → List (Buffer P)
  and_sent sent none = sent
  and_sent sent (some b) = sent ++ b ∷ []

  -- The publisher and the buffers that have reached the source, after a whole call.
  pub perform : Call P → Publisher × List (Buffer P) → Publisher × List (Buffer P)
  perform (pushes packet flow_ok) (p, sent) =
      let r = push_packet p packet flow_ok in (r.publisher, and_sent sent r.buffer)
  perform stops (p, sent) = ((stop p).0, sent)

  -- The steps of a whole call.
  pub steps_of : Call P → Publisher → List (Label P)
  steps_of (pushes packet flow_ok) p =
      calls_push packet
      ∷ (if p.running
          then push_step
            ∷ push_step
            ∷ push_step
            ∷ push_step
            ∷ (if p.appsrc then push_step ∷ [] else [])
          else push_step ∷ [])
  steps_of stops p =
      calls_stop
      ∷ (if p.pipeline
          then (if p.running
              then stop_step ∷ stop_step ∷ stop_step ∷ stop_step ∷ stop_step ∷ stop_step ∷ stop_step
                ∷ stop_step ∷ stop_step ∷ []
              else stop_step ∷ [])
          else stop_step ∷ [])

  abbrev pub state_of : Publisher × List (Buffer P) → Shared P
  state_of (p, sent) = quiet p sent

  run-perform :
      (c : Call P) (p : Publisher) (sent : List (Buffer P))
      → run (steps_of c p) (quiet p sent) ≡ some (state_of (perform c (p, sent)))
  unfolding run steps_of perform push_packet stop emit
  run-perform (pushes packet ok) p sent = elim (Bool-cases p.running) [
    | inr idle ↦ rw idle refl
    | inl runs ↦ elim (Bool-cases p.appsrc) [
      | inr no_source ↦ rw (runs, no_source) refl
      | inl source ↦ rw (runs, source) refl
    ]
  ]
  run-perform stops p sent = ground arith

  and_then-append :
      (ls ks : List (Label P))
      → ((t : Shared P) → run (ls ++ ks) t ≡ and_then (λ u. run ks u) (run ls t))
      → (o : Option (Shared P))
      → and_then (λ t. run (ls ++ ks) t) o ≡ and_then (λ u. run ks u) (and_then (λ t. run ls t) o)
  and_then-append ls ks ih none = refl
  and_then-append ls ks ih (some t) = ih t

  run-append :
      (ls ks : List (Label P)) (s : Shared P)
      → run (ls ++ ks) s ≡ and_then (λ u. run ks u) (run ls s)
  unfolding run
  run-append [] ks s = refl
  run-append (l ∷ ls) ks s = and_then-append ls ks (λ t. run-append ls ks t) (fire l s)

  pub perform_all : List (Call P) → Publisher × List (Buffer P) → Publisher × List (Buffer P)
  perform_all [] q = q
  perform_all (c ∷ cs) q = perform_all cs (perform c q)

  pub steps_of_all : List (Call P) → Publisher × List (Buffer P) → List (Label P)
  unfolding steps_of
  steps_of_all [] q = []
  steps_of_all (c ∷ cs) q = steps_of c q.0 ++ steps_of_all cs (perform c q)

  -- Calls that follow one another, taken step by step, leave the publisher and hand the buffers to the
  -- source as the whole calls do, in order, with no fault and the mutex free.
  run-perform_all :
      (cs : List (Call P)) (p : Publisher) (sent : List (Buffer P))
      → run (steps_of_all cs (p, sent)) (quiet p sent) ≡ some (state_of (perform_all cs (p, sent)))
  unfolding run steps_of_all perform_all
  run-perform_all [] p sent = refl
  run-perform_all (c ∷ cs) p sent =
      let q = perform c (p, sent) in
      run-append (steps_of c p) (steps_of_all cs q) (quiet p sent)
      ∙ ap (and_then (λ u. run (steps_of_all cs q) u)) (run-perform c p sent)
      ∙ run-perform_all cs q.0 q.1
