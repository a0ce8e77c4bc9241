-- ===== src/Client/CameraSession/StartSteps/Lost.antt =====
-- `stop` in the middle of `CameraSession::start` (client/src/session/camera_session.cpp).
use direct_link.Base.{
  ℕ, zero, suc, ◌≤◌, ◌≡◌, refl, sym, ap, ◌∙◌, Bool, true, false, not, if◌then◌else◌, String, List,
  [], ◌∷◌, ◌++◌, arith,
}
use direct_link.VideoCore.Ffmpeg.{Ffmpeg}
use direct_link.VideoCore.Pipeline.{is_success}
use direct_link.Networking.Publisher
use direct_link.Client.CameraSession.{
  Session, Answers, encoder_config, start, start_session, start_publisher, start_pipeline,
  finish_start, stop,
}
use direct_link.Client.CameraSession.Parts.{stop_idle}
use direct_link.Client.CameraSession.Running.{Inv, start-Inv}
use direct_link.Client.CameraSession.StartSteps.{
  StartPc, entered, pipeline_initialized, publisher_initialized, callback_set, publisher_started,
  pipeline_started, marked, returned, Move, advances, stops, advance, move, run,
}

-- `isRunning_` is set, or `start` has returned without that.
abbrev pub is_settled : StartPc → Bool
is_settled marked = true
is_settled (returned b) = true
is_settled pc = false

-- The steps that are left at most.
abbrev steps_left : StartPc → ℕ
steps_left entered = 7
steps_left (pipeline_initialized r) = 6
steps_left (publisher_initialized r) = 5
steps_left callback_set = 4
steps_left (publisher_started r) = 3
steps_left (pipeline_started r) = 2
steps_left marked = 1
steps_left (returned b) = 0

abbrev pub steps : ℕ → List Move
steps zero = []
steps (suc n) = advances ∷ steps n

module _ (f : Ffmpeg) (url key : String) (a : Answers) where
  abbrev returns : Session f × Bool → Session f × StartPc
  returns (s, b) = (s, returned b)

  -- What is left of `start`, without a stop in between.
  completes : StartPc → Session f → Session f × Bool
  unfolding start start_publisher start_pipeline finish_start
  completes entered s = start f s url key a
  completes (pipeline_initialized r) s =
      if not (is_success r)
      then (s, false)
      else start_publisher f s a
          (Publisher.initialize s.publisher url key encoder_config.framerate true a.elements)
  completes (publisher_initialized r) s = start_publisher f s a (s.publisher, r)
  completes callback_set s =
      start_pipeline f s a.playing (Publisher.start s.publisher a.handshake a.waited)
  completes (publisher_started r) s = start_pipeline f s a.playing (s.publisher, r)
  completes (pipeline_started r) s = finish_start f s (s.pipeline, r)
  completes marked s = (s, true)
  completes (returned b) s = (s, b)

  advance-completes :
      (pc : StartPc) (s : Session f)
      → let q = advance f url key a s pc in completes q.1 q.0 ≡ completes pc s
  unfolding completes advance start_session
  advance-completes entered s = ground arith
  advance-completes (pipeline_initialized r) s = ground arith
  advance-completes (publisher_initialized r) s = ground arith
  advance-completes callback_set s = ground arith
  advance-completes (publisher_started r) s = ground arith
  advance-completes (pipeline_started r) s = ground arith
  advance-completes marked s = refl
  advance-completes (returned b) s = refl

  -- A state of the two threads in which `start` is under way: it has yet to come to this.
  record ComesTo (r : Session f × Bool) (q : Session f × StartPc) : Type 0 where
    idle : is_settled q.1 ≡ false → (q.0).is_running ≡ false
    completed : is_settled q.1 ≡ false → completes q.1 q.0 ≡ r

  advance-unsettled :
      (pc : StartPc) (s : Session f)
      → is_settled (advance f url key a s pc).1 ≡ false
      → is_settled pc ≡ false
  unfolding advance
  advance-unsettled marked s h = h
  advance-unsettled (returned b) s h = h
  advance-unsettled _ s h = refl

  advance-idle :
      (pc : StartPc) (s : Session f)
      → s.is_running ≡ false
      → is_settled (advance f url key a s pc).1 ≡ false
      → (advance f url key a s pc).0.is_running ≡ false
  unfolding advance
  advance-idle entered s i h = ground arith
  advance-idle _ s i h = ground arith

  move-ComesTo :
      (m : Move) (r : Session f × Bool) (s : Session f) (pc : StartPc)
      → ComesTo r (s, pc)
      → ComesTo r (move f url key a m (s, pc))
  unfolding move
  move-ComesTo advances r s pc v =
      let live =
        λ (h : is_settled (advance f url key a s pc).1 ≡ false). advance-unsettled pc s h in
      record {
        idle = λ h. advance-idle pc s (v.idle (live h)) h;
        completed = λ h. advance-completes pc s ∙ v.completed (live h);
      }
  move-ComesTo (stops ok) r s pc v =
      let same = λ (h : is_settled pc ≡ false). ap (λ q. q.0) (stop_idle f s ok (v.idle h)) in
      record {
        idle = λ h. ap (λ q. q.is_running) (same h) ∙ v.idle h;
        completed = λ h. ap (λ q. completes pc q) (same h) ∙ v.completed h;
      }

  run-ComesTo :
      (ms : List Move) (r : Session f × Bool) (s : Session f) (pc : StartPc)
      → ComesTo r (s, pc)
      → ComesTo r (run f url key a ms (s, pc))
  unfolding run
  run-ComesTo [] r s pc v = v
  run-ComesTo (m ∷ ms) r s pc v =
      let q = move f url key a m (s, pc) in run-ComesTo ms r q.0 q.1 (move-ComesTo m r s pc v)

  run-append :
      (ms ns : List Move) (q : Session f × StartPc)
      → run f url key a (ms ++ ns) q ≡ run f url key a ns (run f url key a ms q)
  unfolding run
  run-append [] ns q = refl
  run-append (m ∷ ms) ns q = run-append ms ns (move f url key a m q)

  advance-steps_left :
      (pc : StartPc) (s : Session f) (n : ℕ)
      → steps_left pc ≤ suc n
      → steps_left (advance f url key a s pc).1 ≤ n
  unfolding advance
  advance-steps_left (returned b) s n h = omega arith
  advance-steps_left entered s n h = ground arith
  advance-steps_left _ s n h = ground arith

  -- Enough steps without a stop make what is left of `start`.
  run-steps :
      (n : ℕ) (s : Session f) (pc : StartPc)
      → steps_left pc ≤ n
      → run f url key a (steps n) (s, pc) ≡ returns (completes pc s)
  unfolding run move completes
  run-steps (suc n) s pc h =
      let q = advance f url key a s pc in
      run-steps n q.0 q.1 (advance-steps_left pc s n h) ∙ ap returns (advance-completes pc s)
  run-steps zero s (returned b) h = refl
  run-steps zero s entered h = absurd (omega arith)
  run-steps zero s _ h = absurd (omega arith)

  steps_left-le : (pc : StartPc) → steps_left pc ≤ 7
  steps_left-le entered = omega arith
  steps_left-le _ = omega arith

  -- A session that has the invariant and is idle is started, and the main thread calls `stop` as often
  -- and whenever it likes before `start` has set `isRunning_` or returned: once `start` has made its
  -- remaining steps, seven at most, session and result are what `start` by itself comes to. If it
  -- succeeds, the session runs, after every `stop`.
  pub stop_during_start_lost :
      (s : Session f) (ms : List Move)
      → Inv f s
      → s.is_running ≡ false
      → is_settled (run f url key a ms (s, entered)).1 ≡ false
      → let r = start f s url key a in
        (run f url key a (ms ++ steps 7) (s, entered) ≡ (r.0, returned r.1))
        × (r.0.is_running ≡ r.1)
  stop_during_start_lost s ms v i h =
      let q = run f url key a ms (s, entered) in
      let r = start f s url key a in
      let w =
        run-ComesTo ms r s entered
          (record { idle = λ _. i; completed = λ _. unfold completes in refl }) in
      (
        run-append ms (steps 7) (s, entered)
            ∙ run-steps 7 q.0 q.1 (steps_left-le q.1)
            ∙ ap returns (w.completed h),
        sym (start-Inv f s url key a v i).1,
      )

  -- `stop` between the setting of `isRunning_` and the return: the session is stopped, and `start`
  -- reports that it runs.
  stopped_when_marked :
      (s : Session f) (ok : Bool)
      → run f url key a (stops ok ∷ advances ∷ []) (s, marked) ≡ ((stop f s ok).0, returned true)
  unfolding run move advance
  stopped_when_marked s ok = refl
