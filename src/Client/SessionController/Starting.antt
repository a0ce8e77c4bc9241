-- ===== src/Client/SessionController/Starting.antt =====
-- Starts and stops of client/src/session/session_controller.cpp.
use direct_link.Base.{
  List, both_branches, ◌&&◌, not, inl, inr, Bool-cases, ℕ, zero, suc, ◌≡◌, refl, ap, ◌∙◌, Bool,
  true, false, if◌then◌else◌, String, Option, [], ◌∷◌, arith,
}
use direct_link.VideoCore.Ffmpeg.{Ffmpeg}
use direct_link.Client.Task.{
  Task, absent, running, returned, is_running, is_returned, moves, disabled, blocks, Ensures, ◌>>=◌,
}
use direct_link.Client.CameraSession.{Session, Answers}
use direct_link.Client.CameraSession
use direct_link.Client.CameraSession.Parts.{stop_idle}
use direct_link.Client.SessionController.{
  Signal, Controller, Label, starts, pool_starts, delivers, stops, sets_preview_sink,
  session_started, session_stopped, start, stop, stop_joining, deliver, deliver_one, pool_start,
  destroy, set_preview_sink, fire, run,
}
use direct_link.Networking.Publisher.{Buffer}
use direct_link.Client.FrameReader.{same_sink}

module _ (f : Ffmpeg) where
  -- A `finished` is posted exactly when the session's start has returned.
  pub record IsPending (c : Controller f) : Type 0 where
    pub posted : c.finishes ≡ (if is_returned c.start_task then 1 else 0)

  -- `start` is not called between the return of the session's start and the delivery, and the encode
  -- thread ends when `stop` joins it.
  abbrev pub Allowed : Label → Controller f → Type 0
  Allowed (starts url key) c = is_returned c.start_task ≡ false
  Allowed (stops flow_ok joins) c = joins ≡ true
  Allowed l c = Unit

  start-IsPending :
      (c : Controller f) (url key : String)
      → is_returned c.start_task ≡ false
      → IsPending c
      → IsPending (start f c url key)
  unfolding start
  start-IsPending c url key h v =
      both_branches (λ q. IsPending q) (is_running c.start_task) v
        record { posted = v.posted ∙ ap (λ b. if b then 1 else 0) h }

  pool_start-IsPending :
      (task : Task Bool) (c : Controller f) (a : Answers)
      → c.start_task ≡ task
      → IsPending c
      → Ensures (λ q. IsPending q.0) (pool_start f task c a)
  unfolding pool_start
  pool_start-IsPending absent c a e v = tt
  pool_start-IsPending (returned b) c a e v = tt
  pool_start-IsPending running c a e v = record { posted = rw (v.posted, e) refl }

  deliver_one-IsPending :
      (task : Task Bool) (n : ℕ) (c : Controller f)
      → c.start_task ≡ task
      → n ≡ (if is_returned task then 1 else 0)
      → Ensures (λ q. IsPending q.0) (deliver_one f n c)
  unfolding deliver_one
  deliver_one-IsPending task zero c e v = tt
  deliver_one-IsPending absent (suc n) c e v = ground arith
  deliver_one-IsPending running (suc n) c e v = ground arith
  deliver_one-IsPending (returned b) (suc n) c e v = rw e record { posted = omega (arith, v) }

  set_preview_sink-IsPending :
      (c : Controller f) (sink : Option ℕ) → IsPending c → IsPending (set_preview_sink f c sink).0
  unfolding set_preview_sink
  set_preview_sink-IsPending c sink v =
      both_branches (λ (q : Controller f × List Signal). IsPending q.0)
        (same_sink c.preview_sink sink) v record { posted = v.posted }

  stop_joining-IsPending :
      (c : Controller f) (flow_ok joins : Bool)
      → joins ≡ true
      → IsPending c
      → Ensures (λ q. IsPending q.0) (stop_joining f c flow_ok joins)
  unfolding stop_joining stop
  stop_joining-IsPending c flow_ok joins h v =
      elim (Bool-cases (c.session.is_running && c.session.pipeline.encode_thread && not joins)) [
        | inl e ↦ absurd (ground (arith, e, h))
        | inr e ↦ rw e record { posted = v.posted }
      ]

  -- While `start` is not called between the return of the session's start and the delivery of its `finished`,
  -- and the encode thread ends when `stop` joins it, no step blocks or reads a null pointer, and one `finished` is posted exactly when the session's start
  -- has returned.
  pub fire-IsPending :
      (l : Label) (c : Controller f)
      → Allowed l c
      → IsPending c
      → Ensures (λ q. IsPending q.0) (fire f l c)
  unfolding fire
  fire-IsPending (starts url key) c h v = start-IsPending c url key h v
  fire-IsPending (pool_starts a) c h v = pool_start-IsPending c.start_task c a refl v
  fire-IsPending delivers c h v = deliver_one-IsPending c.start_task c.finishes c refl v.posted
  fire-IsPending (stops flow_ok joins) c h v = stop_joining-IsPending c flow_ok joins h v
  fire-IsPending (sets_preview_sink sink) c h v = set_preview_sink-IsPending c sink v

  stop_joining_idle :
      (c : Controller f) (flow_ok joins : Bool)
      → c.session.is_running ≡ false
      → stop_joining f c flow_ok joins ≡ moves (c, session_stopped ∷ [])
  unfolding stop_joining stop
  stop_joining_idle c flow_ok joins i =
      ap
        (λ b.
          if b && c.session.pipeline.encode_thread && not joins
          then blocks
          else moves (stop f c flow_ok))
        i
      ∙ ap
          (λ (q : Session f × List (Buffer f.Payload)).
            moves (record c { session = q.0 }, session_stopped ∷ []))
          (stop_idle f c.session flow_ok i)

  -- `stop` while the session's start has not yet begun in the pool: nothing calls the start off, and when the session then starts with
  -- success, it runs after `sessionStopped`, with `sessionStarted` emitted last.
  stop_loses_start :
      (c : Controller f) (url key : String) (a : Answers) (flow_ok joins : Bool) (s : Session f)
      → c.start_task ≡ running
      → c.credentials ≡ (url, key)
      → c.finishes ≡ 0
      → c.session.is_running ≡ false
      → CameraSession.start f c.session url key a ≡ (s, true)
      → run f (stops flow_ok joins ∷ pool_starts a ∷ delivers ∷ []) c
        ≡ moves (
          record c { session = s; start_task = absent; finishes = 0 },
          session_stopped ∷ session_started ∷ [],
        )
  unfolding run pool_start deliver_one deliver
  stop_loses_start c url key a flow_ok joins s t k n i e =
      rw (stop_joining_idle c flow_ok joins i, t, k, n, e) refl

  -- The destructor while the session's start is in the pool waits for it, and then destroys the
  -- session that it has made, which is not stopped before.
  destroy_after_start :
      (c : Controller f) (url key : String) (a : Answers) (s : Session f) (success : Bool)
      → c.start_task ≡ running
      → c.credentials ≡ (url, key)
      → CameraSession.start f c.session url key a ≡ (s, success)
      → (destroy f c ≡ disabled)
        × ((pool_start f c.start_task c a >>= λ q. destroy f q.0) ≡ moves s)
  unfolding destroy pool_start
  destroy_after_start c url key a s success t k e = (rw t refl, rw (t, k, e) refl)
