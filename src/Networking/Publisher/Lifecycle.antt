-- ===== src/Networking/Publisher/Lifecycle.antt =====
-- The states of the publisher (networking/src/whip_publisher.cpp): `initialize`, `start`, `stop`.
use direct_link.Base.{
  ◌≡◌, ◌⊎◌, Bool, true, false, not, ◌&&◌, if◌then◌else◌, String, List, [], ◌∷◌, ℤ, negsuc, none,
  arith,
}
use direct_link.VideoCore.Types.{Packet}
use direct_link.Networking.Types.{success, error_pipeline_failed, error_not_initialized}
use direct_link.Gstreamer.{StateChange, async, failure}
use direct_link.Networking.Publisher.{
  Publisher, Elements, new, destroy, initialize, set_keyframe_request_callback, start, stop,
  push_packet,
}

-- The publisher owns the pipeline that it holds, and runs only with a pipeline and a source.
pub record Inv (p : Publisher) : Type 0 where
  pub owned : p.live_pipelines ≡ (if p.pipeline then 1 else 0)
  pub complete : p.running ≡ true → (p.pipeline ≡ true) × (p.appsrc ≡ true)

module _ (P : Type 0) where
  pub data Call : Type 0 where
    initializes : String → String → ℤ → Bool → Elements → Call
    sets_keyframe_callback : Bool → Call
    starts : StateChange → StateChange → Call
    stops : Call
    pushes : Packet P → Bool → Call

  unfoldable pub perform : Call → Publisher → Publisher
  perform (initializes url key rate cb g) p = (initialize p url key rate cb g).0
  perform (sets_keyframe_callback cb) p = set_keyframe_request_callback p cb
  perform (starts ret waited) p = (start p ret waited).0
  perform stops p = (stop p).0
  perform (pushes packet flow_ok) p = (push_packet p packet flow_ok).publisher

  -- A publisher is initialized only without a pipeline; one whose elements could not all be made
  -- has a pipeline, and must not be started.
  abbrev pub Allowed : Call → Publisher → Type 0
  Allowed (initializes url key rate cb g) p = p.pipeline ≡ false
  Allowed (starts ret waited) p = (p.pipeline ≡ true) → (p.appsrc ≡ true)
  Allowed call p = Unit {0}

  -- Every call keeps the invariant, that the publisher owns the one pipeline that it holds and
  -- runs only with a pipeline and a source, as long as it is initialized only without a pipeline
  -- and not started with a pipeline that has no source.
  pub perform-Inv : (call : Call) (p : Publisher) → Allowed call p → Inv p → Inv (perform call p)
  unfolding perform initialize set_keyframe_request_callback start stop push_packet
  perform-Inv (initializes url key rate cb g) p a v = ground arith
  perform-Inv (sets_keyframe_callback cb) p a v = ground arith
  perform-Inv (starts failure waited) p a v = ground arith
  perform-Inv (starts ret waited) p a v = ground arith
  perform-Inv stops p a v = ground arith
  perform-Inv (pushes packet flow_ok) p a v = ground arith

new-Inv : Inv new
new-Inv = ground arith

destroy-Inv : (p : Publisher) → Inv p → (destroy p).live_pipelines ≡ 0
unfolding destroy
destroy-Inv p v = ground arith

module _ {P : Type 0} where
  unfoldable pub perform_all : List (Call P) → Publisher → Publisher
  perform_all [] p = p
  perform_all (call ∷ calls) p = perform_all calls (perform P call p)

  -- Each call is allowed at its turn.
  unfoldable pub AllAllowed : List (Call P) → Publisher → Type 0
  AllAllowed [] p = Unit
  AllAllowed (call ∷ calls) p = Allowed P call p × AllAllowed calls (perform P call p)

  perform_all-Inv :
      (calls : List (Call P)) (p : Publisher)
      → AllAllowed calls p
      → Inv p
      → Inv (perform_all calls p)
  unfolding perform_all AllAllowed
  perform_all-Inv [] p a v = v
  perform_all-Inv (call ∷ calls) p (a, rest) v =
      perform_all-Inv calls (perform P call p) rest (perform-Inv P call p a v)

  -- A publisher that is made, used by calls that are each allowed at their turn, and destroyed
  -- leaves no pipeline alive.
  destroy_leaves_none :
      (calls : List (Call P))
      → AllAllowed calls new
      → (destroy (perform_all calls new)).live_pipelines ≡ 0
  destroy_leaves_none calls a =
      destroy-Inv (perform_all calls new) (perform_all-Inv calls new a new-Inv)

abbrev complete_elements : Elements → Bool
complete_elements g = g.appsrc && g.h264parse && g.rtph264pay && g.whipsink

-- `initialize` succeeds exactly when GStreamer gives and links every part; then the pipeline is
-- there. Otherwise it reports ErrorPipelineFailed, and the pipeline is gone, except when it was an
-- element that could not be made.
initialize_outcome :
    (p : Publisher) (url key : String) (rate : ℤ) (cb : Bool) (g : Elements)
    → let r = initialize p url key rate cb g in
      (((r.1 ≡ success)
          × (r.0.pipeline ≡ true)
          × ((g.pipeline && complete_elements g && g.links && g.sink_pad && g.pad_link) ≡ true))
        ⊎ ((r.1 ≡ error_pipeline_failed)
            × (r.0.pipeline ≡ (g.pipeline && not (complete_elements g)))
            × ((g.pipeline && complete_elements g && g.links && g.sink_pad && g.pad_link) ≡ false)))
unfolding initialize
initialize_outcome p url key rate cb g = ground arith

-- Does `start` bring an initialized publisher that is not running to PLAYING?
abbrev pub handshake : StateChange → StateChange → Bool
handshake failure waited = false
handshake async failure = false
handshake async async = false
handshake ret waited = true

-- `stop` of a running publisher that has the invariant succeeds, releases the pipeline and forgets
-- the start of the stream; then `start` and `stop` report that it is not initialized, and every
-- packet is dropped.
stop_closes :
    {P : Type 0} (p : Publisher) (ret waited : StateChange) (packet : Packet P) (ok : Bool)
    → Inv p
    → p.running ≡ true
    → let q = (stop p).0 in
      ((stop p).1 ≡ success)
      × (q.live_pipelines ≡ 0)
      × (q.stream_start_pts ≡ negsuc 0)
      × (start q ret waited ≡ (q, error_not_initialized))
      × (stop q ≡ (q, error_not_initialized))
      × (push_packet q packet ok ≡ record { publisher = q; buffer = none; errors = [] })
unfolding stop start push_packet
stop_closes p ret waited packet ok v h =
    (ground arith, ground arith, ground arith, ground arith, ground arith, ground arith)

-- A publisher that does not run, whose pipeline was made and whose source was not, fails to
-- initialize and can be started all the same: where the pipeline reaches PLAYING, `start` reports
-- success for a publisher without a source.
initialize_failed_start :
    (p : Publisher) (url key : String) (rate : ℤ) (cb : Bool) (g : Elements)
    (ret waited : StateChange)
    → p.running ≡ false
    → g.pipeline ≡ true
    → g.appsrc ≡ false
    → handshake ret waited ≡ true
    → let r = initialize p url key rate cb g in
      (r.1 ≡ error_pipeline_failed)
      × ((start r.0 ret waited).1 ≡ success)
      × (¬ Inv (start r.0 ret waited).0)
unfolding initialize start
initialize_failed_start p url key rate cb g ret waited idle made lacks h = ground arith
