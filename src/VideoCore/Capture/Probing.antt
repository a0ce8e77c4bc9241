-- ===== src/VideoCore/Capture/Probing.antt =====
-- `buildPipeline` of video-core/src/capture/camera_capture.cpp: which candidate is kept, and what
-- becomes of the GStreamer pipelines of those that are not.
use mathlib.Core.Path.{subst}
use direct_link.Base.{
  ℕ, zero, suc, ◌≡◌, refl, sym, ap, ◌⊎◌, inl, inr, Bool, true, false, not, ◌||◌, if◌then◌else◌,
  String, Option, none, some, List, [], ◌∷◌, ◌++◌, All, Bool-cases, arith,
}
use direct_link.Gstreamer.{StateChange, failure, ready}
use direct_link.VideoCore.Types.{Result, success, error_device_not_found}
use direct_link.VideoCore.Capture.{
  Capture, Probe, is_failure, reaches_ready, kept, is_sinkless, refused_by, try_candidates,
}

-- What the loop does with the reference of one candidate's pipeline: gst_parse_launch gives it,
-- every other call uses it, and gst_object_unref gives it back.
pub data PipelineCall : Type 0 where
  launched used released : PipelineCall

-- From gst_bin_get_by_name on, or from the diagnostics of a candidate that did not reach READY.
after_wait : Probe → List PipelineCall
unfolding kept
after_wait g =
    if kept g
    then used ∷ []
    else if reaches_ready g
    then used ∷ used ∷ released ∷ used ∷ used ∷ released ∷ []
    else used ∷ used ∷ released ∷ []

-- The calls for one candidate, in order.
probe_calls : Probe → List PipelineCall
unfolding after_wait
probe_calls g =
    if not g.parsed
    then []
    else if g.parse_error
    then launched ∷ released ∷ []
    else launched ∷ used ∷ (if is_failure g.set_ready then after_wait g else used ∷ after_wait g)

-- The references that are held after some calls; `none` is a use of a pipeline that is gone.
references : ℕ → List PipelineCall → Option ℕ
references n [] = some n
references n (launched ∷ cs) = references (suc n) cs
references zero (used ∷ cs) = none
references (suc n) (used ∷ cs) = references (suc n) cs
references zero (released ∷ cs) = none
references (suc n) (released ∷ cs) = references n cs

-- Unless a pipeline reaches READY and has no sink, its candidate uses it only while it holds a
-- reference, and is left with one exactly when the candidate is kept.
probe_balanced :
    (g : Probe)
    → (reaches_ready g ≡ false) ⊎ (g.sink ≡ true)
    → references 0 (probe_calls g) ≡ some (if kept g then 1 else 0)
unfolding references probe_calls
probe_balanced g h = ground arith

-- A candidate that is parsed, reaches READY and has no sink is released, and then used again.
probe_use_after_release :
    (g : Probe)
    → g.parsed ≡ true
    → g.parse_error ≡ false
    → reaches_ready g ≡ true
    → g.sink ≡ false
    → references 0 (probe_calls g) ≡ none
unfolding references probe_calls
probe_use_after_release g p e r s = ground arith

-- GStreamer makes the pipeline, and brings it to READY, as asked.
pub record ReachesReady (g : Probe) : Type 0 where
  pub no_error : g.parse_error ≡ false
  pub parsed : g.parsed ≡ true
  pub set_ready : g.set_ready ≡ failure → ⊥
  pub get_ready : g.get_ready ≡ failure → ⊥
  pub reached : g.reached ≡ ready

-- A candidate that the code is to keep: it reaches READY and has a sink.
abbrev pub IsGood : Probe → Type 0
IsGood g = ReachesReady g × (g.sink ≡ true)

-- If it reaches READY it has a sink.
abbrev pub HasSinkIfReady : Probe → Type 0
HasSinkIfReady g = ReachesReady g → g.sink ≡ true

not_failure : (r : StateChange) → is_failure r ≡ false → r ≡ failure → ⊥
not_failure r h e = ground arith

is_not_failure : (r : StateChange) → (r ≡ failure → ⊥) → is_failure r ≡ false
is_not_failure failure n = absurd (n refl)
is_not_failure _ n = refl

reaches_ready-ReachesReady :
    (g : Probe) → g.parse_error ≡ false → g.parsed ≡ true → reaches_ready g ≡ true → ReachesReady g
unfolding reaches_ready
reaches_ready-ReachesReady g e p h = record {
  no_error = e;
  parsed = p;
  set_ready = not_failure g.set_ready (ground arith);
  get_ready = not_failure g.get_ready (ground arith);
  reached = ground arith;
}

ReachesReady-reaches_ready : (g : Probe) → ReachesReady g → reaches_ready g ≡ true
unfolding reaches_ready
ReachesReady-reaches_ready g v =
    rw (is_not_failure g.set_ready v.set_ready, is_not_failure g.get_ready v.get_ready, v.reached)
      refl

kept-IsGood : (g : Probe) → kept g ≡ true → IsGood g
unfolding kept
kept-IsGood g h =
    (reaches_ready-ReachesReady g (ground arith) (ground arith) (ground arith), ground arith)

kept-refused : (g : Probe) → kept g ≡ false → IsGood g → ⊥
unfolding kept
kept-refused g h (v, s) =
    let r = ReachesReady-reaches_ready g v in
    let e = v.no_error in let p = v.parsed in ground (arith, r, e, p)

sinkless : (g : Probe) → HasSinkIfReady g → (b : Bool) → is_sinkless g ≡ b → is_sinkless g ≡ false
unfolding is_sinkless
sinkless g n false h = h
sinkless g n true h =
    let s = n (reaches_ready-ReachesReady g (ground arith) (ground arith) (ground arith)) in
    absurd (ground (arith, s))

-- A candidate that has a sink if it reaches READY leaves the capture alone when it is refused.
refused_by_lem : (g : Probe) (c : Capture) → HasSinkIfReady g → refused_by g c ≡ c
refused_by_lem g c n =
    ap (λ b. record c { faulted = b }) (rw (sinkless g n (is_sinkless g) refl) (ground arith))

-- The first candidate in the list that is good, with those before it all bad.
pub record First (probe : String → Probe) (ds : List String) : Type 0 where
  pub before : List String
  pub chosen : String
  pub after : List String
  pub split : ds ≡ before ++ chosen ∷ after
  pub refused : All (λ d. IsGood (probe d) → ⊥) before
  pub accepted : IsGood (probe chosen)

-- The capture has the pipeline and the sink of that candidate, in READY, and the configured size.
pub record Found (probe : String → Probe) (ds : List String) (c : Capture) (r : Capture × Result)
    : Type 0 where
  pub first : First probe ds
  pub result : r.1 ≡ success
  pub capture : r.0 ≡ record c {
    pipeline = true;
    appsink = true;
    width = c.config.width;
    height = c.config.height;
    framerate = c.config.framerate;
    requested = ready;
  }

-- No candidate is good.
abbrev pub Missed : (String → Probe) → List String → Capture → Capture × Result → Type 0
Missed probe ds c r = All (λ d. IsGood (probe d) → ⊥) ds × (r ≡ (c, error_device_not_found))

try_candidates-refused :
    (probe : String → Probe) (d : String) (ds : List String) (c : Capture)
    → kept (probe d) ≡ false
    → HasSinkIfReady (probe d)
    → try_candidates probe (d ∷ ds) c ≡ try_candidates probe ds c
unfolding try_candidates
try_candidates-refused probe d ds c n h =
    rw (n, try_candidates) (ap (λ x. try_candidates probe ds x) (refused_by_lem (probe d) c h))

after_refusal :
    (probe : String → Probe) (d : String) (ds : List String)
    → kept (probe d) ≡ false
    → (r : Capture × Result) (c : Capture) → Found probe ds c r ⊎ Missed probe ds c r
    → Found probe (d ∷ ds) c r ⊎ Missed probe (d ∷ ds) c r
after_refusal probe d ds n r c (inl v) = inl (record {
  first = record {
    before = d ∷ v.first.before;
    chosen = v.first.chosen;
    after = v.first.after;
    split = ap (◌∷◌ d) v.first.split;
    refused = (kept-refused (probe d) n, v.first.refused);
    accepted = v.first.accepted;
  };
  result = v.result;
  capture = v.capture;
})
after_refusal probe d ds n r c (inr (hs, e)) = inr ((kept-refused (probe d) n, hs), e)

-- If every candidate that reaches READY has a sink, `buildPipeline` keeps the first one that reaches
-- READY, takes its pipeline and sink and the configured size, and uses no pipeline that is released;
-- or none reaches READY, it reports that there is no device, and the capture is as it was.
pub try_candidates_outcome :
    (probe : String → Probe) (ds : List String) (c : Capture)
    → All (λ d. HasSinkIfReady (probe d)) ds
    → Found probe ds c (try_candidates probe ds c) ⊎ Missed probe ds c (try_candidates probe ds c)
unfolding try_candidates
try_candidates_outcome probe [] c h = inr (tt, refl)
try_candidates_outcome probe (d ∷ ds) c (h, hs) = elim (Bool-cases (kept (probe d))) [
  | inl k ↦
      rw (k, try_candidates)
        (inl (record {
          first = record {
            before = [];
            chosen = d;
            after = ds;
            split = refl;
            refused = tt;
            accepted = kept-IsGood (probe d) k;
          };
          result = refl;
          capture = refl;
        }))
  | inr n ↦
      subst (λ r. Found probe (d ∷ ds) c r ⊎ Missed probe (d ∷ ds) c r)
        (sym (try_candidates-refused probe d ds c n h))
        (after_refusal probe d ds n (try_candidates probe ds c) c
          (try_candidates_outcome probe ds c hs))
]

try_candidates-faulted :
    (probe : String → Probe) (ds : List String) (c : Capture)
    → c.faulted ≡ true
    → (try_candidates probe ds c).0.faulted ≡ true
unfolding try_candidates
try_candidates-faulted probe [] c h = h
try_candidates-faulted probe (d ∷ ds) c h = elim (Bool-cases (kept (probe d))) [
  | inl k ↦ rw (k, try_candidates) h
  | inr n ↦
      rw (n, try_candidates) (try_candidates-faulted probe ds (refused_by (probe d) c) (rw h refl))
]

or_true : (b : Bool) → (b || true) ≡ true
or_true true = refl
or_true false = refl

-- A first candidate that reaches READY and has no sink: a pipeline is used after its release,
-- whatever comes of the others.
sinkless_faults :
    (probe : String → Probe) (d : String) (ds : List String) (c : Capture)
    → ReachesReady (probe d)
    → (probe d).sink ≡ false
    → (try_candidates probe (d ∷ ds) c).0.faulted ≡ true
unfolding try_candidates kept is_sinkless
sinkless_faults probe d ds c v s =
    let g = probe d in
    let r = ReachesReady-reaches_ready g v in
    let k : kept g ≡ false = ground (arith, s) in
    let l : is_sinkless g ≡ true = rw (v.no_error, v.parsed, r, s) refl in
    rw (k, try_candidates)
      (try_candidates-faulted probe ds (refused_by g c) (rw l (or_true c.faulted)))
