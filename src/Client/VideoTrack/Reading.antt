-- ===== src/Client/VideoTrack/Reading.antt =====
-- When client/src/videotrack.cpp reads a stream, and what it makes of its frames.
use direct_link.Base.{
  All, ℕ, suc, ◌≤◌, ◌≡◌, refl, ap, true, false, Option, none, some, List, [], ◌∷◌, ◌++◌, Bool, ℤ,
  pos_part, ltb, if◌then◌else◌, length, length-append, arith, inl, inr, Bool-cases, Option-cases,
}
use direct_link.Client.Task.{Outcome, moves, Ensures, bind-Ensures, ◌>>=◌}
use direct_link.Client.FrameReader.{
  Image, Mapped, push_placeholder, push_span, Mapped, Shown, push_frame, push_placeholder,
  push_span,
}
use direct_link.Client.FrameReader.Sinks.{IsFor, push_frame-IsFor}
use direct_link.Client.VideoTrack.{
  Track, Event, Signal, aspect_ratio_changed, set_track, set_video_sink, read_one, read_all,
  store_ratio,
}

-- The placeholder goes to a sink that stays without a fault.
push_placeholder-moves :
    (p : Option Image) (s : ℕ) (mapped : Mapped)
    → (ps : Shown) × (push_placeholder p (λ i. some s) 0 mapped ≡ moves ps)
unfolding push_placeholder push_span
push_placeholder-moves none s mapped = ([], refl)
push_placeholder-moves (some image) s mapped = elim (Option-cases mapped.splash) [
  | inl b ↦ rw b ([], refl)
  | inr (bits, b) ↦ rw b (_, refl)
]

-- The sink first and then the track, or the track first and then the sink, to a track without
-- either: the same comes of it, and the loop runs if the SDK has made the stream.
pub set_track-set_video_sink :
    (t : Track) (s : ℕ) (made : Bool) (mapped : Mapped)
    → t.reader.sink ≡ none
    → t.stream ≡ none
    → t.loop ≡ none
    → let after_sink = set_video_sink t (some s) mapped >>= λ q. moves (set_track made q.0).0 in
      (after_sink ≡ (set_video_sink (set_track made t).0 (some s) mapped >>= λ q. moves q.0))
      × Ensures
          (λ u. (u.loop ≡ (if made then some false else none)) × (u.reader.sink ≡ some s))
          after_sink
unfolding set_track set_video_sink
set_track-set_video_sink t s made mapped n m l =
    let (ps, e) = push_placeholder-moves t.reader.placeholder s mapped in
    elim (Bool-cases made) [
      | inl k ↦ rw (k, n, m, l, e) (refl, (refl, refl))
      | inr k ↦ rw (k, n, m, l, e) (refl, (refl, refl))
    ]

-- Width and height of the first frame that has a height.
pub first_ratio : List Event → Option (ℤ × ℤ)
first_ratio [] = none
first_ratio (e ∷ es) =
    let rest = first_ratio es in
    if ltb 0 (pos_part e.frame.height) then some (e.frame.width, e.frame.height) else rest

abbrev pub or_else : Option (ℤ × ℤ) → ℤ × ℤ → ℤ × ℤ
or_else none r = r
or_else (some q) r = q

abbrev pub once : Option (ℤ × ℤ) → List Signal
once none = []
once (some r) = aspect_ratio_changed ∷ []

-- What becomes of the track, of the pictures and of the signals when it reads these frames.
pub record Reads (es : List Event) (t u : Track) (ps : Shown) (ss : List Signal) : Type 0 where
  pub ratio_lem : u.ratio ≡ or_else (first_ratio es) t.ratio
  pub signals : ss ≡ once (first_ratio es)
  pub shown : length ps ≤ length es
  pub to_sink : All (λ p. t.reader.sink ≡ some p.0) ps

-- The same when the loop has stored a ratio before.
record ReadsOn (es : List Event) (t u : Track) (ps : Shown) (ss : List Signal) : Type 0 where
  ratio_lem : u.ratio ≡ t.ratio
  signals : ss ≡ []
  shown : length ps ≤ length es
  to_sink : All (λ p. t.reader.sink ≡ some p.0) ps

All-append : {A : Type 0} (P : A → Type 0) (xs ys : List A) → All P xs → All P ys → All P (xs ++ ys)
All-append P [] ys a b = b
All-append P (x ∷ xs) ys (h, a) b = (h, All-append P xs ys a b)

shown-append : (ps qs : Shown) (n : ℕ) → length ps ≤ 1 → length qs ≤ n → length (ps ++ qs) ≤ suc n
shown-append ps qs n h k = omega (arith, length-append ps qs)

push-IsFor :
    (t : Track) (e : Event)
    → Ensures
        (λ ps. IsFor t.reader.sink ps)
        (push_frame t.reader.placeholder (λ i. t.reader.sink) e.mapped e.frame e.converted)
push-IsFor t e =
    push_frame-IsFor t.reader.placeholder (λ i. t.reader.sink) e.mapped t.reader.sink e.frame
      e.converted (λ i. refl)

-- One frame, and then the rest.
read_step :
    (u : Track) (e : Event) (es : List Event) (ss : List Signal)
    (P Q : Track × Shown × List Signal → Type 0)
    → Ensures Q (read_all es u)
    → ((ps : Shown) (r : Track × Shown × List Signal)
        → IsFor u.reader.sink ps
        → Q r
        → P (r.0, ps ++ r.1, ss ++ r.2))
    → Ensures P (
        push_frame u.reader.placeholder (λ i. u.reader.sink) e.mapped e.frame e.converted
        >>= (λ ps. moves (u, ps, ss))
        >>= λ (q : Track × Shown × List Signal).
            read_all es q.0 >>= λ (r : Track × Shown × List Signal).
            moves (r.0, q.1 ++ r.1, q.2 ++ r.2))
read_step u e es ss P Q h f =
    push_step (push_frame u.reader.placeholder (λ i. u.reader.sink) e.mapped e.frame e.converted)
      (push-IsFor u e)
  where
    push_step :
        (o : Outcome Shown)
        → Ensures (λ ps. IsFor u.reader.sink ps) o
        → Ensures P (
            o >>= (λ ps. moves (u, ps, ss)) >>= λ (q : Track × Shown × List Signal).
            read_all es q.0 >>= λ (r : Track × Shown × List Signal).
            moves (r.0, q.1 ++ r.1, q.2 ++ r.2))
    push_step (moves ps) v =
        bind-Ensures Q P (read_all es u) (λ r. moves (r.0, ps ++ r.1, ss ++ r.2)) h
          (λ r q. f ps r v q)
    push_step Outcome.disabled v = tt
    push_step Outcome.blocks v = absurd v
    push_step Outcome.faults v = absurd v

read_all-running :
    (b : Bool) (e : Event) (es : List Event) (t : Track)
    → t.loop ≡ some b
    → read_all (e ∷ es) t ≡ (
        read_one b e t >>= λ (q : Track × Shown × List Signal).
        read_all es q.0 >>= λ (r : Track × Shown × List Signal).
        moves (r.0, q.1 ++ r.1, q.2 ++ r.2))
unfolding read_all
read_all-running b e es t l = rw l refl

read_all-ReadsOn :
    (es : List Event) (t : Track)
    → t.loop ≡ some true
    → Ensures (λ q. ReadsOn es t q.0 q.1 q.2) (read_all es t)
unfolding read_one store_ratio
read_all-ReadsOn [] t l =
    unfold read_all in
    record { ratio_lem = refl; signals = refl; shown = omega arith; to_sink = tt }
read_all-ReadsOn (e ∷ es) t l = rw (read_all-running true e es t l) (
    read_step t e es [] (λ q. ReadsOn (e ∷ es) t q.0 q.1 q.2) (λ q. ReadsOn es t q.0 q.1 q.2)
      (read_all-ReadsOn es t l)
      (λ ps r v q. record {
        ratio_lem = q.ratio_lem;
        signals = q.signals;
        shown = shown-append ps r.1 (length es) v.at_most_one q.shown;
        to_sink = All-append (λ p. t.reader.sink ≡ some p.0) ps r.1 v.to_sink q.to_sink;
      }))

-- The loop reads these frames, from its start on, while the sink stays: the ratio is that of the first frame that has a
-- height, and is announced once, or stays as it was, unannounced, if none has; at most one picture for each frame is
-- shown, to the sink.
pub read_all-Reads :
    (es : List Event) (t : Track)
    → t.loop ≡ some false
    → Ensures (λ q. Reads es t q.0 q.1 q.2) (read_all es t)
unfolding read_one store_ratio first_ratio
read_all-Reads [] t l =
    unfold read_all in
    record { ratio_lem = refl; signals = refl; shown = omega arith; to_sink = tt }
read_all-Reads (e ∷ es) t l = elim (Bool-cases (ltb 0 (pos_part e.frame.height))) [
  | inl h ↦ rw (read_all-running false e es t l) (
      rw h (
        read_step (record t { ratio = (e.frame.width, e.frame.height); loop = some true }) e es
          (aspect_ratio_changed ∷ []) (λ q. Reads (e ∷ es) t q.0 q.1 q.2)
          (λ q.
            ReadsOn es (record t { ratio = (e.frame.width, e.frame.height); loop = some true }) q.0
              q.1 q.2)
          (read_all-ReadsOn es
            (record t { ratio = (e.frame.width, e.frame.height); loop = some true }) refl)
          (λ ps r v q. record {
            ratio_lem = rw h q.ratio_lem;
            signals = rw h (ap (λ k. aspect_ratio_changed ∷ k) q.signals);
            shown = shown-append ps r.1 (length es) v.at_most_one q.shown;
            to_sink = All-append (λ p. t.reader.sink ≡ some p.0) ps r.1 v.to_sink q.to_sink;
          })))
  | inr h ↦ rw (read_all-running false e es t l) (
      rw h (
        read_step t e es [] (λ q. Reads (e ∷ es) t q.0 q.1 q.2) (λ q. Reads es t q.0 q.1 q.2)
          (read_all-Reads es t l)
          (λ ps r v q. record {
            ratio_lem = rw h q.ratio_lem;
            signals = rw h q.signals;
            shown = shown-append ps r.1 (length es) v.at_most_one q.shown;
            to_sink = All-append (λ p. t.reader.sink ≡ some p.0) ps r.1 v.to_sink q.to_sink;
          })))
]
