-- ===== src/VideoCore/Pipeline/Threads/Taken.antt =====
-- The frame that `encodeLoop` (video-core/src/pipeline/video_pipeline.cpp) has in hand.
use mathlib.Core.List.{append-nil}
use direct_link.Base.{◌≡◌, refl, sym, ap, ◌∙◌, Bool, true, false, some, List, [], ◌∷◌, ◌++◌, arith}
use direct_link.VideoCore.Pipeline.Threads.{
  Threads, Label, capture_push, capture_notify, encode_step, owner_step, EncodePc, loop_head,
  at_lock, waiting, encoding, exited, take_frame, encode_next, fire, wake,
}
use direct_link.VideoCore.Pipeline.Threads.Invariant.{make_room-rest}

module _ {F : Type 0} where
  abbrev pub in_hand : EncodePc F → List F
  in_hand (encoding frame) = frame ∷ []
  in_hand pc = []

  -- Does this step end an `encodeFrame`?
  abbrev pub is_encoded : Label F → EncodePc F → Bool
  is_encoded encode_step (encoding frame) = true
  is_encoded l pc = false

  -- Besides the frame in hand, these frames were taken.
  abbrev pub HasDone : List F → Threads F → Type 0
  HasDone done s = s.taken ≡ done ++ in_hand s.encode_pc

  wake-in_hand : (pc : EncodePc F) → in_hand (wake pc) ≡ in_hand pc
  unfolding wake
  wake-in_hand loop_head = refl
  wake-in_hand _ = refl

  take_frame-HasDone :
      (done q : List F) (s : Threads F)
      → s.encode_pc ≡ at_lock
      → HasDone done s
      → HasDone done (take_frame q s)
  unfolding take_frame
  take_frame-HasDone done [] s p v = ground arith
  take_frame-HasDone done (f ∷ fs) s p v =
      ap (λ ts. ts ++ f ∷ []) (v ∙ ap (λ pc. done ++ in_hand pc) p ∙ append-nil done)

  encode_next-HasDone :
      (done : List F) (pc : EncodePc F) (s t : Threads F)
      → s.encode_pc ≡ pc
      → encode_next pc s ≡ some t
      → is_encoded encode_step pc ≡ false
      → HasDone done s
      → HasDone done t
  unfolding encode_next
  encode_next-HasDone done loop_head s t p e n v = ground arith
  encode_next-HasDone done at_lock s t p e n v =
      ground (arith, take_frame-HasDone done s.frame_queue s p v)
  encode_next-HasDone done waiting s t p e n v = ground arith
  encode_next-HasDone done (encoding f) s t p e n v = ground arith
  encode_next-HasDone done exited s t p e n v = ground arith

  -- A step that ends no `encodeFrame` leaves the finished frames as they are.
  pub fire-HasDone :
      (done : List F) (l : Label F) (s t : Threads F)
      → fire l s ≡ some t
      → is_encoded l s.encode_pc ≡ false
      → HasDone done s
      → HasDone done t
  unfolding fire
  fire-HasDone done (capture_push f) s t e n v = ground (arith, make_room-rest s.frame_queue s)
  fire-HasDone done encode_step s t e n v = encode_next-HasDone done s.encode_pc s t refl e n v
  fire-HasDone done capture_notify s t e n v = ground (arith, wake-in_hand s.encode_pc)
  fire-HasDone done owner_step s t e n v = ground (arith, wake-in_hand s.encode_pc)
  fire-HasDone done _ s t e n v = ground arith

  -- One that does adds the frame in hand to them.
  pub encoded-HasDone :
      (done : List F) (frame : F) (s t : Threads F)
      → s.encode_pc ≡ encoding frame
      → fire encode_step s ≡ some t
      → HasDone done s
      → HasDone (done ++ frame ∷ []) t
  unfolding fire encode_next
  encoded-HasDone done frame s t p e v =
      let same : t.taken ≡ s.taken = ground arith in
      let head : t.encode_pc ≡ loop_head = ground arith in
      same
      ∙ v
      ∙ ap (λ pc. done ++ in_hand pc) p
      ∙ sym (append-nil (done ++ frame ∷ []))
      ∙ ap (λ pc. (done ++ frame ∷ []) ++ in_hand pc) (sym head)
