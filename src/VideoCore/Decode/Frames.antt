-- ===== src/VideoCore/Decode/Frames.antt =====
-- The frames that the decoders (video-core/src/decode) hand to their callback, and those that they drop.
use direct_link.Base.{
  suc, ◌≡◌, refl, true, false, Option, none, some, List, [], ◌∷◌, ◌++◌, map, pos, eq_ℤ, eq_ℤ-eq,
  inl, inr, Bool-cases, arith,
}
use direct_link.VideoCore.Ffmpeg.{nanoseconds, no_pts}
use direct_link.VideoCore.Types.{Packet, Frame, AvFrame}
use direct_link.VideoCore.Drain.{Gives, drain-Gives}
use direct_link.VideoCore.Decode.{Ffmpeg, wrap_frame, receive_frames, rescale_to_ns}
use direct_link.VideoCore.Decode.Nvdec.{wrap_all, transferred}
use direct_link.VideoCore.Decode.Create.{Decoder, software, nvdec, base_of, decode_packet, stop}

module _ (f : Ffmpeg) where
  -- An initialized decoder with this codec behind its context.
  pub record IsReady (d : Decoder f) (s : f.State) : Type 0 where
    pub initialized : (base_of f d).initialized ≡ true
    pub context : (base_of f d).codec_ctx ≡ some (some s)

  abbrev pub with_codec : Decoder f → f.State → Decoder f
  with_codec (software d) s = software (record d { codec_ctx = some (some s) })
  with_codec (nvdec d) s = nvdec (record d { base = record d.base { codec_ctx = some (some s) } })

  -- The image for the callback: on the graphics card it is transferred first, which may fail.
  abbrev pub image_of : Decoder f → AvFrame f.Image → Option (AvFrame f.Image)
  image_of (software d) decoded = some decoded
  image_of (nvdec d) decoded = f.transfer decoded

  -- What the callback is given of a decoded frame and its image: a clone of the image, with its size
  -- and format, and the time of the decoded frame in nanoseconds, zero where the codec gives none.
  pub record IsFrameOf (decoded image : AvFrame f.Image) (q : Frame (Option (AvFrame f.Image)))
      : Type 0 where
    pub frame : q.frame ≡ f.clone image
    pub missing : decoded.pts ≡ no_pts → q.pts ≡ pos 0
    pub rescaled :
        (decoded.pts ≡ no_pts → ⊥) → q.pts ≡ f.rescale_q decoded.pts f.time_base nanoseconds
    pub width : q.width ≡ image.width
    pub height : q.height ≡ image.height
    pub format : q.format ≡ image.format

  wrap_frame-IsFrameOf :
      (decoded image : AvFrame f.Image) → IsFrameOf decoded image (wrap_frame f decoded image)
  unfolding wrap_frame rescale_to_ns
  wrap_frame-IsFrameOf decoded image = record {
    frame = refl;
    missing = λ h. rw h refl;
    rescaled = λ n. elim (Bool-cases (eq_ℤ decoded.pts no_pts)) [
      | inl e ↦ absurd (n (eq_ℤ-eq decoded.pts no_pts e))
      | inr e ↦ rw e refl
    ];
    width = refl;
    height = refl;
    format = refl;
  }

  -- The frames for the callback, in the order of the decoded ones: one for each that has an image.
  pub data HandsOn (image : AvFrame f.Image → Option (AvFrame f.Image))
      : List (AvFrame f.Image) → List (Frame (Option (AvFrame f.Image))) → Type 0 where
    done : HandsOn image [] []
    skips :
        {x : AvFrame f.Image} {xs : List (AvFrame f.Image)}
        {qs : List (Frame (Option (AvFrame f.Image)))}
        → image x ≡ none
        → HandsOn image xs qs
        → HandsOn image (x ∷ xs) qs
    hands :
        {x y : AvFrame f.Image} {q : Frame (Option (AvFrame f.Image))} {xs : List (AvFrame f.Image)}
        {qs : List (Frame (Option (AvFrame f.Image)))}
        → image x ≡ some y
        → IsFrameOf x y q
        → HandsOn image xs qs
        → HandsOn image (x ∷ xs) (q ∷ qs)

  software-HandsOn :
      (fs : List (AvFrame f.Image)) → HandsOn (λ x. some x) fs (map (λ x. wrap_frame f x x) fs)
  software-HandsOn [] = done
  software-HandsOn (x ∷ xs) = hands refl (wrap_frame-IsFrameOf x x) (software-HandsOn xs)

  transferred-HandsOn :
      (x : AvFrame f.Image) (o : Option (AvFrame f.Image)) (xs : List (AvFrame f.Image))
      → f.transfer x ≡ o
      → HandsOn f.transfer xs (wrap_all f xs)
      → HandsOn f.transfer (x ∷ xs) (transferred f x o ++ wrap_all f xs)
  unfolding transferred
  transferred-HandsOn x none xs e h = skips e h
  transferred-HandsOn x (some y) xs e h = hands e (wrap_frame-IsFrameOf x y) h

  wrap_all-HandsOn : (fs : List (AvFrame f.Image)) → HandsOn f.transfer fs (wrap_all f fs)
  unfolding wrap_all
  wrap_all-HandsOn [] = done
  wrap_all-HandsOn (x ∷ xs) = transferred-HandsOn x (f.transfer x) xs refl (wrap_all-HandsOn xs)

  receive_frames-Gives :
      (s : f.State) → Gives f.receive_frame s (receive_frames f s).0 (receive_frames f s).1
  unfolding receive_frames
  receive_frames-Gives s =
      drain-Gives f.receive_frame f.pending f.pending_falls (suc (f.pending s)) s (omega arith)

  -- When an initialized decoder with a callback has its packet accepted, the loop ends once the codec
  -- has no more frames, and of each that the codec yields the callback is given one, in order, with
  -- its image, size, format and time in nanoseconds; but on the graphics card those that cannot be
  -- transferred are skipped.
  pub decode_packet-Gives :
      (d : Decoder f) (s : f.State) (packet : Packet f.Payload)
      → IsReady d s
      → (base_of f d).has_callback ≡ true
      → (f.send_packet s (some packet.packet)).1 ≡ true
      → (fs : List (AvFrame f.Image)) × (t : f.State) × Gives f.receive_frame
          (f.send_packet s (some packet.packet)).0
          t
          fs
        × (qs : List (Frame (Option (AvFrame f.Image)))) × (decode_packet f d packet
            ≡ some (with_codec d t, qs))
        × HandsOn (image_of d) fs qs
  unfolding decode_packet
  decode_packet-Gives (software d) s packet v cb a =
      let q = (f.send_packet s (some packet.packet)).0 in
      let fs = (receive_frames f q).1 in
      (
        fs,
        (receive_frames f q).0,
        receive_frames-Gives q,
        map (λ x. wrap_frame f x x) fs,
        ground (arith, v.initialized, v.context),
        software-HandsOn fs,
      )
  decode_packet-Gives (nvdec d) s packet v cb a =
      let q = (f.send_packet s (some packet.packet)).0 in
      let fs = (receive_frames f q).1 in
      (
        fs,
        (receive_frames f q).0,
        receive_frames-Gives q,
        wrap_all f fs,
        ground (arith, v.initialized, v.context),
        wrap_all-HandsOn fs,
      )

  decode_packet-refused :
      (d : Decoder f) (s : f.State) (packet : Packet f.Payload)
      → IsReady d s
      → (f.send_packet s (some packet.packet)).1 ≡ false
      → decode_packet f d packet ≡ some (with_codec d (f.send_packet s (some packet.packet)).0, [])
  unfolding decode_packet
  decode_packet-refused (software d) s packet v a = ground (arith, v.initialized, v.context)
  decode_packet-refused (nvdec d) s packet v a = ground (arith, v.initialized, v.context)

  -- `stop` drops all that the codec yields after the flush, and frees the context; the decoder then
  -- ignores every packet, and a second `stop`.
  stop_drops :
      (d : Decoder f) (s : f.State) (packet : Packet f.Payload)
      → IsReady d s
      → (t : f.State) × Gives f.receive_frame (f.send_packet s none).0 t (stop f d).1
        × ((base_of f (stop f d).0).codec_ctx ≡ none)
        × (decode_packet f (stop f d).0 packet ≡ some ((stop f d).0, []))
        × (stop f (stop f d).0 ≡ ((stop f d).0, []))
  unfolding stop decode_packet
  stop_drops (software d) s packet v =
      let q = (f.send_packet s none).0 in
      (
        (receive_frames f q).0,
        rw (v.initialized, v.context) (receive_frames-Gives q),
        ground (arith, v.initialized),
        ground (arith, v.initialized),
        ground (arith, v.initialized),
      )
  stop_drops (nvdec d) s packet v =
      let q = (f.send_packet s none).0 in
      (
        (receive_frames f q).0,
        rw (v.initialized, v.context) (receive_frames-Gives q),
        ground (arith, v.initialized),
        ground (arith, v.initialized),
        ground (arith, v.initialized),
      )
