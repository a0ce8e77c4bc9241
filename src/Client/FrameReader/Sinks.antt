-- ===== src/Client/FrameReader/Sinks.antt =====
-- What client/src/framereader.cpp gives to a sink that stays, and its conversions to RGBA.
use direct_link.Base.{
  both_branches, ℕ, suc, ◌≤◌, ◌≡◌, refl, sym, true, false, Option, none, some, List, [], ◌∷◌, ◌==◌,
  pos, arith, Bool, ℤ, length, All,
}
use direct_link.Base.Memory.{Bytes}
use direct_link.Client.Task.{moves, Ensures, bind-Ensures}
use direct_link.Client.FrameReader.{
  BufferType, rgba, i420, other, Plane, Frame, Image, Mapped, Readings, Shown, Picture, PixelFormat,
  is_empty, push_frame, show, push_span, push_placeholder, fill, show_planar, push_rgba,
  push_converted, push_i420, push_kind, push_data, after_span,
}

-- At most one picture, and for this sink.
pub record IsFor (sink : Option ℕ) (ps : Shown) : Type 0 where
  pub at_most_one : length ps ≤ 1
  pub to_sink : All (λ p. sink ≡ some p.0) ps

no_picture-IsFor : (sink : Option ℕ) → IsFor sink []
no_picture-IsFor sink = record { at_most_one = omega arith; to_sink = tt }

show-IsFor : (s : ℕ) (p : Picture) → Ensures (λ ps. IsFor (some s) ps) (show (some s) p)
show-IsFor s p = record { at_most_one = omega arith; to_sink = (refl, tt) }

fill-IsFor :
    (sink : Option ℕ) (bits : Option Bytes) (bytes : Bytes) (size : ℕ) (format : PixelFormat)
    (w h : ℤ)
    → Ensures (λ r. IsFor sink r.1) (fill sink sink bits bytes size format w h)
fill-IsFor none bits bytes size format w h = no_picture-IsFor none
fill-IsFor (some s) none bytes size format w h = no_picture-IsFor (some s)
fill-IsFor (some s) (some bits) bytes size format w h = record {
  at_most_one = omega arith;
  to_sink = (refl, tt);
}

module _ (placeholder : Option Image) (sinks : Readings) (mapped : Mapped) (sink : Option ℕ)
    (stays : (i : ℕ) → sinks i ≡ sink) where
  push_span-IsFor :
      (i : ℕ) (bits : Option Bytes) (bytes : Bytes) (size : ℕ) (format : PixelFormat) (w h : ℤ)
      → Ensures (λ r. IsFor sink r.1) (push_span sinks i bits bytes size format w h)
  unfolding push_span
  push_span-IsFor i bits bytes size format w h =
      rw (stays i, stays (suc i)) (fill-IsFor sink bits bytes size format w h)

  push_placeholder-IsFor :
      (p : Option Image) (i : ℕ) → Ensures (λ ps. IsFor sink ps) (push_placeholder p sinks i mapped)
  unfolding push_placeholder
  push_placeholder-IsFor none i = no_picture-IsFor sink
  push_placeholder-IsFor (some image) i =
      bind-Ensures (λ r. IsFor sink r.1) (λ ps. IsFor sink ps)
        (push_span sinks i mapped.splash image.bytes image.size PixelFormat.rgbx8888
          (pos image.width) (pos image.height))
        (λ r. moves r.1)
        (push_span-IsFor i mapped.splash image.bytes image.size PixelFormat.rgbx8888
          (pos image.width) (pos image.height))
        (λ r k. k)

  after_span-IsFor :
      (i : ℕ) (r : Bool × Shown)
      → IsFor sink r.1
      → Ensures (λ ps. IsFor sink ps) (after_span placeholder sinks mapped i r)
  unfolding after_span
  after_span-IsFor i (true, ps) k = k
  after_span-IsFor i (false, ps) k = push_placeholder-IsFor placeholder i

  push_rgba-IsFor :
      (i : ℕ) (w h : ℤ) (bytes : Bytes) (size : ℕ)
      → Ensures (λ ps. IsFor sink ps) (push_rgba placeholder sinks mapped i w h bytes size)
  unfolding push_rgba
  push_rgba-IsFor i w h bytes size =
      bind-Ensures (λ r. IsFor sink r.1) (λ ps. IsFor sink ps)
        (push_span sinks i mapped.rgba bytes size PixelFormat.rgba8888 w h)
        (λ r. after_span placeholder sinks mapped (suc i) r)
        (push_span-IsFor i mapped.rgba bytes size PixelFormat.rgba8888 w h)
        (λ r k. after_span-IsFor (suc i) r k)

  push_converted-IsFor :
      (i : ℕ) (w h : ℤ) (converted : Option (Bytes × ℕ))
      → Ensures (λ ps. IsFor sink ps) (push_converted placeholder sinks mapped i w h converted)
  unfolding push_converted
  push_converted-IsFor i w h none = push_placeholder-IsFor placeholder i
  push_converted-IsFor i w h (some (bytes, size)) = push_rgba-IsFor i w h bytes size

  show_planar-IsFor :
      (s : ℕ) (target : Option (Plane × Plane × Plane)) (w h : ℤ) (planes : Plane × Plane × Plane)
      → Ensures (λ ps. IsFor (some s) ps) (show_planar (some s) target w h planes)
  show_planar-IsFor s none w h planes = no_picture-IsFor (some s)
  show_planar-IsFor s (some target) w h planes = record {
    at_most_one = omega arith;
    to_sink = (refl, tt);
  }

  push_i420-IsFor :
      (now : Option ℕ) (w h : ℤ) (planes : List Plane) (converted : Option (Bytes × ℕ))
      → now ≡ sink
      → Ensures (λ ps. IsFor sink ps) (push_i420 placeholder sinks mapped now w h planes converted)
  unfolding push_i420
  push_i420-IsFor none w h planes converted e = no_picture-IsFor sink
  push_i420-IsFor (some s) w h [] converted e = push_converted-IsFor 1 w h converted
  push_i420-IsFor (some s) w h (y ∷ []) converted e = push_converted-IsFor 1 w h converted
  push_i420-IsFor (some s) w h (y ∷ u ∷ []) converted e = push_converted-IsFor 1 w h converted
  push_i420-IsFor (some s) w h (y ∷ u ∷ v ∷ rest) converted e =
      rw (stays 1, sym e) (show_planar-IsFor s mapped.planar w h (y, u, v))

  push_kind-IsFor :
      (frame : Frame) (bytes : Bytes) (converted : Option (Bytes × ℕ)) (kind : BufferType)
      → Ensures
          (λ ps. IsFor sink ps)
          (push_kind placeholder sinks mapped frame bytes converted kind)
  unfolding push_kind
  push_kind-IsFor frame bytes converted rgba =
      push_rgba-IsFor 0 frame.width frame.height bytes frame.data_size
  push_kind-IsFor frame bytes converted i420 =
      push_i420-IsFor (sinks 0) frame.width frame.height frame.planes converted (stays 0)
  push_kind-IsFor frame bytes converted other =
      push_converted-IsFor 0 frame.width frame.height converted

  push_data-IsFor :
      (frame : Frame) (converted : Option (Bytes × ℕ)) (data_ptr : Option Bytes)
      → Ensures (λ ps. IsFor sink ps) (push_data placeholder sinks mapped frame converted data_ptr)
  unfolding push_data
  push_data-IsFor frame converted none = push_placeholder-IsFor placeholder 0
  push_data-IsFor frame converted (some bytes) =
      both_branches (λ o. Ensures (λ ps. IsFor sink ps) o) (frame.data_size == 0)
        (push_placeholder-IsFor placeholder 0)
        (both_branches (λ o. Ensures (λ ps. IsFor sink ps) o) (is_empty frame.width frame.height)
          (push_placeholder-IsFor placeholder 0) (push_kind-IsFor frame bytes converted frame.kind))

-- Whatever a frame is and whatever `map` and the conversion answer, `pushFrame` reads no null pointer
-- so long as the sink stays, and gives at most one picture, to this sink; with no sink it gives none.
pub push_frame-IsFor :
    (placeholder : Option Image) (sinks : Readings) (mapped : Mapped) (sink : Option ℕ)
    (frame : Frame) (converted : Option (Bytes × ℕ))
    → ((i : ℕ) → sinks i ≡ sink)
    → Ensures (λ ps. IsFor sink ps) (push_frame placeholder sinks mapped frame converted)
unfolding push_frame
push_frame-IsFor placeholder sinks mapped sink frame converted stays =
    push_data-IsFor placeholder sinks mapped sink stays frame converted frame.data_ptr

-- A frame with data and pixels whose kind is neither RGBA nor I420 is shown just as the RGBA frame is
-- that the SDK makes of it, if that has data.
push_frame-converted :
    (placeholder : Option Image) (sinks : Readings) (mapped : Mapped) (f : Frame) (bytes : Bytes)
    (size : ℕ) (given : Bytes)
    → f.data_ptr ≡ some given
    → (f.data_size == 0) ≡ false
    → (size == 0) ≡ false
    → is_empty f.width f.height ≡ false
    → f.kind ≡ other
    → push_frame placeholder sinks mapped f (some (bytes, size))
      ≡ push_frame placeholder sinks mapped
          (record f { data_ptr = some bytes; data_size = size; kind = rgba })
          none
unfolding push_frame
push_frame-converted placeholder sinks mapped f bytes size given d n m p k = rw (d, n, m, p, k) refl
