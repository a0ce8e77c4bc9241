-- ===== src/Client/FrameReader/Pixels.antt =====
-- The pictures that the sink of client/src/framereader.cpp is given.
use direct_link.Base.{
  ℕ, ◌+◌, ◌*◌, ◌/◌, ◌≤◌, ◌<◌, ◌≡◌, refl, Option, none, some, List, [], ◌∷◌, ◌==◌, false, pos,
}
use direct_link.Base.Memory.{Bytes, copy_rows-copied, copy_rows-kept}
use direct_link.Client.Task.{moves, faults}
use direct_link.Client.FrameReader.{
  i420, Plane, Frame, Image, Mapped, Readings, yuv420p, is_empty, copy_planes, push_frame, show,
}

-- The pixels of a plane of so many rows and columns are those of the source.
abbrev pub Arrives : ℕ → ℕ → Plane → Plane → Type 0
Arrives rows cols source target =
    (row col : ℕ)
    → row < rows
    → col < cols
    → target.bytes (row * target.stride + col) ≡ source.bytes (row * source.stride + col)

-- An I420 frame that has three planes, data and a size.
pub record IsPlanar (f : Frame) (w h : ℕ) (y u v : Plane) : Type 0 where
  pub bytes : Bytes
  pub rest : List Plane
  pub has_data : f.data_ptr ≡ some bytes
  pub has_size : (f.data_size == 0) ≡ false
  pub has_width : f.width ≡ pos w
  pub has_height : f.height ≡ pos h
  pub has_pixels : is_empty (pos w) (pos h) ≡ false
  pub has_kind : f.kind ≡ i420
  pub has_planes : f.planes ≡ y ∷ u ∷ v ∷ rest

module _ (placeholder : Option Image) (sinks : Readings) (mapped : Mapped) (f : Frame)
    (converted : Option (Bytes × ℕ)) (w h : ℕ) (y u v dy du dv : Plane) where
  push_frame-planar :
      (s : ℕ) (sink : Option ℕ)
      → IsPlanar f w h y u v
      → mapped.planar ≡ some (dy, du, dv)
      → sinks 0 ≡ some s
      → sinks 1 ≡ sink
      → push_frame placeholder sinks mapped f converted
        ≡ show sink
            (let q = copy_planes w h (dy, du, dv) (y, u, v) in yuv420p (pos w) (pos h) q.0 q.1 q.2)
  unfolding push_frame
  push_frame-planar s sink p m a b =
      rw
        (
          p.has_data, p.has_size, p.has_width, p.has_height, p.has_pixels, p.has_kind, a,
          p.has_planes, m, b,
        )
        refl

  -- An I420 frame with data, pixels and three planes, when the sink is there at both readings and
  -- the frame of Qt maps with rows that are wide enough: the sink is given one picture of the frame's
  -- size, in which every pixel of the luma plane, and of the first half of the rows and columns of the two
  -- chroma planes, is that of the frame; the last chroma row of a picture of odd height, and all
  -- that follows it, is left as `map` gave it.
  pub push_frame-pixels :
      (s : ℕ)
      → IsPlanar f w h y u v
      → mapped.planar ≡ some (dy, du, dv)
      → sinks 0 ≡ some s
      → sinks 1 ≡ some s
      → w ≤ dy.stride
      → w / 2 ≤ du.stride
      → w / 2 ≤ dv.stride
      → (q : Plane × Plane × Plane) × (push_frame placeholder sinks mapped f converted
          ≡ moves ((s, yuv420p (pos w) (pos h) q.0 q.1 q.2) ∷ []))
        × Arrives h w y q.0
        × Arrives (h / 2) (w / 2) u q.1
        × Arrives (h / 2) (w / 2) v q.2
        × ((i : ℕ) → h / 2 * du.stride ≤ i → q.1.bytes i ≡ du.bytes i)
        × ((i : ℕ) → h / 2 * dv.stride ≤ i → q.2.bytes i ≡ dv.bytes i)
  push_frame-pixels s p m a b ly lu lv = (
    copy_planes w h (dy, du, dv) (y, u, v),
    push_frame-planar s (some s) p m a b,
    unfold copy_planes in
        λ row col r c. copy_rows-copied h dy.bytes dy.stride y.bytes y.stride w row col r c ly,
    unfold copy_planes in
        λ row col r c.
          copy_rows-copied (h / 2) du.bytes du.stride u.bytes u.stride (w / 2) row col r c lu,
    unfold copy_planes in
        λ row col r c.
          copy_rows-copied (h / 2) dv.bytes dv.stride v.bytes v.stride (w / 2) row col r c lv,
    unfold copy_planes in
        λ i k. copy_rows-kept (h / 2) du.bytes du.stride u.bytes u.stride (w / 2) i lu k,
    unfold copy_planes in
        λ i k. copy_rows-kept (h / 2) dv.bytes dv.stride v.bytes v.stride (w / 2) i lv k,
  )

  -- When the sink is taken away between the check of the sink and the moment at which the picture of such a
  -- frame is given to it, the null pointer is read.
  sink_taken_away :
      (s : ℕ)
      → IsPlanar f w h y u v
      → mapped.planar ≡ some (dy, du, dv)
      → sinks 0 ≡ some s
      → sinks 1 ≡ none
      → push_frame placeholder sinks mapped f converted ≡ faults
  sink_taken_away s p m a b = push_frame-planar s none p m a b
