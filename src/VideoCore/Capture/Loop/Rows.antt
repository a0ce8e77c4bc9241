-- ===== src/VideoCore/Capture/Loop/Rows.antt =====
-- The copy of the planes in `captureLoop` of video-core/src/capture/camera_capture.cpp.
use direct_link.Base.{ℕ, zero, suc, ◌+◌, ◌*◌, ◌<◌, ◌≡◌, refl, min, true, arith}
use direct_link.Base.Memory.{copy_rows-copied}
use direct_link.VideoCore.Capture.Loop.{
  plane_height, VideoFrame, Buffers, copy_planes, CapturedFrame, captures, mapped, turn,
}

-- The row of the picture at which a row of a plane begins: a chroma row stands for two.
abbrev pub picture_row : ℕ → ℕ → ℕ
picture_row zero row = row
picture_row (suc plane) row = 2 * row

row_in_plane :
    (plane row height : ℕ) → picture_row plane row < height → row < plane_height plane height
row_in_plane zero row height h = h
row_in_plane (suc plane) row height h = ground (arith, h)

-- When a sample is mapped and a frame with its buffers is made for it, the turn hands on a frame of
-- the sample's size in which every row of the three planes that begins inside the picture, a chroma
-- row being two rows of it, holds the bytes of the sample's row, as far as both strides reach,
-- however the two strides differ: of an odd height the last chroma row too.
pub turn-copied :
    (v : VideoFrame) (b : Buffers) (plane row col : ℕ)
    → b.allocated ≡ true
    → b.got_buffer ≡ true
    → plane < 3
    → picture_row plane row < v.height
    → col < min (v.stride plane) (b.linesize plane)
    → (f : CapturedFrame) × (turn (mapped v) b ≡ captures f)
      × (f.width ≡ v.width)
      × (f.height ≡ v.height)
      × (f.data_of plane (row * f.linesize plane + col)
          ≡ v.data_of plane (row * v.stride plane + col))
unfolding turn copy_planes
turn-copied v b plane row col a g p h k =
    let q =
      copy_rows-copied (plane_height plane v.height) (b.data_of plane) (b.linesize plane)
        (v.data_of plane) (v.stride plane) (min (v.stride plane) (b.linesize plane)) row col
        (row_in_plane plane row v.height h) k (omega arith) in
    (copy_planes v b, rw (a, g) refl, refl, refl, ground (arith, q))
