-- ===== src/Client/SessionController/Preview.antt =====
-- The picture that the preview callback of client/src/session/session_controller.cpp shows.
use direct_link.Base.{
  ℕ, ◌*◌, ◌/◌, ◌≤◌, min, ◌≡◌, refl, true, false, Bool, some, [], ◌∷◌, ℤ, pos, arith,
}
use direct_link.Base.Memory.{copy_rows-copied, copy_rows-kept}
use direct_link.Client.FrameReader.{Plane, yuv420p}
use direct_link.Client.FrameReader.Pixels.{Arrives}
use direct_link.Client.SessionController.{preview, preview_plane, copied_height}

min_right : (m n : ℕ) → min m n ≤ n
min_right m n = omega arith

preview_plane-Arrives :
    (is_luma : Bool) (h : ℕ) (dst src : Plane)
    → Arrives
        (copied_height is_luma h)
        (min src.stride dst.stride)
        src
        (preview_plane is_luma h dst src)
unfolding preview_plane
preview_plane-Arrives is_luma h dst src row col r c =
    copy_rows-copied (copied_height is_luma h) dst.bytes dst.stride src.bytes src.stride
      (min src.stride dst.stride) row col r c (min_right src.stride dst.stride)

preview_plane-kept :
    (is_luma : Bool) (h : ℕ) (dst src : Plane) (i : ℕ)
    → copied_height is_luma h * dst.stride ≤ i
    → (preview_plane is_luma h dst src).bytes i ≡ dst.bytes i
unfolding preview_plane
preview_plane-kept is_luma h dst src i k =
    copy_rows-kept (copied_height is_luma h) dst.bytes dst.stride src.bytes src.stride
      (min src.stride dst.stride) i (min_right src.stride dst.stride) k

-- A frame that is there, when the frame of Qt maps, becomes one picture of its size for the sink, with
-- every byte of the rows that both strides have: of all rows of the luma plane, and of half as
-- many rows of the chroma planes, rounded down; behind these a chroma plane is as `map` gave it.
preview-pixels :
    (sink h : ℕ) (w : ℤ) (y u v dy du dv : Plane)
    → (q : Plane × Plane × Plane) × (preview sink (some (y, u, v)) w (pos h) (some (dy, du, dv))
        ≡ (sink, yuv420p w (pos h) q.0 q.1 q.2) ∷ [])
      × Arrives h (min y.stride dy.stride) y q.0
      × Arrives (h / 2) (min u.stride du.stride) u q.1
      × Arrives (h / 2) (min v.stride dv.stride) v q.2
      × ((i : ℕ) → h / 2 * du.stride ≤ i → q.1.bytes i ≡ du.bytes i)
      × ((i : ℕ) → h / 2 * dv.stride ≤ i → q.2.bytes i ≡ dv.bytes i)
unfolding preview
preview-pixels sink h w y u v dy du dv = (
  (preview_plane true h dy y, preview_plane false h du u, preview_plane false h dv v),
  refl,
  preview_plane-Arrives true h dy y,
  preview_plane-Arrives false h du u,
  preview_plane-Arrives false h dv v,
  preview_plane-kept false h du u,
  preview_plane-kept false h dv v,
)
