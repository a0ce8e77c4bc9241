-- ===== src/Client/FrameReader/Tests.antt =====
-- Frames of two columns and three rows in the sink of number 5.
use direct_link.Base.{
  ℕ, zero, suc, ◌/◌, ◌*◌, ◌≤◌, ◌≡◌, refl, Option, none, some, [], ◌∷◌, pos, arith,
}
use direct_link.Base.Memory.{Bytes}
use direct_link.Client.Task.{moves, Ensures}
use direct_link.Client.FrameReader.{i420, Plane, Frame, Image, Mapped, yuv420p, push_frame}
use direct_link.Client.FrameReader.Pixels.{Arrives, IsPlanar, push_frame-pixels}
use direct_link.Client.FrameReader.Sinks.{IsFor, push_frame-IsFor}

abbrev bytes_from : ℕ → Bytes
bytes_from n i = n

abbrev luma : Plane
luma = record { bytes = bytes_from 1; stride = 4 }

abbrev chroma : Plane
chroma = record { bytes = bytes_from 2; stride = 2 }

-- What `map` gives.
abbrev luma_target : Plane
luma_target = record { bytes = bytes_from 0; stride = 8 }

abbrev chroma_target : Plane
chroma_target = record { bytes = bytes_from 0; stride = 4 }

abbrev pub frame : Frame
frame = record {
  data_ptr = some (bytes_from 1);
  data_size = 20;
  width = pos 2;
  height = pos 3;
  kind = i420;
  planes = luma ∷ chroma ∷ chroma ∷ [];
}

abbrev splash : Image
splash = record { bytes = bytes_from 9; size = 4; width = 1; height = 1 }

abbrev pub mapped : Mapped
mapped = record {
  planar = some (luma_target, chroma_target, chroma_target);
  rgba = some (bytes_from 0);
  splash = some (bytes_from 0);
}

frame-IsPlanar : IsPlanar frame 2 3 luma chroma chroma
frame-IsPlanar = record {
  bytes = bytes_from 1;
  rest = [];
  has_data = refl;
  has_size = refl;
  has_width = refl;
  has_height = refl;
  has_pixels = refl;
  has_kind = refl;
  has_planes = refl;
}

push_frame-pixels_example :
    (q : Plane × Plane × Plane) × (push_frame (some splash) (λ i. some 5) mapped frame none
      ≡ moves ((5, yuv420p (pos 2) (pos 3) q.0 q.1 q.2) ∷ []))
    × Arrives 3 2 luma q.0
    × Arrives (3 / 2) (2 / 2) chroma q.1
    × Arrives (3 / 2) (2 / 2) chroma q.2
    × ((i : ℕ) → 3 / 2 * 4 ≤ i → q.1.bytes i ≡ 0)
    × ((i : ℕ) → 3 / 2 * 4 ≤ i → q.2.bytes i ≡ 0)
push_frame-pixels_example =
    push_frame-pixels (some splash) (λ i. some 5) mapped frame none 2 3 luma chroma chroma
      luma_target chroma_target chroma_target 5 frame-IsPlanar refl refl refl (omega arith)
      (omega arith) (omega arith)

-- The sink of the first reading only.
abbrev leaving : ℕ → Option ℕ
leaving zero = some 5
leaving (suc i) = none

push_frame-IsFor_example :
    Ensures
      (λ ps. IsFor (some 5) ps)
      (push_frame (some splash) (λ i. some 5) mapped (record frame { planes = [] }) none)
push_frame-IsFor_example =
    push_frame-IsFor (some splash) (λ i. some 5) mapped (some 5) (record frame { planes = [] }) none
      (λ i. refl)
