-- ===== src/Base/Memory.antt =====
-- Memory from a pointer on, std::memcpy, and the copy of a picture's rows between two strides: the
-- loop `for (row …) memcpy(dst + row * dst_stride, src + row * src_stride, width)`, which the capture,
-- the preview and the frame reader all have.
use Prim.Native.Nat.{ℕ, zero, suc, ◌+◌, ◌*◌, ◌-◌, ◌≤◌, ◌<◌}
use mathlib.Core.Path.{◌≡◌, refl, ap, ◌∙◌}
use mathlib.Core.Logic.{◌⊎◌, inl, inr}
use mathlib.Core.Bool.{◌&&◌}
use native.Mathlib.Omega.{arith}
use direct_link.Base.Tests.{ltb, leb, if◌then◌else◌}

-- The byte at each offset.
abbrev pub Bytes : Type 0
Bytes = ℕ → ℕ

-- memcpy(dst + to, src + from, n)
unfoldable pub memcpy : Bytes → ℕ → Bytes → ℕ → ℕ → Bytes
memcpy dst to src from n i = if leb to i && ltb i (to + n) then src (from + (i - to)) else dst i

-- The rows before `rows` are copied, `width` bytes of each.
unfoldable pub copy_rows : ℕ → Bytes → ℕ → Bytes → ℕ → ℕ → Bytes
unfolding memcpy
copy_rows zero dst dst_stride src src_stride width = dst
copy_rows (suc row) dst dst_stride src src_stride width =
    memcpy (copy_rows row dst dst_stride src src_stride width) (row * dst_stride) src
      (row * src_stride) width

lt_suc-cases : (m n : ℕ) → m < suc n → (m < n) ⊎ (m ≡ n)
lt_suc-cases zero zero h = inr refl
lt_suc-cases zero (suc n) h = inl (omega arith)
lt_suc-cases (suc m) zero h = absurd (omega (arith, h))
lt_suc-cases (suc m) (suc n) h = elim (lt_suc-cases m n (omega (arith, h))) [
  | inl k ↦ inl (omega (arith, k))
  | inr e ↦ inr (ap (λ x. suc x) e)
]

-- A byte of an earlier row comes before every later row.
row_before :
    (row rows col stride : ℕ) → row < rows → col < stride → row * stride + col < rows * stride
row_before row zero col stride h k = absurd (omega (arith, h))
row_before row (suc rows) col stride h k = elim (lt_suc-cases row rows h) [
  | inl l ↦ let b = row_before row rows col stride l k in grind arith
  | inr e ↦ rw e (grind arith)
]

memcpy-inside :
    (dst : Bytes) (to : ℕ) (src : Bytes) (from n j : ℕ)
    → j < n
    → memcpy dst to src from n (to + j) ≡ src (from + j)
unfolding memcpy
memcpy-inside dst to src from n j h = ground arith

memcpy-before :
    (dst : Bytes) (to : ℕ) (src : Bytes) (from n i : ℕ)
    → i < to
    → memcpy dst to src from n i ≡ dst i
unfolding memcpy
memcpy-before dst to src from n i h = ground arith

memcpy-after :
    (dst : Bytes) (to : ℕ) (src : Bytes) (from n i : ℕ)
    → to + n ≤ i
    → memcpy dst to src from n i ≡ dst i
unfolding memcpy
memcpy-after dst to src from n i h = ground arith

-- Every copied row arrives, where the rows of the target do not overlap.
pub copy_rows-copied :
    (rows : ℕ) (dst : Bytes) (dst_stride : ℕ) (src : Bytes) (src_stride width row col : ℕ)
    → row < rows
    → col < width
    → width ≤ dst_stride
    → copy_rows rows dst dst_stride src src_stride width (row * dst_stride + col)
      ≡ src (row * src_stride + col)
unfolding copy_rows
copy_rows-copied zero dst dst_stride src src_stride width row col h k w = absurd (omega (arith, h))
copy_rows-copied (suc rows) dst dst_stride src src_stride width row col h k w =
    let before : Bytes = copy_rows rows dst dst_stride src src_stride width in
    elim (lt_suc-cases row rows h) [
      | inl l ↦
          memcpy-before before (rows * dst_stride) src (rows * src_stride) width
            (row * dst_stride + col) (row_before row rows col dst_stride l (omega arith))
          ∙ copy_rows-copied rows dst dst_stride src src_stride width row col l k w
      | inr e ↦ rw e (memcpy-inside before (rows * dst_stride) src (rows * src_stride) width col k)
    ]

-- What lies behind the last copied row stays as it was.
pub copy_rows-kept :
    (rows : ℕ) (dst : Bytes) (dst_stride : ℕ) (src : Bytes) (src_stride width i : ℕ)
    → width ≤ dst_stride
    → rows * dst_stride ≤ i
    → copy_rows rows dst dst_stride src src_stride width i ≡ dst i
unfolding copy_rows
copy_rows-kept zero dst dst_stride src src_stride width i w h = refl
copy_rows-kept (suc rows) dst dst_stride src src_stride width i w h =
    memcpy-after (copy_rows rows dst dst_stride src src_stride width) (rows * dst_stride) src
      (rows * src_stride) width i (grind arith)
    ∙ copy_rows-kept rows dst dst_stride src src_stride width i w (grind arith)
