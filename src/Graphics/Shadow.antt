-- ===== src/Graphics/Shadow.antt =====
-- `kernel/src/graphics/shadow_buffer.rs`: a buffer of pixels with the rectangle that has changed. The
-- frame buffer is a function from the index of a pixel to its value.
use vitr_os.Base.{
  ℕ, zero, suc, ◌+◌, ◌-◌, ◌*◌, ◌%◌, ◌^◌, min, max, Bool, true, false, ◌&&◌, ◌||◌, Option, none,
  some, List, ltb, leb, if◌then◌else◌, replicate, get_or, length,
}
use vitr_os.Graphics.Region.{Region, right, bottom}
pub mod Dirty
pub mod Blit
pub mod Target

pub record ShadowBuffer : Type 0 where
  pub buffer : List ℕ
  pub width : ℕ
  pub height : ℕ
  pub dirty_rect : Option Region

-- `ShadowBuffer::new`. The product of two 32-bit numbers fits in 64 bits, so it never panics.
unfoldable pub new : ℕ → ℕ → ShadowBuffer
new width height = record {
  buffer = replicate (width * height) 0;
  width = width;
  height = height;
  dirty_rect = none;
}

unfoldable pub mark_all_dirty : ShadowBuffer → ShadowBuffer
mark_all_dirty s = record s {
  dirty_rect = some (record { x = 0; y = 0; width = s.width; height = s.height });
}

unfoldable pub clear : ℕ → ShadowBuffer → ShadowBuffer
unfolding mark_all_dirty
clear color s = mark_all_dirty (record s { buffer = replicate (length s.buffer) color })

-- The rectangle from one corner to the other.
abbrev pub span : ℕ → ℕ → ℕ → ℕ → Region
span x y right bottom = record { x = x; y = y; width = right - x; height = bottom - y }

-- The bounding box of what was marked before and the new rectangle.
unfoldable pub merge : Option Region → Region → Region
merge none c = c
merge (some e) c =
    span (min e.x c.x) (min e.y c.y) (max (right e) (right c)) (max (bottom e) (bottom c))

-- A region is clipped to the screen, and ignored if nothing is left of it.
unfoldable pub mark_dirty : Region → ShadowBuffer → ShadowBuffer
unfolding merge
mark_dirty r s =
    let x = min r.x s.width in
    let y = min r.y s.height in
    let right = min (right r) s.width in
    let bottom = min (bottom r) s.height in
    if leb right x || leb bottom y
    then s
    else record s { dirty_rect = some (merge s.dirty_rect (span x y right bottom)) }

unfoldable pub take_dirty_rect : ShadowBuffer → ShadowBuffer × Option Region
take_dirty_rect s = (record s { dirty_rect = none }, s.dirty_rect)

-- `copy_nonoverlapping` of `count` pixels from `offset` on, at the same place in both buffers.
unfoldable pub copy_row : List ℕ → ℕ → ℕ → (ℕ → ℕ) → ℕ → ℕ
copy_row src offset count fb i =
    if leb offset i && ltb i (offset + count) then get_or src i 0 else fb i

-- The rows from `y` on.
unfoldable pub copy_rows : List ℕ → ℕ → Region → ℕ → ℕ → (ℕ → ℕ) → ℕ → ℕ
unfolding copy_row
copy_rows src stride d zero y fb = fb
copy_rows src stride d (suc n) y fb =
    copy_rows src stride d n (suc y) (copy_row src (y * stride + d.x) d.width fb)

unfoldable pub blit_to : (ℕ → ℕ) → ShadowBuffer → ShadowBuffer × (ℕ → ℕ) × Bool
unfolding copy_rows
blit_to fb s = elim s.dirty_rect [
  | none ↦ (s, fb, false)
  | some d ↦
      (record s { dirty_rect = none }, copy_rows s.buffer s.width d (bottom d - d.y) d.y fb, true)
]
