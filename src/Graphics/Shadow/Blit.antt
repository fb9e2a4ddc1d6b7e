-- ===== src/Graphics/Shadow/Blit.antt =====
-- `blit_to` brings the frame buffer up to date.
use vitr_os.Base.{
  ℕ, zero, suc, ◌+◌, ◌-◌, ◌*◌, ◌≤◌, ◌<◌, ◌≡◌, refl, ap, ◌⊎◌, inl, inr, Bool, true, false, none,
  some, List, Option-cases, get_or, arith,
}
use vitr_os.Graphics.Region.{Region, bottom}
use vitr_os.Graphics.Shadow.{ShadowBuffer, copy_row, copy_rows, blit_to}
use vitr_os.Graphics.Shadow.Dirty.{Inside, IsMarked, IsClipped, IsValid}

-- The frame buffer shows the pixel that the shadow buffer has.
abbrev pub Shows : ShadowBuffer → (ℕ → ℕ) → ℕ → ℕ → Type 0
Shows s fb px py = fb (py * s.width + px) ≡ get_or s.buffer (py * s.width + px) 0

copy_row-keeps :
    (src : List ℕ) (offset count i : ℕ) (fb : ℕ → ℕ)
    → fb i ≡ get_or src i 0
    → copy_row src offset count fb i ≡ get_or src i 0
unfolding copy_row
copy_row-keeps src offset count i fb e = ground (arith, e)

copy_row-copies :
    (src : List ℕ) (offset count i : ℕ) (fb : ℕ → ℕ)
    → offset ≤ i
    → i < offset + count
    → copy_row src offset count fb i ≡ get_or src i 0
unfolding copy_row
copy_row-copies src offset count i fb a b = ground arith

copy_rows-keeps :
    (src : List ℕ) (stride : ℕ) (d : Region) (n y i : ℕ) (fb : ℕ → ℕ)
    → fb i ≡ get_or src i 0
    → copy_rows src stride d n y fb i ≡ get_or src i 0
unfolding copy_rows
copy_rows-keeps src stride d zero y i fb e = e
copy_rows-keeps src stride d (suc n) y i fb e =
    copy_rows-keeps src stride d n (suc y) i (copy_row src (y * stride + d.x) d.width fb)
      (copy_row-keeps src (y * stride + d.x) d.width i fb e)

copy_rows-copies :
    (src : List ℕ) (stride : ℕ) (d : Region) (n y k px : ℕ) (fb : ℕ → ℕ)
    → k < n
    → d.x ≤ px
    → px < d.x + d.width
    → copy_rows src stride d n y fb ((y + k) * stride + px) ≡ get_or src ((y + k) * stride + px) 0
unfolding copy_rows
copy_rows-copies src stride d zero y k px fb l a b = absurd (omega arith)
copy_rows-copies src stride d (suc n) y zero px fb l a b =
    let e : y + 0 ≡ y = omega arith in
    rw e (
      copy_rows-keeps src stride d n (suc y) (y * stride + px)
        (copy_row src (y * stride + d.x) d.width fb)
        (copy_row-copies src (y * stride + d.x) d.width (y * stride + px) fb (omega arith)
          (omega arith)))
copy_rows-copies src stride d (suc n) y (suc k) px fb l a b =
    let e : y + suc k ≡ suc y + k = omega arith in
    rw e (
      copy_rows-copies src stride d n (suc y) k px (copy_row src (y * stride + d.x) d.width fb)
        (omega arith) a b)

rows_show :
    (fb : ℕ → ℕ) (s : ShadowBuffer) (d : Region) (px py : ℕ)
    → IsValid s
    → s.dirty_rect ≡ some d
    → IsMarked s.dirty_rect px py ⊎ Shows s fb px py
    → Shows s (copy_rows s.buffer s.width d (bottom d - d.y) d.y fb) px py
rows_show fb s d px py v e (inr h) =
    copy_rows-keeps s.buffer s.width d (bottom d - d.y) d.y (py * s.width + px) fb h
rows_show fb s d px py v e (inl h) =
    let m : Inside d px py = rw e at h in
    let c : IsClipped s.width s.height (some d) = rw e at v.clipped in
    let q : d.y + (py - d.y) ≡ py = omega (arith, m.top) in
    let n : py - d.y < bottom d - d.y = omega (arith, m.top, m.bottom, c.1, v.height) in
    rw q at
      (copy_rows-copies s.buffer s.width d (bottom d - d.y) d.y (py - d.y) px fb n m.left m.right)

-- If the frame buffer shows every pixel that is not marked as dirty, then after `blit_to` it shows
-- every pixel, and nothing is marked. The result says whether anything was marked; if nothing was,
-- the frame buffer is as before.
pub blit_to-Shows :
    (fb : ℕ → ℕ) (s : ShadowBuffer)
    → IsValid s
    → ((px py : ℕ) → px < s.width → py < s.height → IsMarked s.dirty_rect px py ⊎ Shows s fb px py)
    → (fb' : ℕ → ℕ) × (b : Bool) × (blit_to fb s ≡ (record s { dirty_rect = none }, fb', b))
      × ((px py : ℕ) → px < s.width → py < s.height → Shows s fb' px py)
      × ((b ≡ true) × ((d : Region) × (s.dirty_rect ≡ some d))
          ⊎ (b ≡ false) × (s.dirty_rect ≡ none) × (fb' ≡ fb))
unfolding blit_to
blit_to-Shows fb s v i = elim (Option-cases s.dirty_rect) [
  | inr (d, e) ↦ (
    copy_rows s.buffer s.width d (bottom d - d.y) d.y fb,
    true,
    rw (e, blit_to) refl,
    (λ px py a b. rows_show fb s d px py v e (i px py a b)),
    inl (refl, (d, e)),
  )
  | inl e ↦ (
    fb,
    false,
    rw (e, blit_to) (ap (λ o. (record s { dirty_rect = o }, fb, false)) e),
    (λ px py a b. elim (i px py a b) [ inl h ↦ absurd (rw e at h) | inr h ↦ h ]),
    inr (refl, e, refl),
  )
]
