-- ===== src/Graphics/Shadow/Dirty.antt =====
-- The dirty rectangle covers what has been marked.
use vitr_os.Base.{
  ℕ, ◌+◌, ◌^◌, ◌≤◌, ◌<◌, inl, inr, min, ◌||◌, Option, none, some, leb, Bool-cases, arith,
}
use vitr_os.Graphics.Region.{Region, right, bottom}
use vitr_os.Graphics.Shadow.{ShadowBuffer, merge, mark_dirty, span}

-- A pixel of a rectangle.
pub record Inside (r : Region) (px py : ℕ) : Type 0 where
  pub left : r.x ≤ px
  pub right : px < r.x + r.width
  pub top : r.y ≤ py
  pub bottom : py < r.y + r.height

-- The rectangle lies on a screen of this size.
abbrev pub IsClipped : ℕ → ℕ → Option Region → Type 0
IsClipped w h none = Unit
IsClipped w h (some r) = (r.x + r.width ≤ w) × (r.y + r.height ≤ h)

abbrev pub IsMarked : Option Region → ℕ → ℕ → Type 0
IsMarked none px py = ⊥
IsMarked (some r) px py = Inside r px py

-- The sizes of the screen have 32 bits, and the dirty rectangle lies on it.
pub record IsValid (s : ShadowBuffer) : Type 0 where
  pub width : s.width < 2 ^ 32
  pub height : s.height < 2 ^ 32
  pub clipped : IsClipped s.width s.height s.dirty_rect

module _ (w h : ℕ) (wide : w < 2 ^ 32) (high : h < 2 ^ 32) where
  merge-IsClipped :
      (o : Option Region) (c : Region)
      → IsClipped w h o
      → IsClipped w h (some c)
      → IsClipped w h (some (merge o c))
  unfolding merge
  merge-IsClipped none c a b = b
  merge-IsClipped (some e) c a b = (omega (arith, a.0, b.0), omega (arith, a.1, b.1))

  merge-old :
      (px py : ℕ) (o : Option Region) (c : Region)
      → IsClipped w h o
      → IsClipped w h (some c)
      → IsMarked o px py
      → Inside (merge o c) px py
  unfolding merge
  merge-old px py none c a b m = absurd m
  merge-old px py (some e) c a b m = record {
    left = omega (arith, m.left);
    right = omega (arith, m.left, m.right, a.0, b.0);
    top = omega (arith, m.top);
    bottom = omega (arith, m.top, m.bottom, a.1, b.1);
  }

  merge-new :
      (px py : ℕ) (o : Option Region) (c : Region)
      → IsClipped w h o
      → IsClipped w h (some c)
      → Inside c px py
      → Inside (merge o c) px py
  unfolding merge
  merge-new px py none c a b m = m
  merge-new px py (some e) c a b m = record {
    left = omega (arith, m.left);
    right = omega (arith, m.left, m.right, a.0, b.0);
    top = omega (arith, m.top);
    bottom = omega (arith, m.top, m.bottom, a.1, b.1);
  }

-- After `mark_dirty` of a region whose far corner does not overflow, the dirty rectangle is on the
-- screen and covers each pixel of the screen that it covered before or that is in the region.
pub mark_dirty_covers :
    (r : Region) (s : ShadowBuffer)
    → r.x + r.width < 2 ^ 32
    → r.y + r.height < 2 ^ 32
    → IsValid s
    → IsValid (mark_dirty r s)
      × ((px py : ℕ) → IsMarked s.dirty_rect px py → IsMarked (mark_dirty r s).dirty_rect px py)
      × ((px py : ℕ)
          → px < s.width
          → py < s.height
          → Inside r px py
          → IsMarked (mark_dirty r s).dirty_rect px py)
unfolding mark_dirty
mark_dirty_covers r s p q v =
    let x : ℕ = min r.x s.width in
    let y : ℕ = min r.y s.height in
    let right' : ℕ = min (right r) s.width in
    let bottom' : ℕ = min (bottom r) s.height in
    let c : Region = span x y right' bottom' in
    elim (Bool-cases (leb right' x || leb bottom' y)) [
      | inl e ↦ rw e (
        v,
        (λ px py m. m),
        λ px py a b m. absurd (ground (arith, m.left, m.right, m.top, m.bottom)),
      )
      | inr e ↦
          let k : IsClipped s.width s.height (some c) = (ground arith, ground arith) in
          rw e (
            record {
              width = v.width;
              height = v.height;
              clipped =
                  merge-IsClipped s.width s.height v.width v.height s.dirty_rect c v.clipped k;
            },
            (λ px py m.
                merge-old s.width s.height v.width v.height px py s.dirty_rect c v.clipped k m),
            λ px py a b m.
                merge-new s.width s.height v.width v.height px py s.dirty_rect c v.clipped k
                  (record {
                    left = omega (arith, m.left);
                    right = ground (arith, m.left, m.right);
                    top = omega (arith, m.top);
                    bottom = ground (arith, m.top, m.bottom);
                  }),
          )
    ]
