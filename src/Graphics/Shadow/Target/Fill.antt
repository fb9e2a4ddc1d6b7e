-- ===== src/Graphics/Shadow/Target/Fill.antt =====
-- A rectangle that is drawn into the shadow buffer gets to the screen.
use mathlib.Core.Path.{subst}
use vitr_os.Base.{
  ℕ, ◌+◌, ◌*◌, ◌^◌, ◌≤◌, ◌<◌, ◌≡◌, refl, sym, ap, ◌∙◌, ◌⊎◌, inl, inr, min, Bool, true, Bool-cases,
  ◌||◌, leb, none, length, get_or, if◌then◌else◌, arith,
}
use vitr_os.Graphics.Region.{Region, right, bottom}
use vitr_os.Graphics.Draw.{Frame, draw_rect}
use vitr_os.Graphics.Draw.Rect.{in_rect, row_below, draw_rect_lem}
use vitr_os.Graphics.Shadow.{ShadowBuffer, mark_dirty, blit_to}
use vitr_os.Graphics.Shadow.Dirty.{Inside, IsMarked, IsValid, mark_dirty_covers}
use vitr_os.Graphics.Shadow.Blit.{Shows, blit_to-Shows}
use vitr_os.Graphics.Shadow.Target.{paint, fill_rect, get_or-tabulate}

pub mark_dirty-keeps :
    (r : Region) (s : ShadowBuffer)
    → mark_dirty r s ≡ record s { dirty_rect = (mark_dirty r s).dirty_rect }
unfolding mark_dirty
mark_dirty-keeps r s =
    elim (Bool-cases (
      leb (min (right r) s.width) (min r.x s.width)
      || leb (min (bottom r) s.height) (min r.y s.height))) [
        | inl e ↦ rw e refl
        | inr e ↦ rw e refl
      ]

pub index_fits :
    (px py width height : ℕ) → px < width → py < height → py * width + px < width * height
index_fits px py width height h l =
    let b = row_below width py height (px + 1) l (omega arith) in omega (arith, b)

pub rows_fit : (n width : ℕ) → n < 2 ^ 32 → width < 2 ^ 32 → n * width < 2 ^ 64
rows_fit n width h l = grind arith

-- A pixel of the buffer after the rectangle is drawn.
painted :
    (s : ShadowBuffer) (x y w h color px py : ℕ)
    → IsValid s
    → length s.buffer ≡ s.width * s.height
    → x + w < 2 ^ 32
    → y + h < 2 ^ 32
    → px < s.width
    → py < s.height
    → get_or (paint (draw_rect s.width x y w h color) s).buffer (py * s.width + px) 0
      ≡ (if in_rect x y w h px py then color else get_or s.buffer (py * s.width + px) 0)
unfolding paint
painted s x y w h color px py v size a b k l =
    let i = index_fits px py s.width s.height k l in
    get_or-tabulate (length s.buffer) (py * s.width + px)
      (draw_rect s.width x y w h color (λ j. get_or s.buffer j 0)) (omega (arith, i, size))
    ∙ draw_rect_lem s.width x y w h px py color (λ j. get_or s.buffer j 0) (omega arith)
        (omega arith) (rows_fit (y + h) s.width b v.width) k

pub paint-IsValid : (f : Frame → Frame) (s : ShadowBuffer) → IsValid s → IsValid (paint f s)
unfolding paint
paint-IsValid f s v = record { width = v.width; height = v.height; clipped = v.clipped }

pub inside :
    (r : Region) (px py : ℕ) → in_rect r.x r.y r.width r.height px py ≡ true → Inside r px py
inside r px py e = record {
  left = ground arith;
  right = ground arith;
  top = ground arith;
  bottom = ground arith;
}

-- The state after `mark_dirty`, or another with its rectangle, and the screen after `blit_to` of it.
abbrev Drawn : Frame → ShadowBuffer → ℕ → ℕ → ℕ → ℕ → ℕ → ShadowBuffer → Type 0
Drawn fb s x y w h color z =
    (fb' : Frame) × (b : Bool) × (blit_to fb z ≡ (record z { dirty_rect = none }, fb', b))
    × ((px py : ℕ)
        → px < s.width
        → py < s.height
        → fb' (py * s.width + px)
          ≡ (if in_rect x y w h px py then color else get_or s.buffer (py * s.width + px) 0))

-- On a valid buffer whose pixels that are not marked are on the screen, `fill_rect` of a rectangle that
-- ends within the rows of the buffer, and whose right edge is within 32 bits, and then `blit_to`
-- bring the screen to show the rectangle in its colour, and every other pixel of the buffer.
pub fill_rect-blit_to :
    (fb : Frame) (s : ShadowBuffer) (x y w h color : ℕ)
    → IsValid s
    → length s.buffer ≡ s.width * s.height
    → x + w < 2 ^ 32
    → y + h ≤ s.height
    → ((px py : ℕ) → px < s.width → py < s.height → IsMarked s.dirty_rect px py ⊎ Shows s fb px py)
    → (fb' : Frame) × (b : Bool) × (blit_to fb (fill_rect x y w h color s)
        ≡ (record (fill_rect x y w h color s) { dirty_rect = none }, fb', b))
      × ((px py : ℕ)
          → px < s.width
          → py < s.height
          → fb' (py * s.width + px)
            ≡ (if in_rect x y w h px py then color else get_or s.buffer (py * s.width + px) 0))
unfolding fill_rect paint
fill_rect-blit_to fb s x y w h color v size a rows shown =
    let b : y + h < 2 ^ 32 = omega (arith, rows, v.height) in
    let r : Region = record { x = x; y = y; width = w; height = h } in
    let s1 : ShadowBuffer = paint (draw_rect s.width x y w h color) s in
    let keeps = mark_dirty-keeps r s1 in
    let (valid, old, new) =
      mark_dirty_covers r s1 a b (paint-IsValid (draw_rect s.width x y w h color) s v) in
    let u : ShadowBuffer = record s1 { dirty_rect = (mark_dirty r s1).dirty_rect } in
    let at : (px py : ℕ)
        → px < s.width
        → py < s.height
        → get_or s1.buffer (py * s.width + px) 0
          ≡ (if in_rect x y w h px py then color else get_or s.buffer (py * s.width + px) 0) =
      λ px py k l. painted s x y w h color px py v size a b k l in
    let (fb', t, e, all, _) = blit_to-Shows fb u (subst IsValid keeps valid) (λ px py k l.
      elim (Bool-cases (in_rect x y w h px py)) [
        | inl q ↦ inl (new px py k l (inside r px py q))
        | inr q ↦ elim (shown px py k l) [
          | inl m ↦ inl (old px py m)
          | inr m ↦ inr (
              m
              ∙ sym (
                  at px py k l
                  ∙ ap (λ c. if c then color else get_or s.buffer (py * s.width + px) 0) q))
        ]
      ]) in
    subst (Drawn fb s x y w h color) (sym keeps)
      (fb', t, e, λ px py k l. all px py k l ∙ at px py k l)
