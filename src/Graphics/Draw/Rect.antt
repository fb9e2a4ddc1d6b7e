-- ===== src/Graphics/Draw/Rect.antt =====
-- `draw_rect` colours the pixels of the rectangle, and no other pixel.
use vitr_os.Base.{
  ℕ, zero, suc, ◌+◌, ◌-◌, ◌*◌, ◌%◌, ◌^◌, ◌≤◌, ◌<◌, ◌≡◌, refl, ap, ◌∙◌, min, Bool, false, Bool-cases,
  inl, inr, ◌&&◌, ◌||◌, ltb, leb, ◌==◌, if◌then◌else◌, arith,
}
use vitr_os.Graphics.Draw.{Frame, fast_fill_u32, saturating_add, fill_rows, draw_rect}

-- Rows are disjoint: the index of a pixel tells its row and its column.
pub row_below : (s a b x : ℕ) → a < b → x ≤ s → a * s + x ≤ b * s
row_below s a b x l h =
    let e : b ≡ suc (a + (b - a - 1)) = omega arith in
    let f : b * s ≡ suc (a + (b - a - 1)) * s = ap (λ z. z * s) e in
    let g : suc (a + (b - a - 1)) * s ≡ a * s + (b - a - 1) * s + s = expand s a (b - a - 1) in
    omega (arith, f, g, h)
  where
    expand : (s a d : ℕ) → suc (a + d) * s ≡ a * s + d * s + s
    expand s a d = omega arith

-- Whether a pixel lies in a rectangle.
abbrev pub in_rect : ℕ → ℕ → ℕ → ℕ → ℕ → ℕ → Bool
in_rect x y w h px py = (leb x px && ltb px (x + w)) && (leb y py && ltb py (y + h))

fill_row_lem :
    (stride x w row px py color : ℕ) (fb : Frame)
    → x + w ≤ stride
    → px < stride
    → fast_fill_u32 (row * stride + x) color w fb (py * stride + px)
      ≡ (if in_rect x row w 1 px py then color else fb (py * stride + px))
unfolding fast_fill_u32
fill_row_lem stride x w row px py color fb h l = elim (Bool-cases (ltb row py)) [
  | inl e ↦
      let b = row_below stride row py (x + w) (ground arith) h in
      let f : ltb py (row + 1) ≡ false = ground arith in
      let g : ltb (py * stride + px) (row * stride + x + w) ≡ false = ground (arith, b) in
      ground (arith, f, g)
  | inr e ↦ elim (Bool-cases (ltb py row)) [
    | inl f ↦
        let b = row_below stride py row (suc px) (ground arith) l in
        let g : leb row py ≡ false = ground arith in
        let k : leb (row * stride + x) (py * stride + px) ≡ false = ground (arith, b) in
        ground (arith, g, k)
    | inr f ↦ let q : row ≡ py = ground arith in rw q (ground arith)
  ]
]

join_rows :
    (x w y dy n px py color old : ℕ)
    → (if in_rect x (y + suc dy) w n px py
        then color
        else if in_rect x (y + dy) w 1 px py
        then color
        else old)
      ≡ (if in_rect x (y + dy) w (suc n) px py then color else old)
join_rows x w y dy n px py color old = elim (Bool-cases (leb x px && ltb px (x + w))) [
  | inl e ↦ rw e (ground arith)
  | inr e ↦ rw e refl
]

-- The rows from `dy` on.
fill_rows_lem :
    (n dy stride x y w px py color : ℕ) (fb : Frame)
    → x + w ≤ stride
    → px < stride
    → (y + dy + n) * stride < 2 ^ 64
    → y + dy + n < 2 ^ 64
    → fill_rows n dy stride x y w color fb (py * stride + px)
      ≡ (if in_rect x (y + dy) w n px py then color else fb (py * stride + px))
unfolding fill_rows
fill_rows_lem zero dy stride x y w px py color fb h l fits small = ground arith
fill_rows_lem (suc n) dy stride x y w px py color fb h l fits small =
    let a : saturating_add y dy ≡ y + dy = omega arith in
    let b = row_below stride (y + dy) (y + dy + suc n) x (omega arith) (omega arith) in
    let c : ((y + dy) * stride + x) % 2 ^ 64 ≡ (y + dy) * stride + x = omega (arith, b, fits) in
    let d : y + suc dy + n ≡ y + dy + suc n = omega arith in
    let ih =
      fill_rows_lem n (suc dy) stride x y w px py color
        (fast_fill_u32 ((y + dy) * stride + x) color w fb) h l (rw d fits) (rw d small) in
    rw a (
      rw c (
        ih
        ∙ ap (λ v. if in_rect x (y + suc dy) w n px py then color else v)
            (fill_row_lem stride x w (y + dy) px py color fb h l)
        ∙ join_rows x w y dy n px py color (fb (py * stride + px))))

-- `draw_rect` of a rectangle whose rows have indices within 64 bits colours exactly its pixels: those
-- to the right of the buffer's width are left out, and no pixel of the next row is written.
pub draw_rect_lem :
    (width x y w h px py color : ℕ) (fb : Frame)
    → x + w < 2 ^ 64
    → y + h < 2 ^ 64
    → (y + h) * width < 2 ^ 64
    → px < width
    → draw_rect width x y w h color fb (py * width + px)
      ≡ (if in_rect x y w h px py then color else fb (py * width + px))
unfolding draw_rect
draw_rect_lem width x y w h px py color fb a b fits l =
    let x_end : ℕ = min (saturating_add x w) width in
    elim (Bool-cases (w == 0 || h == 0)) [
      | inl e ↦ let f : in_rect x y w h px py ≡ false = ground arith in rw e (rw f refl)
      | inr e ↦ elim (Bool-cases (leb x_end x)) [
        | inl k ↦ let f : in_rect x y w h px py ≡ false = ground arith in rw e (rw k (rw f refl))
        | inr k ↦
            let z : y + 0 ≡ y = omega arith in
            let c : (y + 0 + h) * width < 2 ^ 64 = rw z fits in
            let d : y + 0 + h < 2 ^ 64 = rw z b in
            let f : in_rect x (y + 0) (x_end - x) h px py ≡ in_rect x y w h px py = ground arith in
            rw e (
              rw k (
                fill_rows_lem h 0 width x y (x_end - x) px py color fb (ground arith) l c d
                ∙ ap (λ v. if v then color else fb (py * width + px)) f))
      ]
    ]
