-- ===== src/Graphics/Draw/Char.antt =====
-- Characters and strings change no pixel outside of their cells.
use vitr_os.Base.{
  ℕ, zero, suc, ◌+◌, ◌-◌, ◌*◌, ◌/◌, ◌%◌, ◌^◌, ◌≤◌, ◌<◌, ◌≡◌, ◌≢◌, refl, sym, ap, ◌∙◌, min, Bool,
  true, false, false≢true, Bool-cases, inl, inr, ◌&&◌, ◌||◌, List, [], ◌∷◌, length, get_or, ltb,
  leb, ◌==◌, arith,
}
use vitr_os.Graphics.Font.{font_8x8}
use vitr_os.Graphics.Draw.{Frame, set_pixel, draw_cols, draw_rows, draw_char, draw_string}
use vitr_os.Graphics.Draw.Rect.{in_rect, row_below}

set_pixel_other :
    (offset color i : ℕ) (fb : Frame) → i ≢ offset → set_pixel offset color fb i ≡ fb i
set_pixel_other offset color i fb h = let e : (i == offset) ≡ false = ground (arith, h) in rw e refl

draw_cols_other :
    (n col glyph_row offset color i : ℕ) (fb : Frame)
    → ((k : ℕ) → k < col + n → i ≢ (offset + k) % 2 ^ 64)
    → draw_cols n col glyph_row offset color fb i ≡ fb i
unfolding draw_cols
draw_cols_other zero col glyph_row offset color i fb h = refl
draw_cols_other (suc n) col glyph_row offset color i fb h =
    elim (Bool-cases (glyph_row / 2 ^ col % 2 == 1)) [
      | inl e ↦ rw e (
          draw_cols_other n (suc col) glyph_row offset color i
            (set_pixel ((offset + col) % 2 ^ 64) color fb) (λ k l. h k (omega arith))
          ∙ set_pixel_other ((offset + col) % 2 ^ 64) color i fb (h col (omega arith)))
      | inr e ↦
          rw e (draw_cols_other n (suc col) glyph_row offset color i fb (λ k l. h k (omega arith)))
    ]

draw_rows_other :
    (glyph : List ℕ) (row cols stride x y color i : ℕ) (fb : Frame)
    → ((r k : ℕ)
        → r < row + length glyph
        → k < cols
        → i ≢ (((y + r) * stride + x) % 2 ^ 64 + k) % 2 ^ 64)
    → draw_rows glyph row cols stride x y color fb i ≡ fb i
unfolding draw_rows
draw_rows_other [] row cols stride x y color i fb h = refl
draw_rows_other (g ∷ glyph) row cols stride x y color i fb h =
    let rest : (r k : ℕ)
        → r < suc row + length glyph
        → k < cols
        → i ≢ (((y + r) * stride + x) % 2 ^ 64 + k) % 2 ^ 64 =
      λ r k l m. h r k (omega (arith, l)) m in
    elim (Bool-cases (g == 0)) [
      | inl e ↦ rw e (draw_rows_other glyph (suc row) cols stride x y color i fb rest)
      | inr e ↦ rw e (
          draw_rows_other glyph (suc row) cols stride x y color i
            (draw_cols cols 0 g (((y + row) * stride + x) % 2 ^ 64) color fb) rest
          ∙ draw_cols_other cols 0 g (((y + row) * stride + x) % 2 ^ 64) color i fb
              (λ k l. h row k (omega arith) (omega arith)))
    ]

-- Different pixels have different indices.
index_unique :
    (stride row c px py : ℕ)
    → c < stride
    → px < stride
    → py * stride + px ≡ row * stride + c
    → (py ≡ row) × (px ≡ c)
index_unique stride row c px py h l e = elim (Bool-cases (ltb row py)) [
  | inl f ↦ absurd (let b = row_below stride row py (suc c) (ground arith) h in omega (arith, b, e))
  | inr f ↦ elim (Bool-cases (ltb py row)) [
    | inl g ↦
        absurd (let b = row_below stride py row (suc px) (ground arith) l in omega (arith, b, e))
    | inr g ↦
        let q : py ≡ row = ground arith in
        (q, let p : py * stride ≡ row * stride = ap (λ z. z * stride) q in omega (arith, p, e))
  ]
]

abbrev all_short : List (List ℕ) → Bool
all_short [] = true
all_short (g ∷ l) = leb (length g) 8 && all_short l

short : (l : List (List ℕ)) (i : ℕ) → all_short l ≡ true → length (get_or l i []) ≤ 8
short [] i h = omega arith
short (g ∷ l) zero h = ground (arith, h)
short (g ∷ l) (suc i) h = short l i (ground (arith, h))

-- `draw_char` changes only pixels of its cell of 8 by 8, also at the right edge.
pub draw_char_other :
    (width x y ch color px py : ℕ) (fb : Frame)
    → x + 8 < 2 ^ 32
    → y + 8 < 2 ^ 32
    → (y + 8) * width < 2 ^ 64
    → px < width
    → in_rect x y 8 8 px py ≡ false
    → draw_char width x y ch color fb (py * width + px) ≡ fb (py * width + px)
unfolding draw_char
draw_char_other width x y ch color px py fb a b fits l out =
    let wide : leb (2 ^ 64) (x + 8) ≡ false = ground arith in
    let high : leb (2 ^ 64) (y + 8) ≡ false = ground arith in
    elim (Bool-cases (ltb ch 32 || ltb 126 ch)) [
      | inl e ↦ rw e refl
      | inr e ↦ rw e (
          rw wide (
            rw high (elim (Bool-cases (leb width x || y + 8 == 0)) [
              | inl f ↦ rw f refl
              | inr f ↦ rw f (elim (Bool-cases (leb (x + 8) width)) [
                | inl g ↦ rw g (rows 8 (omega arith) (ground arith))
                | inr g ↦ rw g (rows (min (width - x) 8) (omega arith) (ground arith))
              ])
            ])))
    ]
  where
    inside :
        (row c : ℕ)
        → py ≡ row
        → px ≡ c
        → (y ≤ row) × (row < y + 8)
        → (x ≤ c) × (c < x + 8)
        → in_rect x y 8 8 px py ≡ true
    inside row c e f g h = ground (arith, e, f, g, h)

    glyph : List ℕ
    glyph = get_or font_8x8 (ch - 32) []

    rows :
        (cols : ℕ)
        → cols ≤ 8
        → x + cols ≤ width
        → draw_rows glyph 0 cols width x y color fb (py * width + px) ≡ fb (py * width + px)
    rows cols h m = draw_rows_other glyph 0 cols width x y color (py * width + px) fb (λ r k p q e.
        let s = short font_8x8 (ch - 32) refl in
        let c = row_below width (y + r) (y + 8) (x + k) (omega (arith, s, p)) (omega arith) in
        let f : (((y + r) * width + x) % 2 ^ 64 + k) % 2 ^ 64 ≡ (y + r) * width + (x + k) =
          omega (arith, c, fits) in
        let (u, v) = index_unique width (y + r) (x + k) px py (omega arith) l (e ∙ f) in
        false≢true (
          sym out
          ∙ inside (y + r) (x + k) u v (omega arith, omega (arith, s, p))
              (omega arith, omega arith)))

-- `draw_string` changes only pixels of the cells of its characters, one beside the other.
pub draw_string_other :
    (width x y : ℕ) (text : List ℕ) (color px py : ℕ) (fb : Frame)
    → x + length text * 8 < 2 ^ 32
    → y + 8 < 2 ^ 32
    → (y + 8) * width < 2 ^ 64
    → px < width
    → in_rect x y (length text * 8) 8 px py ≡ false
    → draw_string width x y text color fb (py * width + px) ≡ fb (py * width + px)
unfolding draw_string
draw_string_other width x y [] color px py fb a b fits l out = refl
draw_string_other width x y (ch ∷ text) color px py fb a b fits l out =
    let e : ltb (x + 8) (2 ^ 64) ≡ true = ground arith in
    let here : in_rect x y 8 8 px py ≡ false = ground (arith, out) in
    let rest : in_rect (x + 8) y (length text * 8) 8 px py ≡ false = ground (arith, out) in
    rw e (
      draw_string_other width (x + 8) y text color px py (draw_char width x y ch color fb)
        (omega (arith, a)) b fits l rest
      ∙ draw_char_other width x y ch color px py fb (omega (arith, a)) b fits l here)
