-- ===== src/Graphics/Draw.antt =====
-- The drawing routines of `kernel/src/graphics/mod.rs`, on a frame buffer as a function from the index
-- of a pixel to its value. Indices wrap.
use vitr_os.Base.{
  ℕ, zero, suc, ◌+◌, ◌-◌, ◌*◌, ◌/◌, ◌%◌, ◌^◌, min, Bool, true, false, not, ◌&&◌, ◌||◌, List, [],
  ◌∷◌, ltb, leb, ◌==◌, if◌then◌else◌, get_or,
}
use vitr_os.Graphics.Font.{font_8x8}
pub mod Rect
pub mod Char

abbrev pub Frame : Type 0
Frame = ℕ → ℕ

abbrev pub set_pixel : ℕ → ℕ → Frame → Frame
set_pixel offset color fb i = if i == offset then color else fb i

unfoldable pub fast_fill_u32 : ℕ → ℕ → ℕ → Frame → Frame
fast_fill_u32 offset value count fb i =
    if leb offset i && ltb i (offset + count) then value else fb i

abbrev pub saturating_add : ℕ → ℕ → ℕ
saturating_add a b = min (a + b) (2 ^ 64 - 1)

-- The rows of a rectangle from `dy` on.
unfoldable pub fill_rows : ℕ → ℕ → ℕ → ℕ → ℕ → ℕ → ℕ → Frame → Frame
unfolding fast_fill_u32
fill_rows zero dy stride x y clipped_w color fb = fb
fill_rows (suc n) dy stride x y clipped_w color fb =
    fill_rows n (suc dy) stride x y clipped_w color
      (fast_fill_u32 ((saturating_add y dy * stride + x) % 2 ^ 64) color clipped_w fb)

unfoldable pub draw_rect : ℕ → ℕ → ℕ → ℕ → ℕ → ℕ → Frame → Frame
unfolding fill_rows
draw_rect width x y w h color fb =
    let x_end = min (saturating_add x w) width in
    if w == 0 || h == 0
    then fb
    else if leb x_end x
    then fb
    else fill_rows h 0 width x y (x_end - x) color fb

-- The pixels of one row of a character from column `col` on.
unfoldable pub draw_cols : ℕ → ℕ → ℕ → ℕ → ℕ → Frame → Frame
draw_cols zero col glyph_row offset color fb = fb
draw_cols (suc n) col glyph_row offset color fb =
    draw_cols n (suc col) glyph_row offset color
      (if glyph_row / 2 ^ col % 2 == 1 then set_pixel ((offset + col) % 2 ^ 64) color fb else fb)

-- The rows of a character; only `cols` of its columns are visible.
unfoldable pub draw_rows : List ℕ → ℕ → ℕ → ℕ → ℕ → ℕ → ℕ → Frame → Frame
unfolding draw_cols
draw_rows [] row cols stride x y color fb = fb
draw_rows (glyph_row ∷ glyph) row cols stride x y color fb =
    draw_rows glyph (suc row) cols stride x y color (
      if glyph_row == 0
      then fb
      else draw_cols cols 0 glyph_row (((y + row) * stride + x) % 2 ^ 64) color fb)

unfoldable pub draw_char : ℕ → ℕ → ℕ → ℕ → ℕ → Frame → Frame
unfolding draw_rows
draw_char width x y ch color fb =
    let glyph = get_or font_8x8 (ch - 32) [] in
    if ltb ch 32 || ltb 126 ch
    then fb
    else if leb (2 ^ 64) (x + 8)
    then fb
    else if leb (2 ^ 64) (y + 8)
    then fb
    else if leb width x || y + 8 == 0
    then fb
    else if leb (x + 8) width
    then draw_rows glyph 0 8 width x y color fb
    else draw_rows glyph 0 (min (width - x) 8) width x y color fb

unfoldable pub draw_string : ℕ → ℕ → ℕ → List ℕ → ℕ → Frame → Frame
unfolding draw_char
draw_string width x y [] color fb = fb
draw_string width x y (ch ∷ s) color fb =
    let fb' = draw_char width x y ch color fb in
    let rest = draw_string width (x + 8) y s color fb' in if ltb (x + 8) (2 ^ 64) then rest else fb'

-- `FramebufferWriter`, without the address of its frame buffer.
pub record FramebufferWriter : Type 0 where
  pub width : ℕ
  pub height : ℕ
  pub x : ℕ
  pub y : ℕ
  pub color : ℕ

unfoldable pub new : ℕ → ℕ → ℕ → FramebufferWriter
new width height color = record { width = width; height = height; x = 0; y = 0; color = color }

unfoldable pub set_position : ℕ → ℕ → FramebufferWriter → FramebufferWriter
set_position x y w = record w { x = x; y = y }

unfoldable pub set_color : ℕ → FramebufferWriter → FramebufferWriter
set_color color w = record w { color = color }

unfoldable pub clear_area : ℕ → ℕ → FramebufferWriter → Frame → Frame
unfolding draw_rect
clear_area width_chars bg_color w fb =
    draw_rect w.width w.x w.y (width_chars * 8 % 2 ^ 64) 10 bg_color fb

unfoldable pub newline : FramebufferWriter → FramebufferWriter
newline w = record w { x = 0; y = (w.y + 10) % 2 ^ 64 }

unfoldable pub clear_screen : ℕ → FramebufferWriter → Frame → FramebufferWriter × Frame
clear_screen color w fb =
    (record w { x = 0; y = 0 }, fast_fill_u32 0 color (w.width * w.height % 2 ^ 64) fb)

-- A character that does not fit in the line goes into the next.
unfoldable pub write_char : ℕ → FramebufferWriter → Frame → FramebufferWriter × Frame
unfolding newline draw_char
write_char ch w fb =
    let at = if ltb w.width ((w.x + 8) % 2 ^ 64) then newline w else w in
    if ch == 10
    then (newline w, fb)
    else (record at { x = (at.x + 8) % 2 ^ 64 }, draw_char at.width at.x at.y ch at.color fb)

unfoldable pub write_str : List ℕ → FramebufferWriter → Frame → FramebufferWriter × Frame
unfolding write_char
write_str [] w fb = (w, fb)
write_str (ch ∷ s) w fb = let (w', fb') = write_char ch w fb in write_str s w' fb'

-- A pixel of the frame of a rectangle; none if its index does not fit in 64 bits.
abbrev pub set_checked : ℕ → ℕ → ℕ → ℕ → Frame → Frame
set_checked stride px py color fb =
    if ltb py (2 ^ 64) && ltb (py * stride + px) (2 ^ 64)
    then set_pixel (py * stride + px) color fb
    else fb

-- The upper and the lower edge from `dx` on.
unfoldable pub outline_rows : ℕ → ℕ → ℕ → ℕ → ℕ → ℕ → ℕ → Frame → Frame
outline_rows zero dx stride x y h color fb = fb
outline_rows (suc n) dx stride x y h color fb = outline_rows n (suc dx) stride x y h color (
    if ltb (x + dx) (2 ^ 64) && ltb (x + dx) stride
    then set_checked stride (x + dx) (y + (h - 1)) color (set_checked stride (x + dx) y color fb)
    else fb)

-- The left and the right edge from `dy` on.
unfoldable pub outline_cols : ℕ → ℕ → ℕ → ℕ → ℕ → ℕ → ℕ → Frame → Frame
outline_cols zero dy stride x y w color fb = fb
outline_cols (suc n) dy stride x y w color fb =
    let left = if ltb x stride then set_checked stride x (y + dy) color fb else fb in
    outline_cols n (suc dy) stride x y w color (
      if ltb (y + dy) (2 ^ 64)
      then (if ltb (x + (w - 1)) (2 ^ 64) && ltb (x + (w - 1)) stride
          then set_checked stride (x + (w - 1)) (y + dy) color left
          else left)
      else fb)

unfoldable pub draw_rect_outline : ℕ → ℕ → ℕ → ℕ → ℕ → ℕ → Frame → Frame
unfolding outline_rows outline_cols
draw_rect_outline width x y w h color fb =
    if w == 0 || h == 0
    then fb
    else outline_cols h 0 width x y w color (outline_rows w 0 width x y h color fb)
