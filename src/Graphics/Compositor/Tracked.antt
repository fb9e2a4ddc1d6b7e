-- ===== src/Graphics/Compositor/Tracked.antt =====
-- Each command of the compositor keeps track of the pixels that it changes.
use mathlib.Core.Path.{subst}
use vitr_os.Base.{
  ℕ, ◌+◌, ◌*◌, ◌%◌, ◌^◌, ◌<◌, ◌≡◌, sym, ap, ◌∙◌, ◌⊎◌, inl, inr, false, Bool-cases, List, [], ◌∷◌,
  length, get_or, if◌then◌else◌, arith,
}
use vitr_os.Graphics.Region.{Region}
use vitr_os.Graphics.Draw
use vitr_os.Graphics.Draw.{Frame, draw_rect}
use vitr_os.Graphics.Draw.Rect.{in_rect, draw_rect_lem}
use vitr_os.Graphics.Draw.Char.{draw_char_other, draw_string_other}
use vitr_os.Graphics.Shadow.{ShadowBuffer, mark_dirty}
use vitr_os.Graphics.Shadow.Dirty.{IsMarked, IsValid, mark_dirty_covers}
use vitr_os.Graphics.Shadow.Blit.{Shows}
use vitr_os.Graphics.Shadow.Target.{
  paint, fill_rect, draw_char, draw_string, get_or-tabulate, length-tabulate,
}
use vitr_os.Graphics.Shadow.Target.Fill.{
  mark_dirty-keeps, index_fits, rows_fit, paint-IsValid, inside,
}
use vitr_os.Graphics.Writer.{DrawCommand}
use vitr_os.Graphics.Compositor.{SharedBuffer, wrapping_add, render_command, render_commands_to}

-- What holds between rounds and within them: the buffer has its size, and each pixel that is not marked
-- is on the screen.
pub record IsTracked (fb : Frame) (s : ShadowBuffer) : Type 0 where
  pub valid : IsValid s
  pub size : length s.buffer ≡ s.width * s.height
  pub shown :
      (px py : ℕ) → px < s.width → py < s.height → IsMarked s.dirty_rect px py ⊎ Shows s fb px py

-- A drawing routine changes only pixels of a rectangle.
abbrev Confined : (Frame → Frame) → ℕ → Region → Type 0
Confined f width r =
    (old : Frame) (px py : ℕ)
    → px < width
    → in_rect r.x r.y r.width r.height px py ≡ false
    → f old (py * width + px) ≡ old (py * width + px)

length-paint : (f : Frame → Frame) (s : ShadowBuffer) → length (paint f s).buffer ≡ length s.buffer
unfolding paint
length-paint f s = length-tabulate (length s.buffer) (f (λ i. get_or s.buffer i 0))

draw-IsTracked :
    (f : Frame → Frame) (r : Region) (fb : Frame) (s : ShadowBuffer)
    → Confined f s.width r
    → r.x + r.width < 2 ^ 32
    → r.y + r.height < 2 ^ 32
    → IsTracked fb s
    → IsTracked fb (mark_dirty r (paint f s))
unfolding paint
draw-IsTracked f r fb s confined a b i =
    let s1 : ShadowBuffer = paint f s in
    let keeps = mark_dirty-keeps r s1 in
    let (valid, old, new) = mark_dirty_covers r s1 a b (paint-IsValid f s i.valid) in
    let u : ShadowBuffer = record s1 { dirty_rect = (mark_dirty r s1).dirty_rect } in
    let same : (px py : ℕ)
        → px < s.width
        → py < s.height
        → in_rect r.x r.y r.width r.height px py ≡ false
        → get_or s1.buffer (py * s.width + px) 0 ≡ get_or s.buffer (py * s.width + px) 0 =
      λ px py k l q.
        let n = index_fits px py s.width s.height k l in
        get_or-tabulate (length s.buffer) (py * s.width + px) (f (λ j. get_or s.buffer j 0))
          (omega (arith, n, i.size))
        ∙ confined (λ j. get_or s.buffer j 0) px py k q in
    subst (IsTracked fb) (sym keeps) (record {
      valid = subst IsValid keeps valid;
      size = length-paint f s ∙ i.size;
      shown = λ px py k l. elim (Bool-cases (in_rect r.x r.y r.width r.height px py)) [
        | inl q ↦ inl (new px py k l (inside r px py q))
        | inr q ↦ elim (i.shown px py k l) [
          | inl m ↦ inl (old px py m)
          | inr m ↦ inr (m ∙ sym (same px py k l q))
        ]
      ];
    })

-- The command stays within the coordinates of 32 bits.
abbrev pub Fits : Region → DrawCommand → Type 0
Fits r (DrawCommand.clear_region color) = (r.x + r.width < 2 ^ 32) × (r.y + r.height < 2 ^ 32)
Fits r (DrawCommand.draw_char x y ch color) = (r.x + x + 8 < 2 ^ 32) × (r.y + y + 8 < 2 ^ 32)
Fits r (DrawCommand.draw_string x y text color) =
    (r.x + x + length text * 8 < 2 ^ 32) × (r.y + y + 8 < 2 ^ 32)
Fits r (DrawCommand.fill_rect x y width height color) =
    (r.x + x + width < 2 ^ 32) × (r.y + y + height < 2 ^ 32)

abbrev pub AllFit : Region → List DrawCommand → Type 0
AllFit r [] = Unit
AllFit r (c ∷ l) = Fits r c × AllFit r l

abbrev pub BuffersFit : List SharedBuffer → Type 0
BuffersFit [] = Unit
BuffersFit (b ∷ l) = AllFit b.writer.region b.writer.commands × BuffersFit l

fill_rect-IsTracked :
    (x y w h color : ℕ) (fb : Frame) (s : ShadowBuffer)
    → x + w < 2 ^ 32
    → y + h < 2 ^ 32
    → IsTracked fb s
    → IsTracked fb (fill_rect x y w h color s)
unfolding fill_rect
fill_rect-IsTracked x y w h color fb s a b i =
    draw-IsTracked (draw_rect s.width x y w h color)
      (record { x = x; y = y; width = w; height = h }) fb s
      (λ old px py k q.
        draw_rect_lem s.width x y w h px py color old (omega arith) (omega arith)
          (rows_fit (y + h) s.width b i.valid.width) k
        ∙ ap (λ c. if c then color else old (py * s.width + px)) q)
      a b i

draw_char-IsTracked :
    (x y ch color : ℕ) (fb : Frame) (s : ShadowBuffer)
    → x + 8 < 2 ^ 32
    → y + 8 < 2 ^ 32
    → IsTracked fb s
    → IsTracked fb (draw_char x y ch color s)
unfolding draw_char
draw_char-IsTracked x y ch color fb s a b i =
    draw-IsTracked (Draw.draw_char s.width x y ch color)
      (record { x = x; y = y; width = 8; height = 8 }) fb s
      (λ old px py k q.
        draw_char_other s.width x y ch color px py old a b
          (rows_fit (y + 8) s.width b i.valid.width) k q)
      a b i

draw_string-IsTracked :
    (x y : ℕ) (text : List ℕ) (color : ℕ) (fb : Frame) (s : ShadowBuffer)
    → x + length text * 8 < 2 ^ 32
    → y + 8 < 2 ^ 32
    → IsTracked fb s
    → IsTracked fb (draw_string x y text color s)
unfolding draw_string
draw_string-IsTracked x y text color fb s a b i =
    let e : length text % 2 ^ 32 * 8 % 2 ^ 32 ≡ length text * 8 = omega arith in
    rw e (
      draw-IsTracked (Draw.draw_string s.width x y text color)
        (record { x = x; y = y; width = length text * 8; height = 8 }) fb s
        (λ old px py k q.
          draw_string_other s.width x y text color px py old a b
            (rows_fit (y + 8) s.width b i.valid.width) k q)
        a b i)

render_command-IsTracked :
    (r : Region) (c : DrawCommand) (fb : Frame) (s : ShadowBuffer)
    → Fits r c
    → IsTracked fb s
    → IsTracked fb (render_command r c s)
unfolding render_command
render_command-IsTracked r (DrawCommand.clear_region color) fb s f i =
    fill_rect-IsTracked r.x r.y r.width r.height color fb s f.0 f.1 i
render_command-IsTracked r (DrawCommand.draw_char x y ch color) fb s f i =
    draw_char-IsTracked (wrapping_add r.x x) (wrapping_add r.y y) ch color fb s (omega (arith, f.0))
      (omega (arith, f.1)) i
render_command-IsTracked r (DrawCommand.draw_string x y text color) fb s f i =
    draw_string-IsTracked (wrapping_add r.x x) (wrapping_add r.y y) text color fb s
      (omega (arith, f.0)) (omega (arith, f.1)) i
render_command-IsTracked r (DrawCommand.fill_rect x y w h color) fb s f i =
    fill_rect-IsTracked (wrapping_add r.x x) (wrapping_add r.y y) w h color fb s
      (omega (arith, f.0)) (omega (arith, f.1)) i

pub render_commands_to-IsTracked :
    (r : Region) (l : List DrawCommand) (fb : Frame) (s : ShadowBuffer)
    → AllFit r l
    → IsTracked fb s
    → IsTracked fb (render_commands_to r l s)
unfolding render_commands_to
render_commands_to-IsTracked r [] fb s f i = i
render_commands_to-IsTracked r (c ∷ l) fb s f i =
    render_commands_to-IsTracked r l fb (render_command r c s) f.1
      (render_command-IsTracked r c fb s f.0 i)
