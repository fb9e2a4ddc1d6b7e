-- ===== src/Graphics/Shadow/Target.antt =====
-- `ShadowBuffer` as a `DrawTarget`: it draws into its own pixels and marks what it has drawn. What the
-- drawing routines write past the last pixel is outside of the buffer and not modelled.
use vitr_os.Base.{
  ℕ, zero, suc, ◌+◌, ◌*◌, ◌%◌, ◌^◌, ◌<◌, ◌≡◌, refl, ap, List, [], ◌∷◌, length, get_or, arith,
}
use vitr_os.Graphics.Region.{Region}
use vitr_os.Graphics.Draw
use vitr_os.Graphics.Draw.{Frame, draw_rect}
use vitr_os.Graphics.Shadow.{ShadowBuffer, mark_dirty}
pub mod Fill

unfoldable pub tabulate : ℕ → Frame → List ℕ
tabulate zero f = []
tabulate (suc n) f = f 0 ∷ tabulate n (λ i. f (suc i))

-- A drawing routine on the pixels of the buffer.
unfoldable pub paint : (Frame → Frame) → ShadowBuffer → ShadowBuffer
unfolding tabulate
paint f s = record s { buffer = tabulate (length s.buffer) (f (λ i. get_or s.buffer i 0)) }

unfoldable pub fill_rect : ℕ → ℕ → ℕ → ℕ → ℕ → ShadowBuffer → ShadowBuffer
unfolding paint
fill_rect x y w h color s =
    mark_dirty (record { x = x; y = y; width = w; height = h })
      (paint (draw_rect s.width x y w h color) s)

unfoldable pub draw_char : ℕ → ℕ → ℕ → ℕ → ShadowBuffer → ShadowBuffer
unfolding paint
draw_char x y ch color s =
    mark_dirty (record { x = x; y = y; width = 8; height = 8 })
      (paint (Draw.draw_char s.width x y ch color) s)

unfoldable pub draw_string : ℕ → ℕ → List ℕ → ℕ → ShadowBuffer → ShadowBuffer
unfolding paint
draw_string x y text color s =
    mark_dirty (record { x = x; y = y; width = length text % 2 ^ 32 * 8 % 2 ^ 32; height = 8 })
      (paint (Draw.draw_string s.width x y text color) s)

pub get_or-tabulate : (n i : ℕ) (f : Frame) → i < n → get_or (tabulate n f) i 0 ≡ f i
unfolding tabulate
get_or-tabulate zero i f h = absurd (omega arith)
get_or-tabulate (suc n) zero f h = refl
get_or-tabulate (suc n) (suc i) f h = get_or-tabulate n i (λ j. f (suc j)) (omega arith)

pub length-tabulate : (n : ℕ) (f : Frame) → length (tabulate n f) ≡ n
unfolding tabulate
length-tabulate zero f = refl
length-tabulate (suc n) f = ap suc (length-tabulate n (λ i. f (suc i)))
