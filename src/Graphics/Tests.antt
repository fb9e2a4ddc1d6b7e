-- ===== src/Graphics/Tests.antt =====
-- The theorems about drawing at concrete inputs.
use vitr_os.Base.{
  ℕ, zero, suc, ◌*◌, ◌+◌, sym, ◌<◌, ◌≡◌, refl, ◌⊎◌, inl, inr, Bool, true, false, none, some, List,
  [], ◌∷◌, replicate, map, get_or, if◌then◌else◌, arith,
}
use vitr_os.Graphics.Region.{Region}
use vitr_os.Graphics.Shadow.{ShadowBuffer, blit_to}
use vitr_os.Graphics.Shadow.Dirty.{IsMarked, IsValid}
use vitr_os.Graphics.Shadow.Blit.{Shows}
use vitr_os.Graphics.Draw.{draw_char, draw_rows, draw_cols}
use vitr_os.Graphics.Draw.Rect.{in_rect}
use vitr_os.Graphics.Shadow.Target
use vitr_os.Graphics.Compositor.{Compositor, compose}
use vitr_os.Graphics.Compositor.Tracked.{IsTracked, AllFit}
use vitr_os.Graphics.Compositor.Round.{pending, draw_all, drained, compose-Shows}
use vitr_os.Graphics.Shadow.Target.Fill.{fill_rect-blit_to}
use vitr_os.Graphics.Writer
use vitr_os.Graphics.TaskWriter
use vitr_os.Graphics.TaskWriter.{
  TaskWriter, flush, write_str, write_byte, wrap_line, wrap_page, next_line, put_char,
  commit_pending_text,
}
use vitr_os.Graphics.TaskWriter.Text.{IsPlaced, AllInside, flush-write_str}
use vitr_os.Graphics.Writer.{extend_commands, DrawCommand, Call, run, new, left_by, any}

-- A screen of four times three pixels, one of them drawn and marked.
abbrev marked : Region
marked = record { x = 1; y = 0; width = 1; height = 1 }

abbrev screen : ShadowBuffer
screen = record { buffer = 0 ∷ 7 ∷ replicate 10 0; width = 4; height = 3; dirty_rect = some marked }

screen-IsValid : IsValid screen
screen-IsValid = record {
  width = omega arith;
  height = omega arith;
  clipped = (omega arith, omega arith);
}

abbrev far_corner : Region
far_corner = record { x = 3; y = 2; width = 5; height = 5 }

abbrev blank : ℕ → ℕ
blank i = 0

replicate-zero : (n i : ℕ) → get_or (replicate n zero) i 0 ≡ 0
replicate-zero zero i = refl
replicate-zero (suc n) zero = refl
replicate-zero (suc n) (suc i) = replicate-zero n i

-- The only pixel that is not 0 is the one with index 1.
pixels : (i : ℕ) → (i ≡ 1) ⊎ (get_or screen.buffer i 0 ≡ 0)
pixels zero = inr refl
pixels (suc zero) = inl refl
pixels (suc (suc i)) = inr (replicate-zero 10 i)

blank-Shows :
    (px py : ℕ) → px < 4 → py < 3 → IsMarked screen.dirty_rect px py ⊎ Shows screen blank px py
blank-Shows px py a b = elim (pixels (py * 4 + px)) [
  | inl e ↦
      inl (record {
        left = omega arith;
        right = omega arith;
        top = omega arith;
        bottom = omega arith;
      })
  | inr e ↦ inr (sym e)
]

abbrev calls : List Call
calls =
    Call.push_call (DrawCommand.clear_region 9)
    ∷ Call.clear_call
    ∷ Call.extend_call []
    ∷ Call.push_call (DrawCommand.fill_rect 0 0 2 2 7)
    ∷ []

fill_rect-blit_to_example :
    (fb' : ℕ → ℕ) × (b : Bool) × (blit_to blank (Target.fill_rect 2 1 9 1 5 screen)
      ≡ (record (Target.fill_rect 2 1 9 1 5 screen) { dirty_rect = none }, fb', b))
    × ((px py : ℕ)
        → px < 4
        → py < 3
        → fb' (py * 4 + px)
          ≡ (if in_rect 2 1 9 1 px py then 5 else get_or screen.buffer (py * 4 + px) 0))
fill_rect-blit_to_example =
    fill_rect-blit_to blank screen 2 1 9 1 5 screen-IsValid refl (omega arith) (omega arith)
      blank-Shows

-- A letter that is cut off at the right edge stays in its lines.
letter_is_cut : (draw_char 4 0 0 73 1 blank 3 ≡ 1) × (draw_char 4 3 0 73 1 blank 4 ≡ 0)
unfolding draw_char draw_rows draw_cols
letter_is_cut = (refl, refl)

-- One task has a rectangle to draw that is cut off at the right edge, another holds its buffer.
abbrev compositor : Compositor
compositor = record {
  buffers =
      record {
        is_locked = false;
        writer = record {
          commands = DrawCommand.clear_region 3 ∷ DrawCommand.fill_rect 1 0 9 2 5 ∷ [];
          dirty = true;
          region = record { x = 0; y = 0; width = 4; height = 3 };
        };
      }
      ∷ record {
        is_locked = true;
        writer = record {
          commands = DrawCommand.fill_rect 0 0 1 1 6 ∷ [];
          dirty = true;
          region = record { x = 2; y = 0; width = 2; height = 2 };
        };
      }
      ∷ [];
  shadow_buffer = screen;
  fb = blank;
  frame_count = 0;
}

compose-Shows_example :
    IsTracked (compose compositor).fb (compose compositor).shadow_buffer
    × ((px py : ℕ)
        → px < (compose compositor).shadow_buffer.width
        → py < (compose compositor).shadow_buffer.height
        → Shows (compose compositor).shadow_buffer (compose compositor).fb px py)
    × ((compose compositor).shadow_buffer
        ≡ record (draw_all (pending compositor.buffers) compositor.shadow_buffer) {
          dirty_rect = none;
        })
    × ((compose compositor).buffers ≡ map drained compositor.buffers)
compose-Shows_example =
    compose-Shows compositor
      (
        ((omega arith, omega arith), ((omega arith, omega arith), tt)),
        (((omega arith, omega arith), tt), tt),
      )
      (omega arith, (omega arith, tt)) (refl, (refl, tt))
      (record { valid = screen-IsValid; size = refl; shown = blank-Shows })

-- A task with a region of two characters in a line, and one line, of the screen.
abbrev sample_writer : TaskWriter
sample_writer = TaskWriter.new (Writer.new (record { x = 8; y = 4; width = 16; height = 9 })) 7

written_commands :
    (flush (write_str (73 ∷ 74 ∷ 75 ∷ []) sample_writer)).buffer.commands
    ≡ DrawCommand.draw_string 0 0 (73 ∷ 74 ∷ []) 7
      ∷ DrawCommand.clear_region 0
      ∷ DrawCommand.draw_string 0 0 (75 ∷ []) 7
      ∷ []
unfolding flush write_str write_byte wrap_line wrap_page next_line put_char commit_pending_text
    extend_commands Writer.new TaskWriter.new
written_commands = refl

-- Text that waits takes the colour that is set later.
later_colour :
    (flush (TaskWriter.set_color 9 (write_str (73 ∷ []) sample_writer))).buffer.commands
    ≡ DrawCommand.draw_string 0 0 (73 ∷ []) 9 ∷ []
unfolding TaskWriter.set_color flush write_str write_byte wrap_line wrap_page next_line put_char
    commit_pending_text extend_commands Writer.new TaskWriter.new
later_colour = refl

sample_writer-IsPlaced : IsPlaced sample_writer
unfolding TaskWriter.new Writer.new
sample_writer-IsPlaced = record {
  wide = omega arith;
  high = omega arith;
  right = omega arith;
  bottom = omega arith;
  column = omega arith;
  pending = inl refl;
  commands = tt;
}

flush-write_str_example :
    AllInside sample_writer.region
      (flush (write_str (73 ∷ 74 ∷ 75 ∷ []) sample_writer)).buffer.commands
    × AllFit sample_writer.region
        (flush (write_str (73 ∷ 74 ∷ 75 ∷ []) sample_writer)).buffer.commands
unfolding TaskWriter.new Writer.new
flush-write_str_example =
    flush-write_str (73 ∷ 74 ∷ 75 ∷ []) sample_writer
      (omega arith, (omega arith, (omega arith, tt))) (omega arith) sample_writer-IsPlaced tt
