-- ===== src/Graphics/Compositor.antt =====
-- `kernel/src/graphics/compositor.rs`: the registered buffers of the tasks, and the round of the compositor
-- task, which draws their commands into the shadow buffer and transfers what has changed.
use vitr_os.Base.{
  ℕ, suc, ◌+◌, ◌%◌, ◌^◌, Bool, true, false, ◌&&◌, not, List, [], ◌∷◌, ◌++◌, if◌then◌else◌,
}
use vitr_os.Graphics.Region.{Region}
use vitr_os.Graphics.Draw.{Frame}
use vitr_os.Graphics.Shadow.{ShadowBuffer, blit_to}
use vitr_os.Graphics.Shadow.Target.{fill_rect, draw_char, draw_string}
use vitr_os.Graphics.Writer
use vitr_os.Graphics.Writer.{DrawCommand, WriterBuffer, clear_commands}
pub mod Tracked
pub mod Round

-- A registered buffer, and whether its mutex is held by a task.
pub record SharedBuffer : Type 0 where
  pub is_locked : Bool
  pub writer : WriterBuffer

-- The registered buffers, the shadow buffer of the task, the frame buffer and the number of frames.
pub record Compositor : Type 0 where
  pub buffers : List SharedBuffer
  pub shadow_buffer : ShadowBuffer
  pub fb : Frame
  pub frame_count : ℕ

unfoldable pub register_writer : Region → Compositor → Compositor
register_writer region c = record c {
  buffers = c.buffers ++ (record { is_locked = false; writer = Writer.new region } ∷ []);
}

abbrev pub wrapping_add : ℕ → ℕ → ℕ
wrapping_add a b = (a + b) % 2 ^ 32

-- A command is drawn at its place in the region of its buffer.
unfoldable pub render_command : Region → DrawCommand → ShadowBuffer → ShadowBuffer
unfolding fill_rect draw_char draw_string
render_command region (DrawCommand.clear_region color) s =
    fill_rect region.x region.y region.width region.height color s
render_command region (DrawCommand.draw_char x y ch color) s =
    draw_char (wrapping_add region.x x) (wrapping_add region.y y) ch color s
render_command region (DrawCommand.draw_string x y text color) s =
    draw_string (wrapping_add region.x x) (wrapping_add region.y y) text color s
render_command region (DrawCommand.fill_rect x y width height color) s =
    fill_rect (wrapping_add region.x x) (wrapping_add region.y y) width height color s

unfoldable pub render_commands_to : Region → List DrawCommand → ShadowBuffer → ShadowBuffer
unfolding render_command
render_commands_to region [] s = s
render_commands_to region (c ∷ l) s = render_commands_to region l (render_command region c s)

-- The loop over the buffers: `try_lock` fails for one that is locked, which waits for the next round.
unfoldable pub render_buffer : SharedBuffer → ShadowBuffer → SharedBuffer × ShadowBuffer
unfolding render_commands_to
render_buffer b s =
    if not b.is_locked && b.writer.dirty
    then (
      record b { writer = clear_commands b.writer },
      render_commands_to b.writer.region b.writer.commands s,
    )
    else (b, s)

unfoldable pub render_buffers : List SharedBuffer → ShadowBuffer → List SharedBuffer × ShadowBuffer
unfolding render_buffer
render_buffers [] s = ([], s)
render_buffers (b ∷ l) s =
    let (b', s') = render_buffer b s in let (l', s2) = render_buffers l s' in (b' ∷ l', s2)

-- One round of `compositor_task`.
unfoldable pub compose : Compositor → Compositor
unfolding render_buffers
compose c =
    let (buffers, s) = render_buffers c.buffers c.shadow_buffer in
    let (s', fb, blitted) = blit_to c.fb s in
    record {
      buffers = buffers;
      shadow_buffer = s';
      fb = fb;
      frame_count = (c.frame_count + 1) % 2 ^ 64;
    }
