-- ===== src/Graphics/TaskWriter.antt =====
-- `kernel/src/graphics/writer.rs`: the writer of a task, which gathers text into commands and hands them
-- to the task's buffer. Coordinates wrap.
use vitr_os.Base.{
  ℕ, zero, suc, ◌+◌, ◌/◌, ◌%◌, ◌^◌, Bool, true, false, List, [], ◌∷◌, ◌++◌, ltb, ◌==◌,
  if◌then◌else◌,
}
use vitr_os.Graphics.Region.{Region}
use vitr_os.Graphics.Writer.{DrawCommand, WriterBuffer, extend_commands}
pub mod Text

pub record TaskWriter : Type 0 where
  pub buffer : WriterBuffer
  pub local_commands : List DrawCommand
  pub region : Region
  pub cursor_x : ℕ
  pub cursor_y : ℕ
  pub color : ℕ
  pub pending_text : List ℕ
  pub pending_x : ℕ
  pub pending_y : ℕ

unfoldable pub new : WriterBuffer → ℕ → TaskWriter
new buffer color = record {
  buffer = buffer;
  local_commands = [];
  region = buffer.region;
  cursor_x = 0;
  cursor_y = 0;
  color = color;
  pending_text = [];
  pending_x = 0;
  pending_y = 0;
}

unfoldable pub set_position : ℕ → ℕ → TaskWriter → TaskWriter
set_position x y w = record w { cursor_x = x; cursor_y = y }

unfoldable pub set_color : ℕ → TaskWriter → TaskWriter
set_color color w = record w { color = color }

abbrev pub push_local : DrawCommand → TaskWriter → TaskWriter
push_local c w = record w { local_commands = w.local_commands ++ (c ∷ []) }

-- The commands after text that waits is added to them, if there is any.
abbrev pub commit_text : List ℕ → TaskWriter → List DrawCommand
commit_text [] w = w.local_commands
commit_text (ch ∷ text) w =
    w.local_commands ++ (DrawCommand.draw_string w.pending_x w.pending_y (ch ∷ text) w.color ∷ [])

unfoldable pub commit_pending_text : TaskWriter → TaskWriter
commit_pending_text w = record w {
  local_commands = commit_text w.pending_text w;
  pending_text = [];
}

unfoldable pub clear : ℕ → TaskWriter → TaskWriter
unfolding commit_pending_text
clear bg_color w = record (push_local (DrawCommand.clear_region bg_color) (commit_pending_text w)) {
  cursor_x = 0;
  cursor_y = 0;
}

abbrev pub drain : List DrawCommand → TaskWriter → TaskWriter
drain [] w = w
drain (c ∷ l) w = record w { buffer = extend_commands (c ∷ l) w.buffer; local_commands = [] }

-- The lock of the buffer is held for the transfer only.
unfoldable pub flush : TaskWriter → TaskWriter
unfolding commit_pending_text
flush w = let w' = commit_pending_text w in drain w'.local_commands w'

-- A byte as a character in UTF-8.
abbrev pub encode : ℕ → List ℕ
encode ch = if ltb ch 128 then ch ∷ [] else (192 + ch / 64) ∷ (128 + ch % 64) ∷ []

unfoldable pub next_line : TaskWriter → TaskWriter
unfolding commit_pending_text
next_line w = record (commit_pending_text w) { cursor_x = 0; cursor_y = (w.cursor_y + 10) % 2 ^ 32 }

unfoldable pub wrap_line : TaskWriter → TaskWriter
unfolding next_line
wrap_line w = if ltb w.region.width ((w.cursor_x + 8) % 2 ^ 32) then next_line w else w

unfoldable pub wrap_page : TaskWriter → TaskWriter
unfolding commit_pending_text
wrap_page w =
    if ltb w.region.height ((w.cursor_y + 8) % 2 ^ 32)
    then record (push_local (DrawCommand.clear_region 0) (commit_pending_text w)) { cursor_y = 0 }
    else w

-- Where the text starts: at the cursor if none is waiting.
abbrev pub start_text : List ℕ → ℕ → ℕ → ℕ
start_text [] cursor pending = cursor
start_text (ch ∷ text) cursor pending = pending

unfoldable pub put_char : ℕ → TaskWriter → TaskWriter
put_char ch w = record w {
  pending_x = start_text w.pending_text w.cursor_x w.pending_x;
  pending_y = start_text w.pending_text w.cursor_y w.pending_y;
  pending_text = w.pending_text ++ encode ch;
  cursor_x = (w.cursor_x + 8) % 2 ^ 32;
}

unfoldable pub write_byte : ℕ → TaskWriter → TaskWriter
unfolding next_line wrap_line wrap_page put_char
write_byte ch w = if ch == 10 then next_line w else put_char ch (wrap_page (wrap_line w))

unfoldable pub write_str : List ℕ → TaskWriter → TaskWriter
unfolding write_byte
write_str [] w = w
write_str (ch ∷ s) w = write_str s (write_byte ch w)
