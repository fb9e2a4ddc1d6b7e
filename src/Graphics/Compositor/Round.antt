-- ===== src/Graphics/Compositor/Round.antt =====
-- After a round of the compositor the screen shows the shadow buffer.
use mathlib.Core.Path.{subst}
use vitr_os.Base.{
  ℕ, ◌<◌, ◌≡◌, refl, sym, inl, inr, ◌≤◌, ◌+◌, ap, ◌∙◌, Bool, false, Bool-cases, List, [], ◌∷◌, ◌++◌,
  map, All, none, if◌then◌else◌, arith,
}
use vitr_os.Graphics.Draw.{Frame}
use vitr_os.Graphics.Shadow.{ShadowBuffer}
use vitr_os.Graphics.Shadow.Blit.{Shows, blit_to-Shows}
use vitr_os.Graphics.Region.{Region}
use vitr_os.Graphics.Writer.{DrawCommand, clear_commands, new, any}
use vitr_os.Graphics.Compositor.{
  SharedBuffer, Compositor, render_command, render_commands_to, render_buffer, render_buffers,
  compose,
}
use vitr_os.Graphics.Compositor.Tracked.{
  IsTracked, AllFit, BuffersFit, render_commands_to-IsTracked,
}

-- The commands of the buffers that no task holds, in order, each with the region of its buffer.
abbrev pub pending : List SharedBuffer → List (Region × DrawCommand)
pending [] = []
pending (b ∷ l) =
    if b.is_locked
    then pending l
    else (map (λ c. (b.writer.region, c)) b.writer.commands ++ pending l)

-- Each command is drawn at its place, one after the other.
abbrev pub draw_all : List (Region × DrawCommand) → ShadowBuffer → ShadowBuffer
draw_all [] s = s
draw_all ((r, c) ∷ l) s = draw_all l (render_command r c s)

-- A buffer that no task holds is new after a round; one that is held is as before.
abbrev pub drained : SharedBuffer → SharedBuffer
drained b = if b.is_locked then b else record b { writer = new b.writer.region }

-- The dirty flag says whether there are commands, as `Writer.run-new` shows it of any calls.
abbrev pub IsFlagged : SharedBuffer → Type 0
IsFlagged b = b.writer.dirty ≡ any b.writer.commands

-- The row below all that a command draws.
abbrev pub bottom_of : Region × DrawCommand → ℕ
bottom_of (r, DrawCommand.clear_region color) = r.y + r.height
bottom_of (r, DrawCommand.draw_char x y ch color) = r.y + y + 8
bottom_of (r, DrawCommand.draw_string x y text color) = r.y + y + 8
bottom_of (r, DrawCommand.fill_rect x y width height color) = r.y + y + height

draw_all-append :
    (l m : List (Region × DrawCommand)) (s : ShadowBuffer)
    → draw_all (l ++ m) s ≡ draw_all m (draw_all l s)
draw_all-append [] m s = refl
draw_all-append ((r, c) ∷ l) m s = draw_all-append l m (render_command r c s)

draw_all-map :
    (r : Region) (l : List DrawCommand) (s : ShadowBuffer)
    → draw_all (map (λ c. (r, c)) l) s ≡ render_commands_to r l s
unfolding render_commands_to
draw_all-map r [] s = refl
draw_all-map r (c ∷ l) s = draw_all-map r l (render_command r c s)

any-false : (l : List DrawCommand) → any l ≡ false → l ≡ []
any-false [] e = refl
any-false (c ∷ l) e = absurd (ground arith)

render_buffer_lem :
    (b : SharedBuffer) (s : ShadowBuffer)
    → IsFlagged b
    → ((render_buffer b s).0 ≡ drained b) × ((render_buffer b s).1 ≡ draw_all (pending (b ∷ [])) s)
unfolding render_buffer clear_commands new
render_buffer_lem b s f = elim (Bool-cases b.is_locked) [
  | inl e ↦ rw e (refl, refl)
  | inr e ↦
      let one : draw_all (map (λ c. (b.writer.region, c)) b.writer.commands ++ []) s
          ≡ render_commands_to b.writer.region b.writer.commands s =
        draw_all-append (map (λ c. (b.writer.region, c)) b.writer.commands) [] s
        ∙ draw_all-map b.writer.region b.writer.commands s in
      elim (Bool-cases b.writer.dirty) [
        | inl d ↦ rw e (rw d (refl, sym one))
        | inr d ↦
            let n = any-false b.writer.commands (sym f ∙ d) in
            rw e (
              rw d (
                ap
                    (λ (l : List DrawCommand). record {
                      is_locked = false;
                      writer = record { commands = l; dirty = false; region = b.writer.region };
                    })
                    n,
                sym (one ∙ ap (λ l. render_commands_to b.writer.region l s) n),
              ))
      ]
]

pending-cons :
    (b : SharedBuffer) (l : List SharedBuffer) (s : ShadowBuffer)
    → draw_all (pending (b ∷ l)) s ≡ draw_all (pending l) (draw_all (pending (b ∷ [])) s)
pending-cons b l s = elim (Bool-cases b.is_locked) [
  | inl e ↦ rw e refl
  | inr e ↦
      let m = map (λ c. (b.writer.region, c)) b.writer.commands in
      rw e
        (draw_all-append m (pending l) s ∙ ap (draw_all (pending l)) (sym (draw_all-append m [] s)))
]

render_buffers_lem :
    (l : List SharedBuffer) (s : ShadowBuffer)
    → All IsFlagged l
    → ((render_buffers l s).0 ≡ map drained l) × ((render_buffers l s).1 ≡ draw_all (pending l) s)
unfolding render_buffers
render_buffers_lem [] s f = (refl, refl)
render_buffers_lem (b ∷ l) s f =
    let (a, d) = render_buffer_lem b s f.0 in
    let (c, e) = render_buffers_lem l (render_buffer b s).1 f.1 in
    ((λ i. a i ∷ c i), e ∙ ap (draw_all (pending l)) d ∙ sym (pending-cons b l s))

render_buffer-IsTracked :
    (b : SharedBuffer) (fb : Frame) (s : ShadowBuffer)
    → AllFit b.writer.region b.writer.commands
    → IsTracked fb s
    → IsTracked fb (render_buffer b s).1
unfolding render_buffer clear_commands
render_buffer-IsTracked b fb s f i = elim (Bool-cases b.is_locked) [
  | inl e ↦ rw e i
  | inr e ↦ elim (Bool-cases b.writer.dirty) [
    | inl d ↦ rw e (rw d (render_commands_to-IsTracked b.writer.region b.writer.commands fb s f i))
    | inr d ↦ rw e (rw d i)
  ]
]

render_buffers-IsTracked :
    (l : List SharedBuffer) (fb : Frame) (s : ShadowBuffer)
    → BuffersFit l
    → IsTracked fb s
    → IsTracked fb (render_buffers l s).1
unfolding render_buffers
render_buffers-IsTracked [] fb s f i = i
render_buffers-IsTracked (b ∷ l) fb s f i =
    render_buffers-IsTracked l fb (render_buffer b s).1 f.1 (render_buffer-IsTracked b fb s f.0 i)

-- If each pixel of the shadow buffer that is not marked is on the screen, a round of the compositor
-- draws the commands of the free buffers into the shadow buffer, one after the other and one buffer
-- after the other. After it the screen shows every pixel of the shadow buffer, nothing is marked,
-- the free buffers are empty, and the held ones as before. The commands have to stay within 32 bits
-- and above the end of the buffer, and the dirty flags have to say which buffers have commands.
pub compose-Shows :
    (c : Compositor)
    → BuffersFit c.buffers
    → All (λ p. bottom_of p ≤ c.shadow_buffer.height) (pending c.buffers)
    → All IsFlagged c.buffers
    → IsTracked c.fb c.shadow_buffer
    → IsTracked (compose c).fb (compose c).shadow_buffer
      × ((px py : ℕ)
          → px < (compose c).shadow_buffer.width
          → py < (compose c).shadow_buffer.height
          → Shows (compose c).shadow_buffer (compose c).fb px py)
      × ((compose c).shadow_buffer
          ≡ record (draw_all (pending c.buffers) c.shadow_buffer) { dirty_rect = none })
      × ((compose c).buffers ≡ map drained c.buffers)
unfolding compose
compose-Shows c f rows flags i =
    let s : ShadowBuffer = (render_buffers c.buffers c.shadow_buffer).1 in
    let (d, drawn) = render_buffers_lem c.buffers c.shadow_buffer flags in
    let j = render_buffers-IsTracked c.buffers c.fb c.shadow_buffer f i in
    let (fb', t, e, all, _) = blit_to-Shows c.fb s j.valid j.shown in
    let (tracked, shows, same) = subst (Shown s) (sym e) (
      record {
        valid = record { width = j.valid.width; height = j.valid.height; clipped = tt };
        size = j.size;
        shown = λ px py k l. inr (all px py k l);
      },
      all,
      refl,
    ) in
    (tracked, shows, same ∙ ap (λ (z : ShadowBuffer). record z { dirty_rect = none }) drawn, d)
  where
    Shown : ShadowBuffer → ShadowBuffer × Frame × Bool → Type 0
    Shown s (s', fb', t) =
        IsTracked fb' s'
        × ((px py : ℕ) → px < s'.width → py < s'.height → Shows s' fb' px py)
        × (s' ≡ record s { dirty_rect = none })
