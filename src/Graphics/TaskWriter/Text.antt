-- ===== src/Graphics/TaskWriter/Text.antt =====
-- What a task writes stays within its region.
use mathlib.Core.Path.{subst}
use vitr_os.Base.{
  ℕ, suc, ◌+◌, ◌*◌, ◌%◌, ◌^◌, ◌≤◌, ◌<◌, ◌≡◌, refl, sym, ap, ◌∙◌, ◌⊎◌, inl, inr, true, Bool-cases,
  List, [], ◌∷◌, ◌++◌, length, length-append, ltb, ◌==◌, arith,
}
use vitr_os.Graphics.Region.{Region}
use vitr_os.Graphics.Writer.{DrawCommand, extend_commands}
use vitr_os.Graphics.Compositor.Tracked.{Fits, AllFit}
use vitr_os.Graphics.TaskWriter.{
  TaskWriter, commit_text, commit_pending_text, drain, flush, next_line, wrap_line, wrap_page,
  start_text, put_char, write_byte, write_str,
}

-- The command draws within a region of this size; clearing it always does.
abbrev pub Inside : Region → DrawCommand → Type 0
Inside r (DrawCommand.clear_region color) = Unit
Inside r (DrawCommand.draw_char x y ch color) = (x + 8 ≤ r.width) × (y + 8 ≤ r.height)
Inside r (DrawCommand.draw_string x y text color) =
    (x + length text * 8 ≤ r.width) × (y + 8 ≤ r.height)
Inside r (DrawCommand.fill_rect x y width height color) =
    (x + width ≤ r.width) × (y + height ≤ r.height)

abbrev pub AllInside : Region → List DrawCommand → Type 0
AllInside r [] = Unit
AllInside r (c ∷ l) = Inside r c × AllInside r l

Inside-Fits :
    (r : Region) (c : DrawCommand)
    → r.x + r.width < 2 ^ 32
    → r.y + r.height < 2 ^ 32
    → Inside r c
    → Fits r c
Inside-Fits r (DrawCommand.clear_region color) a b i = (a, b)
Inside-Fits r (DrawCommand.draw_char x y ch color) a b i =
    (omega (arith, a, i.0), omega (arith, b, i.1))
Inside-Fits r (DrawCommand.draw_string x y text color) a b i =
    (omega (arith, a, i.0), omega (arith, b, i.1))
Inside-Fits r (DrawCommand.fill_rect x y w h color) a b i =
    (omega (arith, a, i.0), omega (arith, b, i.1))

AllInside-AllFit :
    (r : Region) (l : List DrawCommand)
    → r.x + r.width < 2 ^ 32
    → r.y + r.height < 2 ^ 32
    → AllInside r l
    → AllFit r l
AllInside-AllFit r [] a b i = tt
AllInside-AllFit r (c ∷ l) a b i = (Inside-Fits r c a b i.0, AllInside-AllFit r l a b i.1)

-- Text that waits ends at the cursor.
abbrev IsPending : TaskWriter → Type 0
IsPending w =
    (w.pending_text ≡ [])
    ⊎ (w.pending_x + length w.pending_text * 8 ≡ w.cursor_x)
      × (w.pending_y ≡ w.cursor_y)
      × (w.cursor_y + 8 ≤ w.region.height)

-- The region has room for a character and lies on a screen; the commands lie within it.
pub record IsPlaced (w : TaskWriter) : Type 0 where
  pub wide : 8 ≤ w.region.width
  pub high : 8 ≤ w.region.height
  pub right : w.region.x + w.region.width + 8 < 2 ^ 32
  pub bottom : w.region.y + w.region.height < 2 ^ 32
  pub column : w.cursor_x ≤ w.region.width
  pub pending : IsPending w
  pub commands : AllInside w.region w.local_commands

pub AllInside-append :
    (r : Region) (l l' : List DrawCommand) → AllInside r l → AllInside r l' → AllInside r (l ++ l')
AllInside-append r [] l' f g = g
AllInside-append r (c ∷ l) l' f g = (f.0, AllInside-append r l l' f.1 g)

commit_text-AllInside :
    (t : List ℕ) (w : TaskWriter)
    → w.pending_text ≡ t
    → IsPlaced w
    → AllInside w.region (commit_text t w)
commit_text-AllInside [] w e p = p.commands
commit_text-AllInside (ch ∷ text) w e p =
    AllInside-append w.region w.local_commands
      (DrawCommand.draw_string w.pending_x w.pending_y (ch ∷ text) w.color ∷ []) p.commands
      (elim p.pending [
        | inl n ↦ absurd (
            let q : length {A = ℕ} [] ≡ length (ch ∷ text) = ap length (sym n ∙ e) in
            omega (arith, q))
        | inr (a, b, c) ↦
            let l : length w.pending_text ≡ length (ch ∷ text) = ap length e in
            ((omega (arith, a, l, p.column), omega (arith, b, c)), tt)
      ])

next_line-IsPlaced : (w : TaskWriter) → IsPlaced w → IsPlaced (next_line w)
unfolding next_line commit_pending_text
next_line-IsPlaced w p = record {
  wide = p.wide;
  high = p.high;
  right = p.right;
  bottom = p.bottom;
  column = omega arith;
  pending = inl refl;
  commands = commit_text-AllInside w.pending_text w refl p;
}

-- Room for `n` more lines.
abbrev HasRoom : ℕ → TaskWriter → Type 0
HasRoom n w = w.cursor_y + n * 10 < 2 ^ 32

-- After the line is wrapped there is room for a character in it.
wrap_line-IsPlaced :
    (n : ℕ) (w : TaskWriter)
    → HasRoom (suc n) w
    → IsPlaced w
    → IsPlaced (wrap_line w)
      × (HasRoom n (wrap_line w))
      × ((wrap_line w).cursor_x + 8 ≤ (wrap_line w).region.width)
unfolding wrap_line next_line commit_pending_text
wrap_line-IsPlaced n w r p = elim (Bool-cases (ltb w.region.width ((w.cursor_x + 8) % 2 ^ 32))) [
  | inl e ↦ rw e (next_line-IsPlaced w p, omega (arith, r), p.wide)
  | inr e ↦ rw e (p, omega (arith, r), ground (arith, e, p.column, p.right))
]

wrap_page-IsPlaced :
    (n : ℕ) (w : TaskWriter)
    → HasRoom (suc n) w
    → w.cursor_x + 8 ≤ w.region.width
    → IsPlaced w
    → IsPlaced (wrap_page w)
      × (HasRoom (suc n) (wrap_page w))
      × ((wrap_page w).cursor_x + 8 ≤ (wrap_page w).region.width)
      × ((wrap_page w).cursor_y + 8 ≤ (wrap_page w).region.height)
unfolding wrap_page commit_pending_text
wrap_page-IsPlaced n w r c p = elim (Bool-cases (ltb w.region.height ((w.cursor_y + 8) % 2 ^ 32))) [
  | inl e ↦ rw e (
    record {
      wide = p.wide;
      high = p.high;
      right = p.right;
      bottom = p.bottom;
      column = p.column;
      pending = inl refl;
      commands =
          AllInside-append w.region (commit_text w.pending_text w) (DrawCommand.clear_region 0 ∷ [])
            (commit_text-AllInside w.pending_text w refl p) (tt, tt);
    },
    omega (arith, r),
    c,
    p.high,
  )
  | inr e ↦ rw e (p, omega (arith, r), c, ground (arith, e, r))
]

-- The text with one more byte ends at the cursor after it.
text_at :
    (t : List ℕ) (ch cx cy px py : ℕ)
    → (t ≡ []) ⊎ (px + length t * 8 ≡ cx) × (py ≡ cy)
    → (start_text t cx px + length (t ++ (ch ∷ [])) * 8 ≡ cx + 8) × (start_text t cy py ≡ cy)
text_at [] ch cx cy px py h = (omega arith, refl)
text_at (c ∷ t) ch cx cy px py (inl e) =
    absurd (let q : length (c ∷ t) ≡ length {A = ℕ} [] = ap length e in omega (arith, q))
text_at (c ∷ t) ch cx cy px py (inr (e, f)) = (omega (arith, e, length-append (c ∷ t) (ch ∷ [])), f)

-- One byte of ASCII.
put_char-IsPlaced :
    (ch : ℕ) (w : TaskWriter)
    → ch < 128
    → w.cursor_x + 8 ≤ w.region.width
    → w.cursor_y + 8 ≤ w.region.height
    → IsPlaced w
    → IsPlaced (put_char ch w)
unfolding put_char
put_char-IsPlaced ch w a c l p = record {
  wide = p.wide;
  high = p.high;
  right = p.right;
  bottom = p.bottom;
  column = omega (arith, c);
  pending =
      let known : (w.pending_text ≡ [])
          ⊎ (w.pending_x + length w.pending_text * 8 ≡ w.cursor_x) × (w.pending_y ≡ w.cursor_y) =
        elim p.pending [ inl e ↦ inl e | inr (e, f, g) ↦ inr (e, f) ] in
      let (e, f) = text_at w.pending_text ch w.cursor_x w.cursor_y w.pending_x w.pending_y known in
      let b : ltb ch 128 ≡ true = ground arith in
      let q : (w.cursor_x + 8) % 2 ^ 32 ≡ w.cursor_x + 8 = omega (arith, c, p.right) in
      inr (rw b (e ∙ sym q), f, l);
  commands = p.commands;
}

write_byte-IsPlaced :
    (n ch : ℕ) (w : TaskWriter)
    → ch < 128
    → HasRoom (suc (suc n)) w
    → IsPlaced w
    → IsPlaced (write_byte ch w) × HasRoom (suc n) (write_byte ch w)
unfolding write_byte next_line put_char
write_byte-IsPlaced n ch w a r p = elim (Bool-cases (ch == 10)) [
  | inl e ↦ rw e (next_line-IsPlaced w p, omega (arith, r))
  | inr e ↦
      let (q, s, c) = wrap_line-IsPlaced (suc n) w r p in
      let (p', r', c', l) = wrap_page-IsPlaced n (wrap_line w) s c q in
      rw e (put_char-IsPlaced ch (wrap_page (wrap_line w)) a c' l p', r')
]

abbrev pub IsAscii : List ℕ → Type 0
IsAscii [] = Unit
IsAscii (ch ∷ s) = (ch < 128) × IsAscii s

write_str-IsPlaced :
    (s : List ℕ) (w : TaskWriter)
    → IsAscii s
    → HasRoom (suc (length s)) w
    → IsPlaced w
    → IsPlaced (write_str s w)
unfolding write_str
write_str-IsPlaced [] w a r p = p
write_str-IsPlaced (ch ∷ s) w a r p =
    let (q, r') = write_byte-IsPlaced (length s) ch w a.0 r p in
    write_str-IsPlaced s (write_byte ch w) a.1 r' q

drain-AllInside :
    (l : List DrawCommand) (w : TaskWriter)
    → AllInside w.region w.buffer.commands
    → AllInside w.region l
    → AllInside w.region (drain l w).buffer.commands
unfolding extend_commands
drain-AllInside [] w b f = b
drain-AllInside (c ∷ l) w b f = AllInside-append w.region w.buffer.commands (c ∷ l) b f

-- Writing touches neither the region nor the shared buffer.
abbrev Keeps : TaskWriter → TaskWriter → Type 0
Keeps w w' = (w'.region ≡ w.region) × (w'.buffer ≡ w.buffer)

wrap_line-Keeps : (w : TaskWriter) → Keeps w (wrap_line w)
unfolding wrap_line next_line commit_pending_text
wrap_line-Keeps w = elim (Bool-cases (ltb w.region.width ((w.cursor_x + 8) % 2 ^ 32))) [
  | inl e ↦ rw e (refl, refl)
  | inr e ↦ rw e (refl, refl)
]

wrap_page-Keeps : (w : TaskWriter) → Keeps w (wrap_page w)
unfolding wrap_page commit_pending_text
wrap_page-Keeps w = elim (Bool-cases (ltb w.region.height ((w.cursor_y + 8) % 2 ^ 32))) [
  | inl e ↦ rw e (refl, refl)
  | inr e ↦ rw e (refl, refl)
]

write_byte-Keeps : (ch : ℕ) (w : TaskWriter) → Keeps w (write_byte ch w)
unfolding write_byte next_line commit_pending_text put_char
write_byte-Keeps ch w = elim (Bool-cases (ch == 10)) [
  | inl e ↦ rw e (refl, refl)
  | inr e ↦
      let (a, b) = wrap_line-Keeps w in
      let (c, d) = wrap_page-Keeps (wrap_line w) in rw e (c ∙ a, d ∙ b)
]

write_str-Keeps : (s : List ℕ) (w : TaskWriter) → Keeps w (write_str s w)
unfolding write_str
write_str-Keeps [] w = (refl, refl)
write_str-Keeps (ch ∷ s) w =
    let (a, b) = write_byte-Keeps ch w in
    let (c, d) = write_str-Keeps s (write_byte ch w) in (c ∙ a, d ∙ b)

-- What a task writes in ASCII and flushes stays within its region: no text or rectangle goes past
-- the right or the bottom edge. So it stays within 32 bits too, as the compositor needs it. This
-- holds if the region has room for a character and lies within 32 bits with 8 pixels to spare at
-- the right, the cursor is not right of the region, the commands so far and the text that waits, up
-- to the cursor, are within it, and the text does not have so many bytes that the cursor could
-- leave 32 bits.
pub flush-write_str :
    (s : List ℕ) (w : TaskWriter)
    → IsAscii s
    → w.cursor_y + suc (length s) * 10 < 2 ^ 32
    → IsPlaced w
    → AllInside w.region w.buffer.commands
    → AllInside w.region (flush (write_str s w)).buffer.commands
      × AllFit w.region (flush (write_str s w)).buffer.commands
unfolding flush commit_pending_text
flush-write_str s w a r p b =
    let w' : TaskWriter = write_str s w in
    let q = write_str-IsPlaced s w a r p in
    let (e, f) = write_str-Keeps s w in
    let b' : AllInside w'.region w'.buffer.commands =
      subst (λ z. AllInside z w'.buffer.commands) (sym e)
        (subst (λ z. AllInside w.region z.commands) (sym f) b) in
    let i : AllInside w.region (flush w').buffer.commands =
      subst (λ z. AllInside z (flush w').buffer.commands) e
        (drain-AllInside (commit_text w'.pending_text w') (commit_pending_text w') b'
          (commit_text-AllInside w'.pending_text w' refl q)) in
    (i, AllInside-AllFit w.region (flush w').buffer.commands (omega (arith, p.right)) p.bottom i)
