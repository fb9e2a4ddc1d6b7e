-- ===== src/Graphics/Writer.antt =====
-- `kernel/src/graphics/buffer.rs`: the commands that a task has drawn and not shown yet.
use vitr_os.Base.{
  ℕ, suc, ◌≡◌, refl, sym, ap, ◌∙◌, Bool, true, false, Bool-cases, inl, inr, List, [], ◌∷◌, ◌++◌,
  ltb, lt→ltb, if◌then◌else◌, length, arith,
}
use vitr_os.Graphics.Region.{Region}

-- A string is the list of its bytes; `clear_region` is `Clear`.
pub data DrawCommand : Type 0 where
  draw_char : (x y ch color : ℕ) → DrawCommand
  draw_string : (x y : ℕ) (text : List ℕ) (color : ℕ) → DrawCommand
  fill_rect : (x y width height color : ℕ) → DrawCommand
  clear_region : (color : ℕ) → DrawCommand

pub record WriterBuffer : Type 0 where
  pub commands : List DrawCommand
  pub dirty : Bool
  pub region : Region

unfoldable pub new : Region → WriterBuffer
new r = record { commands = []; dirty = false; region = r }

unfoldable pub push_command : DrawCommand → WriterBuffer → WriterBuffer
push_command c w = record w { commands = w.commands ++ (c ∷ []); dirty = true }

-- The flag is set only if there was a command to add.
unfoldable pub extend_commands : List DrawCommand → WriterBuffer → WriterBuffer
extend_commands l w =
    let commands = w.commands ++ l in
    record w {
      commands = commands;
      dirty = if ltb (length w.commands) (length commands) then true else w.dirty;
    }

unfoldable pub clear_commands : WriterBuffer → WriterBuffer
clear_commands w = record w { commands = []; dirty = false }

-- The calls on one buffer.
pub data Call : Type 0 where
  push_call : DrawCommand → Call
  extend_call : List DrawCommand → Call
  clear_call : Call

unfoldable pub call : Call → WriterBuffer → WriterBuffer
unfolding push_command extend_commands clear_commands
call (push_call c) w = push_command c w
call (extend_call l) w = extend_commands l w
call clear_call w = clear_commands w

unfoldable pub run : List Call → WriterBuffer → WriterBuffer
unfolding call
run [] w = w
run (c ∷ l) w = run l (call c w)

-- What the calls leave: the commands since the last clear.
abbrev pub left_by : List Call → List DrawCommand → List DrawCommand
left_by [] l = l
left_by (push_call c ∷ cs) l = left_by cs (l ++ (c ∷ []))
left_by (extend_call l' ∷ cs) l = left_by cs (l ++ l')
left_by (clear_call ∷ cs) l = left_by cs []

abbrev pub any : List DrawCommand → Bool
any [] = false
any (c ∷ l) = true

any-append_one : (l : List DrawCommand) (c : DrawCommand) → any (l ++ (c ∷ [])) ≡ true
any-append_one [] c = refl
any-append_one (x ∷ l) c = refl

-- The flag after an extension, by the lengths.
any-extend :
    (l l' : List DrawCommand)
    → (if ltb (length l) (length (l ++ l')) then true else any l) ≡ any (l ++ l')
any-extend (x ∷ l) l' = elim (Bool-cases (ltb (length (x ∷ l)) (length ((x ∷ l) ++ l')))) [
  | inl e ↦ rw e refl
  | inr e ↦ rw e refl
]
any-extend [] [] = refl
any-extend [] (x ∷ l) = rw (lt→ltb 0 (suc (length l)) (omega arith)) refl

run_keeps :
    (cs : List Call) (l : List DrawCommand) (r : Region)
    → run cs (record { commands = l; dirty = any l; region = r })
      ≡ record { commands = left_by cs l; dirty = any (left_by cs l); region = r }
unfolding run call push_command extend_commands clear_commands
run_keeps [] l r = refl
run_keeps (push_call c ∷ cs) l r =
    ap (λ b. run cs (record { commands = l ++ (c ∷ []); dirty = b; region = r }))
      (sym (any-append_one l c))
    ∙ run_keeps cs (l ++ (c ∷ [])) r
run_keeps (extend_call l' ∷ cs) l r =
    ap (λ b. run cs (record { commands = l ++ l'; dirty = b; region = r })) (any-extend l l')
    ∙ run_keeps cs (l ++ l') r
run_keeps (clear_call ∷ cs) l r = run_keeps cs [] r

-- After any sequence of calls on a new buffer its commands are those pushed since the last clear, in
-- order, its dirty flag says whether there is any, and its region is the one it was made with.
pub run-new :
    (cs : List Call) (r : Region)
    → ((run cs (new r)).commands ≡ left_by cs [])
      × ((run cs (new r)).dirty ≡ any (left_by cs []))
      × ((run cs (new r)).region ≡ r)
unfolding new
run-new cs r = rw (run_keeps cs [] r) (refl, refl, refl)
