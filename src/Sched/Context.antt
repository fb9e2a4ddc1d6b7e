-- ===== src/Sched/Context.antt =====
-- `kernel/src/sched/context.rs`: the frame that a task's stack pointer names, as `Context::new`
-- builds it and as `switch_context` saves and restores it. Memory is read and written in words of
-- eight bytes; the words of one frame do not overlap.
pub mod Frames
use vitr_os.Base.{
  ℕ, ◌+◌, ◌-◌, ◌*◌, ◌/◌, ◌%◌, ◌<◌, ◌≡◌, Bool, true, false, not, ◌&&◌, ◌||◌, ltb, leb, ◌==◌, Outcome,
  ok, err, if◌then◌else◌,
}

pub data TaskError : Type 0 where
  invalid_priority stack_allocation_failed invalid_stack_address : TaskError
  context_init_failed queue_full : TaskError

-- Only the stack pointer; the registers are on the stack.
pub record Context : Type 0 where
  pub rsp : ℕ

-- The word at each address.
abbrev pub Memory : Type 0
Memory = ℕ → ℕ

abbrev pub write : ℕ → ℕ → Memory → Memory
write a v m x = if x == a then v else m x

-- `write_bytes(a, 0, n)`.
abbrev pub clear : ℕ → ℕ → Memory → Memory
clear a n m x = if leb a x && ltb x (a + n) then 0 else m x

abbrev pub fxsave_size : ℕ
fxsave_size = 512

abbrev pub fxsave_align : ℕ
fxsave_align = 16

abbrev pub min_required_stack : ℕ
min_required_stack = 1024

-- The start of the save area below `rsp`: 512 bytes lower, rounded down to a multiple of 16.
abbrev pub fxsave_area : ℕ → ℕ
fxsave_area rsp = (rsp - fxsave_size) / fxsave_align * fxsave_align

-- The words of a first frame: the return address, six callee-saved registers, RFLAGS with the
-- interrupt flag, the cleared save area, and in it the stack pointer from before the alignment.
unfoldable pub init_frame : ℕ → ℕ → Memory → Memory
init_frame entry_point stack_top m =
    let rsp = stack_top - 64 in
    write (fxsave_area rsp + 504) rsp (
      clear (fxsave_area rsp) fxsave_size (
        write rsp 0x202 (
          write (stack_top - 56) 0 (
            write (stack_top - 48) 0 (
              write (stack_top - 40) 0 (
                write (stack_top - 32) 0 (
                  write (stack_top - 24) 0
                    (write (stack_top - 16) 0 (write (stack_top - 8) entry_point m)))))))))

-- `Context::new`: the context and the memory after the writes. The stack pointer falls by 8 and
-- then to the save area; both results are tested as the code tests them.
unfoldable pub new : ℕ → ℕ → Memory → Outcome TaskError (Context × Memory)
unfolding init_frame
new entry_point stack_top m =
    if stack_top == 0
    then err TaskError.invalid_stack_address
    else if entry_point == 0
    then err TaskError.context_init_failed
    else if ltb stack_top min_required_stack
    then err TaskError.invalid_stack_address
    else if stack_top - 8 == 0
    then err TaskError.invalid_stack_address
    else let rsp = fxsave_area (stack_top - 64) in
      if (rsp == 0) || not (rsp % fxsave_align == 0)
      then err TaskError.invalid_stack_address
      else ok (record { rsp = rsp }, init_frame entry_point stack_top m)

-- The state of the processor that a switch keeps: stack pointer, instruction pointer, flags, the
-- callee-saved registers, and the image that `fxsave` stores, by offset.
pub record Cpu : Type 0 where
  pub rsp : ℕ
  pub rip : ℕ
  pub rflags : ℕ
  pub rbp : ℕ
  pub rbx : ℕ
  pub r12 : ℕ
  pub r13 : ℕ
  pub r14 : ℕ
  pub r15 : ℕ
  pub fpu : ℕ → ℕ

-- The bytes that `fxsave` writes; the rest of its 512 bytes is left to software.
abbrev pub fxsave_image : ℕ
fxsave_image = 464

abbrev pub fxsave : ℕ → (ℕ → ℕ) → Memory → Memory
fxsave a f m x = if leb a x && ltb x (a + fxsave_image) then f (x - a) else m x

-- `or qword ptr [rsp], 0x200`.
abbrev pub set_if : ℕ → ℕ
set_if flags = if flags / 0x200 % 2 == 1 then flags else flags + 0x200

-- The pushes of `switch_context`. The call has pushed the return address, so `rsp` names it.
unfoldable pub save : Cpu → Memory → Context × Memory
save c m =
    let top = c.rsp - 56 in
    (
      record { rsp = fxsave_area top },
      write (fxsave_area top + 504) top (
          fxsave (fxsave_area top) c.fpu (
            write top (set_if c.rflags) (
              write (c.rsp - 48) c.r15 (
                write (c.rsp - 40) c.r14 (
                  write (c.rsp - 32) c.r13 (
                    write (c.rsp - 24) c.r12
                      (write (c.rsp - 16) c.rbx (write (c.rsp - 8) c.rbp m)))))))),
    )

-- The second half of `switch_context`: the pops, and `ret`.
unfoldable pub restore : Context → Memory → Cpu
restore ctx m =
    let top = m (ctx.rsp + 504) in
    record {
      rsp = top + 64;
      rip = m (top + 56);
      rflags = m top;
      rbp = m (top + 48);
      rbx = m (top + 40);
      r12 = m (top + 32);
      r13 = m (top + 24);
      r14 = m (top + 16);
      r15 = m (top + 8);
      fpu = λ i. m (ctx.rsp + i);
    }
