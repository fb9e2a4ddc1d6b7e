-- ===== src/Sched/Context/Frames.antt =====
-- Frames are built, saved and restored without loss.
use vitr_os.Base.{ℕ, ◌+◌, ◌-◌, ◌%◌, ◌≤◌, ◌<◌, ◌≡◌, ◌≢◌, refl, ap, ◌∙◌, ok, arith}
use vitr_os.Sched.Context.{
  Context, Memory, fxsave_area, fxsave_image, Cpu, set_if, new, init_frame, save, restore,
}

-- The stack pointer of a new context lies 16-aligned in the stack, below the first frame.
pub new_lem :
    (entry top : ℕ) (m : Memory)
    → entry ≢ 0
    → 1024 ≤ top
    → (c : Context) × (new entry top m ≡ ok (c, init_frame entry top m))
      × (c.rsp % 16 ≡ 0)
      × (c.rsp + 576 ≤ top)
      × (top < c.rsp + 592)
unfolding new
new_lem entry top m h k =
    (record { rsp = fxsave_area (top - 64) }, ground arith, omega arith, omega arith, omega arith)

-- A resumption from memory that agrees with `m` on the frame.
abbrev pub Agree : ℕ → ℕ → Memory → Memory → Type 0
Agree lo hi m m' = (x : ℕ) → lo ≤ x → x < hi → m' x ≡ m x

pub record IsEntry (entry top : ℕ) (c : Cpu) : Type 0 where
  pub rip : c.rip ≡ entry
  pub rsp : c.rsp ≡ top
  pub rflags : c.rflags ≡ 0x202
  pub rbp : c.rbp ≡ 0
  pub rbx : c.rbx ≡ 0
  pub r12 : c.r12 ≡ 0
  pub r13 : c.r13 ≡ 0
  pub r14 : c.r14 ≡ 0
  pub r15 : c.r15 ≡ 0

new_ok :
    (entry top : ℕ) (m : Memory) {c : Context} {n : Memory}
    → new entry top m ≡ ok (c, n)
    → (1024 ≤ top) × (c.rsp ≡ fxsave_area (top - 64)) × (n ≡ init_frame entry top m)
unfolding new
new_ok entry top m e = ground arith

-- The saved stack pointer stands 504 bytes into the save area.
init_frame-link :
    (entry top : ℕ) (m : Memory)
    → 1024 ≤ top
    → init_frame entry top m (fxsave_area (top - 64) + 504) ≡ top - 64
unfolding init_frame
init_frame-link entry top m h = ground arith

-- Above the save area lie RFLAGS, six zeros and the return address.
init_frame-words :
    (entry top : ℕ) (m : Memory)
    → 1024 ≤ top
    → (init_frame entry top m (top - 64) ≡ 0x202)
      × (init_frame entry top m (top - 56) ≡ 0)
      × (init_frame entry top m (top - 48) ≡ 0)
      × (init_frame entry top m (top - 40) ≡ 0)
      × (init_frame entry top m (top - 32) ≡ 0)
      × (init_frame entry top m (top - 24) ≡ 0)
      × (init_frame entry top m (top - 16) ≡ 0)
      × (init_frame entry top m (top - 8) ≡ entry)
unfolding init_frame
init_frame-words entry top m h = (
  ground arith,
  ground arith,
  ground arith,
  ground arith,
  ground arith,
  ground arith,
  ground arith,
  ground arith,
)

-- What the resumption reads, from a link to `t` and the words above it.
Words : Memory → ℕ → (flags r15 r14 r13 r12 rbx rbp rip : ℕ) → Type 0
Words m t flags r15 r14 r13 r12 rbx rbp rip =
    (m t ≡ flags)
    × (m (t + 8) ≡ r15)
    × (m (t + 16) ≡ r14)
    × (m (t + 24) ≡ r13)
    × (m (t + 32) ≡ r12)
    × (m (t + 40) ≡ rbx)
    × (m (t + 48) ≡ rbp)
    × (m (t + 56) ≡ rip)

new-Words :
    (entry top : ℕ) (m m' : Memory) (lo : ℕ)
    → 1024 ≤ top
    → lo ≤ top - 64
    → Agree lo top (init_frame entry top m) m'
    → Words m' (top - 64) 0x202 0 0 0 0 0 0 entry
unfolding Words
new-Words entry top m m' lo h l a =
    let (w0, w1, w2, w3, w4, w5, w6, w7) = init_frame-words entry top m h in
    (
      a (top - 64) l (omega arith) ∙ w0,
      at 8 56 (omega arith) (omega arith) (omega arith) w1,
      at 16 48 (omega arith) (omega arith) (omega arith) w2,
      at 24 40 (omega arith) (omega arith) (omega arith) w3,
      at 32 32 (omega arith) (omega arith) (omega arith) w4,
      at 40 24 (omega arith) (omega arith) (omega arith) w5,
      at 48 16 (omega arith) (omega arith) (omega arith) w6,
      at 56 8 (omega arith) (omega arith) (omega arith) w7,
    )
  where
    at :
        (i j : ℕ) {v : ℕ}
        → top - 64 + i ≡ top - j
        → lo ≤ top - j
        → top - j < top
        → init_frame entry top m (top - j) ≡ v
        → m' (top - 64 + i) ≡ v
    at i j e p q w = rw e (a (top - j) p q ∙ w)

restore-IsEntry :
    (c : Context) (entry top : ℕ) (m : Memory)
    → m (c.rsp + 504) ≡ top - 64
    → 64 ≤ top
    → Words m (top - 64) 0x202 0 0 0 0 0 0 entry
    → IsEntry entry top (restore c m)
unfolding restore Words
restore-IsEntry c entry top m e h (w0, w1, w2, w3, w4, w5, w6, w7) = record {
  rip = rw e w7;
  rsp = rw e (omega arith);
  rflags = rw e w0;
  rbp = rw e w6;
  rbx = rw e w5;
  r12 = rw e w4;
  r13 = rw e w3;
  r14 = rw e w2;
  r15 = rw e w1;
}

-- A context that `Context::new` built starts the task: whatever has been written outside its frame
-- since, the restoring half of `switch_context` jumps to the entry point with an empty stack,
-- cleared registers and interrupts enabled.
pub restore-new :
    (entry top : ℕ) (m m' : Memory) {c : Context} {n : Memory}
    → new entry top m ≡ ok (c, n)
    → Agree c.rsp top n m'
    → IsEntry entry top (restore c m')
restore-new entry top m m' {c} {n} e a =
    let (h, r, f) = new_ok entry top m e in
    let a' : Agree (fxsave_area (top - 64)) top (init_frame entry top m) m' =
      λ x p q. a x (omega (arith, r)) q ∙ ap (λ (k : Memory). k x) f in
    restore-IsEntry c entry top m'
      (rw r (a' _ (omega arith) (omega arith) ∙ init_frame-link entry top m h)) (omega arith)
      (new-Words entry top m m' (fxsave_area (top - 64)) h (omega arith) a')

-- The same for a task that was switched out.
save-words :
    (c : Cpu) (m : Memory)
    → 1024 ≤ c.rsp
    → ((save c m).1 (fxsave_area (c.rsp - 56) + 504) ≡ c.rsp - 56)
      × ((save c m).1 (c.rsp - 56) ≡ set_if c.rflags)
      × ((save c m).1 (c.rsp - 48) ≡ c.r15)
      × ((save c m).1 (c.rsp - 40) ≡ c.r14)
      × ((save c m).1 (c.rsp - 32) ≡ c.r13)
      × ((save c m).1 (c.rsp - 24) ≡ c.r12)
      × ((save c m).1 (c.rsp - 16) ≡ c.rbx)
      × ((save c m).1 (c.rsp - 8) ≡ c.rbp)
      × ((save c m).1 c.rsp ≡ m c.rsp)
unfolding save
save-words c m h = (
  ground arith,
  ground arith,
  ground arith,
  ground arith,
  ground arith,
  ground arith,
  ground arith,
  ground arith,
  ground arith,
)

save-fpu :
    (c : Cpu) (m : Memory) (i : ℕ)
    → 1024 ≤ c.rsp
    → i < fxsave_image
    → (save c m).1 (fxsave_area (c.rsp - 56) + i) ≡ c.fpu i
unfolding save
save-fpu c m i h k =
    let e : fxsave_area (c.rsp - 56) + i - fxsave_area (c.rsp - 56) ≡ i = omega arith in
    ground (arith, ap c.fpu e)

-- `r` is where `c`, about to return from the call of `switch_context`, goes on.
pub record IsResumed (c r : Cpu) (m : Memory) : Type 0 where
  pub rip : r.rip ≡ m c.rsp
  pub rsp : r.rsp ≡ c.rsp + 8
  pub rflags : r.rflags ≡ set_if c.rflags
  pub rbp : r.rbp ≡ c.rbp
  pub rbx : r.rbx ≡ c.rbx
  pub r12 : r.r12 ≡ c.r12
  pub r13 : r.r13 ≡ c.r13
  pub r14 : r.r14 ≡ c.r14
  pub r15 : r.r15 ≡ c.r15
  pub fpu : (i : ℕ) → i < fxsave_image → r.fpu i ≡ c.fpu i

save-rsp : (c : Cpu) (m : Memory) → (save c m).0.rsp ≡ fxsave_area (c.rsp - 56)
unfolding save
save-rsp c m = refl

-- A task that `switch_context` switched out with at least a kilobyte of stack address space below
-- it is resumed with its return address, callee-saved registers and floating point state, its
-- stack as before the call, and its flags with the interrupt flag set, provided that nothing has
-- been written to its frame in between.
pub restore-save :
    (c : Cpu) (m m' : Memory)
    → 1024 ≤ c.rsp
    → Agree (save c m).0.rsp (c.rsp + 8) (save c m).1 m'
    → IsResumed c (restore (save c m).0 m') m
unfolding restore
restore-save c m m' h a =
    let (l, w0, w1, w2, w3, w4, w5, w6, w7) = save-words c m h in
    let e : m' ((save c m).0.rsp + 504) ≡ c.rsp - 56 =
      rw (save-rsp c m) (at (fxsave_area (c.rsp - 56) + 504) (omega arith) (omega arith) ∙ l) in
    record {
      rip = rw e (word 56 0 (omega arith) (omega arith) ∙ ap (save c m).1 (omega arith) ∙ w7);
      rsp = rw e (omega arith);
      rflags = rw e (at (c.rsp - 56) (omega arith) (omega arith) ∙ w0);
      rbp = rw e (word 48 8 (omega arith) (omega arith) ∙ w6);
      rbx = rw e (word 40 16 (omega arith) (omega arith) ∙ w5);
      r12 = rw e (word 32 24 (omega arith) (omega arith) ∙ w4);
      r13 = rw e (word 24 32 (omega arith) (omega arith) ∙ w3);
      r14 = rw e (word 16 40 (omega arith) (omega arith) ∙ w2);
      r15 = rw e (word 8 48 (omega arith) (omega arith) ∙ w1);
      fpu = λ i k.
          rw (save-rsp c m)
            (at (fxsave_area (c.rsp - 56) + i) (omega arith) (omega arith) ∙ save-fpu c m i h k);
    }
  where
    at : (x : ℕ) → fxsave_area (c.rsp - 56) ≤ x → x < c.rsp + 8 → m' x ≡ (save c m).1 x
    at x p q = a x (omega (arith, save-rsp c m)) q

    word :
        (i j : ℕ)
        → c.rsp - 56 + i ≡ c.rsp - j
        → c.rsp - 56 ≤ c.rsp - j
        → m' (c.rsp - 56 + i) ≡ (save c m).1 (c.rsp - j)
    word i j e p = rw e (at (c.rsp - j) (omega arith) (omega arith))
