-- ===== src/Descriptors/Decode.antt =====
-- The descriptors as the manual of the processor reads them.
use Prim.Native.Nat.{bit_and}
use vitr_os.Base.{
  ℕ, ◌+◌, ◌*◌, ◌/◌, ◌%◌, ◌^◌, ◌<◌, ◌≡◌, refl, ap, Bool, false, Option, none, some, ◌==◌, ◌||◌,
  if◌then◌else◌, arith,
}
use vitr_os.Base.Bits.{bit_and-mask}
use vitr_os.Descriptors.{
  GdtEntry, TssDescriptor, tss_descriptor, tss_size, new_tss, new_gdt, init_gdt, IdtEntry, Handlers,
  new_idt, init_idt, new_gate, new_with_ist, kernel_code_selector, double_fault_ist_index,
}

-- The base and the limit of a descriptor of 16 bytes.
abbrev pub base_of : TssDescriptor → ℕ
base_of d =
    d.low.base_low
    + d.low.base_middle * 2 ^ 16
    + d.low.base_high * 2 ^ 24
    + d.high.limit_low * 2 ^ 32
    + d.high.base_low * 2 ^ 48

abbrev pub limit_of : GdtEntry → ℕ
limit_of e = e.limit_low + e.granularity % 2 ^ 4 * 2 ^ 16

abbrev pub available_tss : ℕ
available_tss = 9

-- The type, the level and the bit for a descriptor that is present.
abbrev pub type_of : GdtEntry → ℕ
type_of e = e.access % 2 ^ 4

abbrev pub level_of : GdtEntry → ℕ
level_of e = e.access / 2 ^ 5 % 4

abbrev pub present_of : GdtEntry → ℕ
present_of e = e.access / 2 ^ 7 % 2

-- After `init` the descriptor of the TSS gives its address and its size, the stack for double faults
-- is the end of their memory, and the segments have the levels of the kernel and of user code.
init_gdt-decodes :
    (stack tss : ℕ)
    → tss < 2 ^ 64
    → stack + 16384 < 2 ^ 64
    → let (t, g) = init_gdt stack tss new_tss new_gdt in
      (base_of g.tss ≡ tss)
      × (limit_of g.tss.low + 1 ≡ tss_size)
      × (type_of g.tss.low ≡ available_tss)
      × (present_of g.tss.low ≡ 1)
      × (t.ist1 ≡ stack + 16384)
      × (level_of g.kernel_code ≡ 0)
      × (level_of g.kernel_data ≡ 0)
      × (level_of g.user_code ≡ 3)
      × (level_of g.user_data ≡ 3)
unfolding init_gdt new_gdt tss_descriptor
init_gdt-decodes stack tss h l = (
  omega (
    arith,
    h,
    bit_and-mask 16 tss,
    bit_and-mask 8 (tss / 2 ^ 16),
    bit_and-mask 8 (tss / 2 ^ 24),
    bit_and-mask 16 (tss / 2 ^ 32),
    bit_and-mask 16 (tss / 2 ^ 48),
  ),
  refl,
  refl,
  refl,
  omega (arith, l),
  refl,
  refl,
  refl,
  refl,
)

-- A gate that is present, for interrupts: the handler, the segment of its code and the stack of the
-- TSS that it runs on, 0 for the current one.
pub record Gate : Type 0 where
  pub offset : ℕ
  pub selector : ℕ
  pub ist : ℕ

abbrev pub offset_of : IdtEntry → ℕ
offset_of e = e.offset_low + e.offset_middle * 2 ^ 16 + e.offset_high * 2 ^ 32

unfoldable pub gate_of : IdtEntry → Option Gate
gate_of e =
    if e.attributes / 2 ^ 7 % 2 == 1
    then if e.attributes % 2 ^ 4 == 0xE
      then some (record { offset = offset_of e; selector = e.selector; ist = e.ist % 2 ^ 3 })
      else none
    else none

split_offset :
    (a : ℕ)
    → a < 2 ^ 64
    → bit_and a 0xFFFF
        + bit_and (a / 2 ^ 16) 0xFFFF * 2 ^ 16
        + bit_and (a / 2 ^ 32) 0xFFFF_FFFF * 2 ^ 32
      ≡ a
split_offset a h =
    omega (arith, h, bit_and-mask 16 a, bit_and-mask 16 (a / 2 ^ 16), bit_and-mask 32 (a / 2 ^ 32))

gate_of-new_gate :
    (a : ℕ)
    → a < 2 ^ 64
    → gate_of (new_gate a kernel_code_selector 0)
      ≡ some (record { offset = a; selector = kernel_code_selector; ist = 0 })
unfolding gate_of new_gate
gate_of-new_gate a h =
    ap (λ x. some (record { offset = x; selector = kernel_code_selector; ist = 0 }))
      (split_offset a h)

gate_of-new_with_ist :
    (a : ℕ)
    → a < 2 ^ 64
    → gate_of (new_with_ist a kernel_code_selector 0 double_fault_ist_index)
      ≡ some (record { offset = a; selector = kernel_code_selector; ist = 1 })
unfolding gate_of new_with_ist
gate_of-new_with_ist a h =
    ap (λ x. some (record { offset = x; selector = kernel_code_selector; ist = 1 }))
      (split_offset a h)

-- The handlers are addresses.
pub record AreAddresses (h : Handlers) : Type 0 where
  pub divide_error : h.divide_error < 2 ^ 64
  pub debug_exception : h.debug_exception < 2 ^ 64
  pub breakpoint : h.breakpoint < 2 ^ 64
  pub invalid_opcode : h.invalid_opcode < 2 ^ 64
  pub double_fault : h.double_fault < 2 ^ 64
  pub general_protection_fault : h.general_protection_fault < 2 ^ 64
  pub page_fault : h.page_fault < 2 ^ 64
  pub timer_interrupt : h.timer_interrupt < 2 ^ 64

-- A gate in the segment of the kernel.
abbrev pub kernel_gate : ℕ → ℕ → Option Gate
kernel_gate a ist = some (record { offset = a; selector = 0x08; ist = ist })

-- The exceptions that have a handler, by the numbers of the manual, and the timer.
abbrev pub is_handled : ℕ → Bool
is_handled v = v == 0 || v == 1 || v == 3 || v == 6 || v == 8 || v == 13 || v == 14 || v == 32

-- If the handlers are 64-bit addresses: after `init` each exception with a handler, and the timer,
-- has a gate to it; only double faults change the stack, to the first of the TSS. No other vector has
-- a gate.
pub init_idt-gates :
    (h : Handlers)
    → AreAddresses h
    → (gate_of (init_idt h new_idt 0) ≡ kernel_gate h.divide_error 0)
      × (gate_of (init_idt h new_idt 1) ≡ kernel_gate h.debug_exception 0)
      × (gate_of (init_idt h new_idt 3) ≡ kernel_gate h.breakpoint 0)
      × (gate_of (init_idt h new_idt 6) ≡ kernel_gate h.invalid_opcode 0)
      × (gate_of (init_idt h new_idt 8) ≡ kernel_gate h.double_fault 1)
      × (gate_of (init_idt h new_idt 13) ≡ kernel_gate h.general_protection_fault 0)
      × (gate_of (init_idt h new_idt 14) ≡ kernel_gate h.page_fault 0)
      × (gate_of (init_idt h new_idt 32) ≡ kernel_gate h.timer_interrupt 0)
      × ((v : ℕ) → is_handled v ≡ false → gate_of (init_idt h new_idt v) ≡ none)
unfolding init_idt gate_of
init_idt-gates h a = (
  gate_of-new_gate h.divide_error a.divide_error,
  gate_of-new_gate h.debug_exception a.debug_exception,
  gate_of-new_gate h.breakpoint a.breakpoint,
  gate_of-new_gate h.invalid_opcode a.invalid_opcode,
  gate_of-new_with_ist h.double_fault a.double_fault,
  gate_of-new_gate h.general_protection_fault a.general_protection_fault,
  gate_of-new_gate h.page_fault a.page_fault,
  gate_of-new_gate h.timer_interrupt a.timer_interrupt,
  λ v n.
      let e0 : (v == 0) ≡ false = ground (arith, n) in
      let e1 : (v == 1) ≡ false = ground (arith, n) in
      let e3 : (v == 3) ≡ false = ground (arith, n) in
      let e6 : (v == 6) ≡ false = ground (arith, n) in
      let e8 : (v == 8) ≡ false = ground (arith, n) in
      let e13 : (v == 13) ≡ false = ground (arith, n) in
      let e14 : (v == 14) ≡ false = ground (arith, n) in
      let e32 : (v == 32) ≡ false = ground (arith, n) in
      rw (e32, e14, e13, e8, e6, e3, e1, e0) refl,
)
