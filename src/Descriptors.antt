-- ===== src/Descriptors.antt =====
-- `kernel/src/gdt.rs` and `kernel/src/idt.rs`: the descriptors of segments and of interrupt gates. The
-- addresses of the tables, stacks and handlers are arguments. Loading the registers is left out.
pub mod Decode
mod Tests
use Prim.Native.Nat.{bit_and, bit_or}
use vitr_os.Base.{ℕ, ◌+◌, ◌-◌, ◌*◌, ◌/◌, ◌%◌, ◌^◌, ◌==◌, if◌then◌else◌}
use vitr_os.Apic.{timer_interrupt_vector}

pub record GdtEntry : Type 0 where
  pub limit_low : ℕ
  pub base_low : ℕ
  pub base_middle : ℕ
  pub access : ℕ
  pub granularity : ℕ
  pub base_high : ℕ

abbrev pub null_descriptor : GdtEntry
null_descriptor = record {
  limit_low = 0;
  base_low = 0;
  base_middle = 0;
  access = 0;
  granularity = 0;
  base_high = 0;
}

-- The level goes to bits 5 and 6.
abbrev pub level_bits : ℕ → ℕ
level_bits dpl = bit_and dpl 3 * 2 ^ 5

unfoldable pub code_segment : ℕ → GdtEntry
code_segment dpl = record {
  limit_low = 0;
  base_low = 0;
  base_middle = 0;
  access = bit_or 0x9A (level_bits dpl);
  granularity = 0x20;
  base_high = 0;
}

unfoldable pub data_segment : ℕ → GdtEntry
data_segment dpl = record {
  limit_low = 0;
  base_low = 0;
  base_middle = 0;
  access = bit_or 0x92 (level_bits dpl);
  granularity = 0;
  base_high = 0;
}

pub record TaskStateSegment : Type 0 where
  pub rsp0 : ℕ
  pub rsp1 : ℕ
  pub rsp2 : ℕ
  pub ist1 : ℕ
  pub ist2 : ℕ
  pub ist3 : ℕ
  pub ist4 : ℕ
  pub ist5 : ℕ
  pub ist6 : ℕ
  pub ist7 : ℕ
  pub iomap_base : ℕ

abbrev pub new_tss : TaskStateSegment
new_tss = record {
  rsp0 = 0;
  rsp1 = 0;
  rsp2 = 0;
  ist1 = 0;
  ist2 = 0;
  ist3 = 0;
  ist4 = 0;
  ist5 = 0;
  ist6 = 0;
  ist7 = 0;
  iomap_base = 0x68;
}

-- The fields of `TaskStateSegment` without padding.
abbrev pub tss_size : ℕ
tss_size = 4 + 3 * 8 + 8 + 7 * 8 + 8 + 2 + 2

pub record TssDescriptor : Type 0 where
  pub low : GdtEntry
  pub high : GdtEntry

unfoldable pub tss_descriptor : ℕ → TssDescriptor
tss_descriptor tss_addr =
    let limit = tss_size - 1 in
    record {
      low = record {
        limit_low = bit_and limit 0xFFFF;
        base_low = bit_and tss_addr 0xFFFF;
        base_middle = bit_and (tss_addr / 2 ^ 16) 0xFF;
        access = 0x89;
        granularity = bit_and (limit / 2 ^ 16) 0xF;
        base_high = bit_and (tss_addr / 2 ^ 24) 0xFF;
      };
      high = record {
        limit_low = bit_and (tss_addr / 2 ^ 32) 0xFFFF;
        base_low = bit_and (tss_addr / 2 ^ 48) 0xFFFF;
        base_middle = 0;
        access = 0;
        granularity = 0;
        base_high = 0;
      };
    }

pub record Gdt : Type 0 where
  pub null : GdtEntry
  pub kernel_code : GdtEntry
  pub kernel_data : GdtEntry
  pub user_code : GdtEntry
  pub user_data : GdtEntry
  pub tss : TssDescriptor

unfoldable pub new_gdt : Gdt
unfolding code_segment data_segment tss_descriptor
new_gdt = record {
  null = null_descriptor;
  kernel_code = code_segment 0;
  kernel_data = data_segment 0;
  user_code = code_segment 3;
  user_data = data_segment 3;
  tss = tss_descriptor 0;
}

unfoldable pub set_tss : ℕ → Gdt → Gdt
unfolding tss_descriptor
set_tss tss_addr g = record g { tss = tss_descriptor tss_addr }

abbrev pub kernel_code_selector : ℕ
kernel_code_selector = 0x08

abbrev pub double_fault_ist_index : ℕ
double_fault_ist_index = 1

-- The stack for double faults has 16384 bytes.
unfoldable pub init_gdt : ℕ → ℕ → TaskStateSegment → Gdt → TaskStateSegment × Gdt
unfolding set_tss
init_gdt double_fault_stack tss_addr t g =
    (record t { ist1 = (double_fault_stack + 16384) % 2 ^ 64 }, set_tss tss_addr g)

pub record IdtEntry : Type 0 where
  pub offset_low : ℕ
  pub selector : ℕ
  pub ist : ℕ
  pub attributes : ℕ
  pub offset_middle : ℕ
  pub offset_high : ℕ

abbrev pub null_gate : IdtEntry
null_gate = record {
  offset_low = 0;
  selector = 0;
  ist = 0;
  attributes = 0;
  offset_middle = 0;
  offset_high = 0;
}

unfoldable pub new_with_ist : ℕ → ℕ → ℕ → ℕ → IdtEntry
new_with_ist handler selector dpl ist_index = record {
  offset_low = bit_and handler 0xFFFF;
  selector = selector;
  ist = bit_and ist_index 7;
  attributes = bit_or (bit_or 0x80 (level_bits dpl)) 0xE;
  offset_middle = bit_and (handler / 2 ^ 16) 0xFFFF;
  offset_high = bit_and (handler / 2 ^ 32) 0xFFFF_FFFF;
}

unfoldable pub new_gate : ℕ → ℕ → ℕ → IdtEntry
new_gate handler selector dpl = record {
  offset_low = bit_and handler 0xFFFF;
  selector = selector;
  ist = 0;
  attributes = bit_or (bit_or 0x80 (level_bits dpl)) 0xE;
  offset_middle = bit_and (handler / 2 ^ 16) 0xFFFF;
  offset_high = bit_and (handler / 2 ^ 32) 0xFFFF_FFFF;
}

-- The 256 entries by vector.
abbrev pub Idt : Type 0
Idt = ℕ → IdtEntry

abbrev pub new_idt : Idt
new_idt _ = null_gate

unfoldable pub set_idt_entry : ℕ → ℕ → Idt → Idt
unfolding new_gate
set_idt_entry vector handler idt v =
    if v == vector then new_gate handler kernel_code_selector 0 else idt v

unfoldable pub set_idt_entry_with_ist : ℕ → ℕ → ℕ → Idt → Idt
unfolding new_with_ist
set_idt_entry_with_ist vector handler ist_index idt v =
    if v == vector then new_with_ist handler kernel_code_selector 0 ist_index else idt v

-- The addresses of the handlers.
pub record Handlers : Type 0 where
  pub divide_error : ℕ
  pub debug_exception : ℕ
  pub breakpoint : ℕ
  pub invalid_opcode : ℕ
  pub double_fault : ℕ
  pub general_protection_fault : ℕ
  pub page_fault : ℕ
  pub timer_interrupt : ℕ

unfoldable pub init_idt : Handlers → Idt → Idt
unfolding set_idt_entry set_idt_entry_with_ist
init_idt h idt = set_idt_entry timer_interrupt_vector h.timer_interrupt (
    set_idt_entry 14 h.page_fault (
      set_idt_entry 13 h.general_protection_fault (
        set_idt_entry_with_ist 8 h.double_fault double_fault_ist_index (
          set_idt_entry 6 h.invalid_opcode (
            set_idt_entry 3 h.breakpoint
              (set_idt_entry 1 h.debug_exception (set_idt_entry 0 h.divide_error idt)))))))
